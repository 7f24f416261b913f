-- ===== src/WellFormed/Table.antt =====
-- From rows to the table: updates keep the keys distinct, and an update by key may use what a
-- query has read of that row.
use vodum.Common.{
  ℕ, ◌≡◌, refl, ap, Bool, some, none, List, [], ◌∷◌, All, find_row, update_rows, All-update_rows,
  Bool-cases, inl, inr, arith,
}
use vodum.Tasks.{Task, has_id}
use vodum.State.{update_tasks, update_tasks_when, Keeps, Keeps-execute}
use vodum.WellFormed.Rows.{IsWf, Distinct, IsTable, IsSafe}

find_row-update :
    (i : ℕ) (p : Task → Bool) (f : Task → Task)
    → ((t : Task) → (f t).id ≡ t.id)
    → (ts : List Task) → find_row (has_id i) ts ≡ none
    → find_row (has_id i) (update_rows p f ts) ≡ none
find_row-update i p f same [] h = refl
find_row-update i p f same (t ∷ ts) h = ground (arith, same t, find_row-update i p f same ts)

pub Distinct-update :
    (p : Task → Bool) (f : Task → Task)
    → ((t : Task) → (f t).id ≡ t.id)
    → (ts : List Task) → Distinct ts
    → Distinct (update_rows p f ts)
Distinct-update p f same [] h = tt
Distinct-update p f same (t ∷ ts) h =
    ground (arith, same t, find_row-update t.id p f same ts h.0, Distinct-update p f same ts h.1)

IsTable-update :
    (p : Task → Bool) (f : Task → Task)
    → ((t : Task) → IsWf t → IsWf (f t))
    → ((t : Task) → (f t).id ≡ t.id)
    → (ts : List Task) → IsTable ts
    → IsTable (update_rows p f ts)
IsTable-update p f keep same ts h = record {
  rows = All-update_rows IsWf p f keep ts h.rows;
  distinct = Distinct-update p f same ts h.distinct;
}

pub Keeps-safe :
    (p : Task → Bool) (f : ℕ → Task → Task) → IsSafe f → Keeps IsTable (update_tasks p f)
unfolding update_tasks
Keeps-safe p f s =
    Keeps-execute _ (λ now db. IsTable-update p (f now) (s.keeps now) (s.same_id now) db.tasks)

pub Keeps-safe_when :
    (p : ℕ → Task → Bool) (f : ℕ → Task → Task) → IsSafe f → Keeps IsTable (update_tasks_when p f)
unfolding update_tasks_when
Keeps-safe_when p f s =
    Keeps-execute _
      (λ now db. IsTable-update (p now) (f now) (s.keeps now) (s.same_id now) db.tasks)

-- Where no row has the key, an update by it changes nothing.
pub update-absent :
    (i : ℕ) (f : Task → Task) (ts : List Task)
    → find_row (has_id i) ts ≡ none
    → update_rows (has_id i) f ts ≡ ts
update-absent i f [] h = refl
update-absent i f (t ∷ ts) h = ground (arith, update-absent i f ts)

-- With distinct keys, an update by key touches only the row that the query finds.
pub All-update_found :
    (Q : Task → Type 0) (i : ℕ) (f : Task → Task) (t : Task) (ts : List Task)
    → Distinct ts
    → find_row (has_id i) ts ≡ some t
    → (Q t → Q (f t))
    → All Q ts
    → All Q (update_rows (has_id i) f ts)
All-update_found Q i f t [] d e keep h = tt
All-update_found Q i f t (u ∷ us) d e keep h = elim (Bool-cases (has_id i u)) [
  | inl here ↦
      let same : u ≡ t = ground arith in
      let key : u.id ≡ i = ground arith in
      let rest : update_rows (has_id i) f us ≡ us =
        update-absent i f us (rw (ap (λ j. find_row (has_id j) us) key) at d.0) in
      rw (here, rest) (rw (← same) at keep h.0, h.1)
  | inr there ↦ rw there (h.0, All-update_found Q i f t us d.1 (rw there at e) keep h.1)
]

-- After an update by key, a query by the key finds the row as updated.
pub find_row-update_self :
    (i : ℕ) (f : Task → Task) (ts : List Task) (t : Task)
    → ((u : Task) → (f u).id ≡ u.id)
    → find_row (has_id i) ts ≡ some t
    → find_row (has_id i) (update_rows (has_id i) f ts) ≡ some (f t)
find_row-update_self i f [] t same e = cc
find_row-update_self i f (u ∷ us) t same e =
    ground (arith, same u, find_row-update_self i f us t same)
