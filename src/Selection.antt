-- ===== src/Selection.antt =====
-- app/tasks_engine.py, the query of `_task_worker`: which task the worker takes.
use vodum.Common.{
  ltb, ◌≤◌, ◌<◌, ◌≡◌, refl, Bool, true, false, Option, none, some, List, [], ◌∷◌, All, count_rows,
  arith, if◌then◌else◌, Option-cases, Bool-cases, ◌⊎◌, subst, inl, inr, ◌↔◌,
}
use vodum.Tasks.{Task}
use vodum.Engine.{is_waiting}
use vodum.Worker.{priority, comes_before, next_queued}

-- Of two rows, `t` is taken no later than `u`.
abbrev IsFirst : Task → Task → Type 0
IsFirst t u = is_waiting u ≡ true → comes_before u t ≡ false

comes_before_irrefl : (t : Task) → comes_before t t ≡ false
unfolding comes_before
comes_before_irrefl t = ground arith

comes_before_asymm : (t u : Task) → comes_before t u ≡ true → comes_before u t ≡ false
unfolding comes_before
comes_before_asymm t u h = ground arith

comes_before_trans :
    (t u v : Task) → comes_before t u ≡ false → comes_before u v ≡ false → comes_before t v ≡ false
unfolding comes_before
comes_before_trans t u v h k = ground arith

All-map : (P Q : Task → Type 0) → ((t : Task) → P t → Q t) → (ts : List Task) → All P ts → All Q ts
All-map P Q f [] h = tt
All-map P Q f (t ∷ ts) h = (f t h.0, All-map P Q f ts h.1)

next_queued-waits : (ts : List Task) (t : Task) → next_queued ts ≡ some t → is_waiting t ≡ true
unfolding next_queued
next_queued-waits [] t e = cc
next_queued-waits (u ∷ us) t e = elim (Option-cases (next_queued us)) [
  | inl last ↦ ground arith
  | inr (r, found) ↦ ground (arith, next_queued-waits us r found)
]

next_queued-none : (ts : List Task) → (next_queued ts ≡ none) ↔ (count_rows is_waiting ts ≡ 0)
unfolding next_queued
next_queued-none [] = ground arith
next_queued-none (u ∷ us) = ground (arith, next_queued-none us)

-- What is first against `r` is first against a row that `r` does not precede.
IsFirst-le : (r t : Task) → comes_before r t ≡ false → (u : Task) → IsFirst r u → IsFirst t u
IsFirst-le r t h u first waits = comes_before_trans u r t (first waits) h

none-IsFirst : (t : Task) (ts : List Task) → next_queued ts ≡ none → All (IsFirst t) ts
unfolding next_queued
none-IsFirst t [] e = tt
none-IsFirst t (u ∷ us) e = elim (Bool-cases (is_waiting u)) [
  | inl does_wait ↦ absurd (ground arith)
  | inr not_waits ↦ ((λ w. cc), none-IsFirst t us (rw not_waits at e))
]

-- The head `u` against the first row `r` of the tail, where `u` waits too.
head-IsFirst :
    (u r t : Task) (us : List Task) (b : Bool)
    → comes_before r u ≡ b
    → (if b then r else u) ≡ t
    → All (IsFirst r) us
    → All (IsFirst t) (u ∷ us)
head-IsFirst u r t us true c e h =
    subst (λ x. All (IsFirst x) (u ∷ us)) e ((λ _. comes_before_asymm r u c), h)
head-IsFirst u r t us false c e h =
    subst (λ x. All (IsFirst x) (u ∷ us)) e
      ((λ _. comes_before_irrefl u), All-map _ _ (IsFirst-le r u c) us h)

next_queued-IsFirst : (ts : List Task) (t : Task) → next_queued ts ≡ some t → All (IsFirst t) ts
unfolding next_queued
next_queued-IsFirst [] t e = absurd (cc)
next_queued-IsFirst (u ∷ us) t e =
    split (Bool-cases (is_waiting u)) (Option-cases (next_queued us)) (next_queued-IsFirst us)
  where
    split :
        (is_waiting u ≡ true) ⊎ (is_waiting u ≡ false)
        → (next_queued us ≡ none) ⊎ ((r : Task) × (next_queued us ≡ some r))
        → ((r : Task) → next_queued us ≡ some r → All (IsFirst r) us)
        → All (IsFirst t) (u ∷ us)
    split (inl w) (inl n) ih =
        let same : u ≡ t = ground arith in
        subst (λ x. All (IsFirst x) (u ∷ us)) same
          ((λ _. comes_before_irrefl u), none-IsFirst u us n)
    split (inl w) (inr (r, found)) ih =
        head-IsFirst u r t us (comes_before r u) refl (ground arith) (ih r found)
    split (inr n) o ih = ((λ w. cc), ih t (rw n at e))

-- In the order of priority, time of the last change and id, `t` comes no later than `u`.
abbrev pub IsNoLater : Task → Task → Type 0
IsNoLater t u =
    (priority t.name < priority u.name)
    ⊎ ((priority t.name ≡ priority u.name)
        × ((t.updated_at < u.updated_at) ⊎ ((t.updated_at ≡ u.updated_at) × (t.id ≤ u.id))))

no_later : (t u : Task) → comes_before u t ≡ false → IsNoLater t u
unfolding comes_before
no_later t u h = elim (Bool-cases (ltb (priority t.name) (priority u.name))) [
  | inl less ↦ inl (ground arith)
  | inr same ↦ inr (
    ground arith,
    elim (Bool-cases (ltb t.updated_at u.updated_at)) [
      | inl older ↦ inl (ground arith)
      | inr not_older ↦ inr (ground arith, ground arith)
    ],
  )
]

-- A row that waits and that comes no later than any waiting row, or none where no row waits.
abbrev pub IsChoice : List Task → Option Task → Type 0
IsChoice ts none = count_rows is_waiting ts ≡ 0
IsChoice ts (some t) = (is_waiting t ≡ true) × All (λ u. (is_waiting u ≡ false) ⊎ IsNoLater t u) ts

first_row : (t u : Task) → IsFirst t u → (is_waiting u ≡ false) ⊎ IsNoLater t u
first_row t u first = elim (Bool-cases (is_waiting u)) [
  | inl waits ↦ inr (no_later t u (first waits))
  | inr not_waits ↦ inl not_waits
]

choice : (ts : List Task) (found : Option Task) → next_queued ts ≡ found → IsChoice ts found
choice ts none e = (next_queued-none ts).0 e
choice ts (some t) e =
    (next_queued-waits ts t e, All-map (IsFirst t) _ (first_row t) ts (next_queued-IsFirst ts t e))

-- The worker takes a row that waits, and no waiting row comes before it in the order of priority,
-- time of the last change and id; it finds none only if no row waits.
pub next_queued_first : (ts : List Task) → IsChoice ts (next_queued ts)
next_queued_first ts = choice ts (next_queued ts) refl
