-- ===== src/State/Preserve.antt =====
-- Rules for what an action leaves true of the tasks table, however it ends and whichever of its
-- requests are refused.
use vodum.Common.{
  ℕ, Bool, true, false, List, ◌≡◌, All, All-update_rows, update_rows, if◌then◌else◌, inl, inr,
}
use vodum.Tasks.{Task, Error}
use vodum.State.Defs.{
  Db, World, Result, ok, raised, Action, pure, raise, gets, lift, modify, and_then, or_else, finish,
  ◌>>=◌, try_except, try_finally, request, query, request-cases, query-cases, execute, update_tasks,
  update_tasks-cases, update_tasks_when,
}

-- `m` keeps `P` of the tasks table, whether it returns or raises.
pub record Keeps {A : Type 0} (P : List Task → Type 0) (m : Action A) : Type 0 where
  pub at : (w : World) → P w.db.tasks → P (m w).1.db.tasks

module _ {A : Type 0} {P : List Task → Type 0} where
  pub Keeps-pure : (a : A) → Keeps P (pure a)
  unfolding pure
  Keeps-pure a = record { at = λ w h. h }

  pub Keeps-raise : (e : Error) → Keeps P (raise {A = A} e)
  unfolding raise
  Keeps-raise e = record { at = λ w h. h }

  pub Keeps-gets : (f : World → A) → Keeps P (gets f)
  unfolding gets
  Keeps-gets f = record { at = λ w h. h }

  pub Keeps-lift : (r : Result A) → Keeps P (lift r)
  unfolding lift
  Keeps-lift r = record { at = λ w h. h }

  pub Keeps-if : (b : Bool) (m n : Action A) → Keeps P m → Keeps P n → Keeps P (if b then m else n)
  Keeps-if true m n km kn = km
  Keeps-if false m n km kn = kn

  pub Keeps-try_except :
      (m : Action A) (h : Error → Action A)
      → Keeps P m
      → ((e : Error) → Keeps P (h e))
      → Keeps P (try_except m h)
  unfolding try_except
  Keeps-try_except m h km kh = record { at = λ w p. go (m w) (km.at w p) }
    where
      go : (o : Result A × World) → P o.1.db.tasks → P (or_else o h).1.db.tasks
      go (ok a, w) p = p
      go (raised e, w) p = (kh e).at w p

module _ {P : List Task → Type 0} where
  pub Keeps-modify :
      (f : World → World) → ((w : World) → (f w).db.tasks ≡ w.db.tasks) → Keeps P (modify f)
  unfolding modify
  Keeps-modify f same = record { at = λ w h. rw (same w) h }

  pub Keeps-request : (e : Error) → Keeps P (request e)
  unfolding request
  Keeps-request e = record {
    at = λ w h. elim (request-cases e w) [ inl (l, q) ↦ rw q h | inr (l, q) ↦ rw q h ];
  }

module _ {A B : Type 0} {P : List Task → Type 0} where
  pub Keeps-bind :
      (m : Action A) (f : A → Action B) → Keeps P m → ((a : A) → Keeps P (f a)) → Keeps P (m >>= f)
  unfolding ◌>>=◌
  Keeps-bind m f km kf = record { at = λ w p. go (m w) (km.at w p) }
    where
      go : (o : Result A × World) → P o.1.db.tasks → P (and_then o f).1.db.tasks
      go (ok a, w) p = (kf a).at w p
      go (raised e, w) p = p

module _ {A : Type 0} {P : List Task → Type 0} where
  pub Keeps-try_finally :
      (m : Action A) (c : Action Unit) → Keeps P m → Keeps P c → Keeps P (try_finally m c)
  unfolding try_finally
  Keeps-try_finally m c km kc = record { at = λ w p. go (m w) (km.at w p) }
    where
      last :
          (r : Result A) (o : Result {0} (Unit {0}) × World)
          → P o.1.db.tasks
          → P (and_then o (λ _ w. (r, w))).1.db.tasks
      last r (ok _, w) p = p
      last r (raised e, w) p = p

      go : (o : Result A × World) → P o.1.db.tasks → P (finish o c).1.db.tasks
      go (r, w) p = last r (c w) (kc.at w p)

  pub Keeps-query : (f : Db → A) → Keeps P (query f)
  unfolding query
  Keeps-query f = Keeps-bind _ _ (Keeps-request _) (λ _. Keeps-gets _)

module _ {P : List Task → Type 0} where
  pub Keeps-execute :
      (f : ℕ → Db → Db)
      → ((now : ℕ) (db : Db) → P db.tasks → P (f now db).tasks)
      → Keeps P (execute f)
  unfolding execute modify
  Keeps-execute f keep =
      Keeps-bind _ _ (Keeps-request _) (λ _. record { at = λ w h. keep w.utc w.db h })

-- An update of rows keeps what it keeps of each row.
pub Keeps-update_tasks :
    (Q : Task → Type 0) (p : Task → Bool) (f : ℕ → Task → Task)
    → ((now : ℕ) (t : Task) → Q t → Q (f now t))
    → Keeps (All Q) (update_tasks p f)
unfolding update_tasks
Keeps-update_tasks Q p f keep =
    Keeps-execute _ (λ now db. All-update_rows Q p (f now) (keep now) db.tasks)

pub Keeps-update_tasks_when :
    (Q : Task → Type 0) (p : ℕ → Task → Bool) (f : ℕ → Task → Task)
    → ((now : ℕ) (t : Task) → Q t → Q (f now t))
    → Keeps (All Q) (update_tasks_when p f)
unfolding update_tasks_when
Keeps-update_tasks_when Q p f keep =
    Keeps-execute _ (λ now db. All-update_rows Q (p now) (f now) (keep now) db.tasks)

-- A query followed by a rest that may use what the query has read.
pub Keeps-query_then :
    {A B : Type 0} {P : List Task → Type 0} (g : Db → A) (f : A → Action B)
    → ((w : World) → P w.db.tasks → P (f (g w.db) w).1.db.tasks)
    → Keeps P (query g >>= f)
unfolding ◌>>=◌
Keeps-query_then g f rest = record {
  at = λ w h. elim (query-cases g w) [
    | inl (l, q) ↦ rw q (rest (record w { faults = l }) h)
    | inr (l, q) ↦ rw q h
  ];
}

-- What holds of the table as it is and as updated holds after the UPDATE.
pub update_tasks-at :
    (P : List Task → Type 0) (p : Task → Bool) (f : ℕ → Task → Task) (w : World)
    → P w.db.tasks
    → P (update_rows p (f w.utc) w.db.tasks)
    → P (update_tasks p f w).1.db.tasks
update_tasks-at P p f w before after = elim (update_tasks-cases p f w) [
  | inl (l, q) ↦ rw q after
  | inr (l, q) ↦ rw q before
]

pub ruleset keeps_rules = (
  Keeps-pure, Keeps-raise, Keeps-gets, Keeps-lift, Keeps-if, Keeps-bind, Keeps-try_except,
  Keeps-try_finally, Keeps-request, Keeps-query,
)
