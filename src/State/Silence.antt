-- ===== src/State/Silence.antt =====
-- Rules for actions that bring in no refusals: where none is to come, none is to come afterwards.
use vodum.Common.{ℕ, Bool, true, false, [], ◌≡◌, refl, arith, if◌then◌else◌}
use vodum.Tasks.{Task, Error}
use vodum.State.Defs.{
  Db, World, Result, ok, raised, Action, pure, gets, lift, modify, and_then, or_else, ◌>>=◌,
  try_except, request, query, execute, update_tasks,
}

pub record Quiet {A : Type 0} (m : Action A) : Type 0 where
  pub at : (w : World) → w.faults ≡ [] → (m w).1.faults ≡ []

module _ {A : Type 0} where
  pub Quiet-pure : (a : A) → Quiet (pure a)
  unfolding pure
  Quiet-pure a = record { at = λ w h. h }

  pub Quiet-gets : (f : World → A) → Quiet (gets f)
  unfolding gets
  Quiet-gets f = record { at = λ w h. h }

  pub Quiet-lift : (r : Result A) → Quiet (lift r)
  unfolding lift
  Quiet-lift r = record { at = λ w h. h }

  pub Quiet-if : (b : Bool) (m n : Action A) → Quiet m → Quiet n → Quiet (if b then m else n)
  Quiet-if true m n km kn = km
  Quiet-if false m n km kn = kn

  pub Quiet-try_except :
      (m : Action A) (h : Error → Action A)
      → Quiet m
      → ((e : Error) → Quiet (h e))
      → Quiet (try_except m h)
  unfolding try_except
  Quiet-try_except m h km kh = record { at = λ w p. go (m w) (km.at w p) }
    where
      go : (o : Result A × World) → o.1.faults ≡ [] → (or_else o h).1.faults ≡ []
      go (ok a, w) p = p
      go (raised e, w) p = (kh e).at w p

pub Quiet-request : (e : Error) → Quiet (request e)
unfolding request
Quiet-request e = record { at = λ w h. ground arith }

module _ {A B : Type 0} where
  pub Quiet-bind :
      (m : Action A) (f : A → Action B) → Quiet m → ((a : A) → Quiet (f a)) → Quiet (m >>= f)
  unfolding ◌>>=◌
  Quiet-bind m f km kf = record { at = λ w p. go (m w) (km.at w p) }
    where
      go : (o : Result A × World) → o.1.faults ≡ [] → (and_then o f).1.faults ≡ []
      go (ok a, w) p = (kf a).at w p
      go (raised e, w) p = p

module _ {A : Type 0} where
  pub Quiet-query : (f : Db → A) → Quiet (query f)
  unfolding query
  Quiet-query f = Quiet-bind _ _ (Quiet-request _) (λ _. Quiet-gets _)

pub Quiet-execute : (f : ℕ → Db → Db) → Quiet (execute f)
unfolding execute modify
Quiet-execute f = Quiet-bind _ _ (Quiet-request _) (λ _. record { at = λ w h. h })

pub Quiet-update_tasks : (p : Task → Bool) (f : ℕ → Task → Task) → Quiet (update_tasks p f)
unfolding update_tasks
Quiet-update_tasks p f = Quiet-execute _

pub ruleset quiet_rules = (
  Quiet-pure, Quiet-gets, Quiet-lift, Quiet-if, Quiet-bind, Quiet-try_except, Quiet-request,
  Quiet-query, Quiet-update_tasks,
)

-- A handler that returns takes every error.
pub try_except-pure :
    (m : Action (Unit {0})) (w : World) → try_except m (λ _. pure tt) w ≡ (ok tt, (m w).1)
unfolding try_except pure
try_except-pure m w = go (m w)
  where
    go : (r : Result (Unit {0}) × World) → or_else r (λ _. pure tt) ≡ (ok tt, r.1)
    go (ok a, w') = refl
    go (raised e, w') = refl

pub caught :
    (m : Action (Unit {0})) (w : World)
    → (w' : World) × (try_except m (λ _. pure tt) w ≡ (ok tt, w'))
unfolding try_except pure
caught m w = go (m w)
  where
    go : (r : Result (Unit {0}) × World) → (w' : World) × (or_else r (λ _. pure tt) ≡ (ok tt, w'))
    go (ok a, w') = (w', refl)
    go (raised e, w') = (w', refl)
