-- ===== src/State/Defs.antt =====
-- What the scheduler's code reads and writes: the tables in SQLite, the in-memory signals and the
-- worker lease, with the two clocks. A method is an action: it returns or raises, and what was
-- written before a raise stays written.
use vodum.Common.{
  ℕ, Bool, true, false, Option, ◌≡◌, refl, ◌⊎◌, inl, inr, List, [], ◌∷◌, String, update_rows,
  if◌then◌else◌,
}
use vodum.Tasks.{Task, Error, db_error}

-- A row of `servers`: the normalised `type`, and whether the normalised `status` is "up".
pub data Provider : Type 0 where
  plex jellyfin other : Provider

pub record Server : Type 0 where
  pub id : ℕ
  pub type : Provider
  pub up : Bool

-- `settings.expiry_mode`.
pub data ExpiryMode : Type 0 where
  keep disable warn_only warn_then_disable : ExpiryMode

-- The row of `settings`. `enable_cron_jobs` is nullable.
pub record Settings : Type 0 where
  pub enable_cron_jobs : Option ℕ
  pub expiry_mode : ExpiryMode
  pub maintenance_mode : Bool

-- `pending_jobs` lists the server of each row of `media_jobs` that is not processed;
-- `enabled_policies` counts the rows of `stream_policies` that are enabled.
pub record Db : Type 0 where
  pub tasks : List Task
  pub settings : Option Settings
  pub servers : List Server
  pub pending_jobs : List ℕ
  pub enabled_policies : ℕ

-- `utc` is SQLite's clock, `local` is `datetime.now()`. `faults` says of each coming statement
-- whether SQLite raises; past its end no statement does.
pub record World : Type 0 where
  pub db : Db
  pub utc : ℕ
  pub local : ℕ
  pub forced : List String
  pub dirty : Bool
  pub claimed : Bool
  pub started : Bool
  pub faults : List Bool

pub data Result {ℓ} (A : Type ℓ) : Type ℓ where
  ok : A → Result A
  raised : Error → Result A

pub Result-cases :
    {A : Type 0} (r : Result A) → ((a : A) × (r ≡ ok a)) ⊎ ((e : Error) × (r ≡ raised e))
Result-cases (ok a) = inl (a, refl)
Result-cases (raised e) = inr (e, refl)

abbrev pub Action : Type 0 → Type 0
Action A = World → Result A × World

module _ {A : Type 0} where
  unfoldable pub pure : A → Action A
  pure a w = (ok a, w)

  unfoldable pub raise : Error → Action A
  raise e w = (raised e, w)

  unfoldable pub gets : (World → A) → Action A
  gets f w = (ok (f w), w)

  unfoldable pub lift : Result A → Action A
  lift r w = (r, w)

unfoldable pub modify : (World → World) → Action Unit
modify f w = (ok tt, f w)

-- What follows an outcome: the rest of a block, a handler, or a cleanup that may itself raise.
abbrev pub and_then : {A B : Type 0} → Result A × World → (A → Action B) → Result B × World
and_then (ok a, w) f = f a w
and_then (raised e, w) f = (raised e, w)

abbrev pub or_else : {A : Type 0} → Result A × World → (Error → Action A) → Result A × World
or_else (ok a, w) handler = (ok a, w)
or_else (raised e, w) handler = handler e w

infixl 5 ◌>>=◌ ◌>>◌
unfoldable pub ◌>>=◌ : {A B : Type 0} → Action A → (A → Action B) → Action B
◌>>=◌ m f w = and_then (m w) f

abbrev pub ◌>>◌ : {A B : Type 0} → Action A → Action B → Action B
m >> k = m >>= λ _. k

-- `try: body` / `except Exception as e: handler(e)`
unfoldable pub try_except : {A : Type 0} → Action A → (Error → Action A) → Action A
try_except body handler w = or_else (body w) handler

abbrev pub finish : {A : Type 0} → Result A × World → Action Unit → Result A × World
finish (r, w) cleanup = and_then (cleanup w) (λ _ w'. (r, w'))

-- `try: body` / `finally: cleanup`
unfoldable pub try_finally : {A : Type 0} → Action A → Action Unit → Action A
try_finally body cleanup w = finish (body w) cleanup

answer : Error → World → List Bool → Result (Unit {0}) × World
answer e w [] = (ok tt, w)
answer e w (b ∷ rest) = (if b then raised e else ok tt, record w { faults = rest })

-- One request to SQLite or to the operating system: it raises if the next fault says so.
unfoldable pub request : Error → Action Unit
unfolding answer
request e w = answer e w w.faults

-- `db.query`, `db.query_one`
unfoldable pub query : {A : Type 0} → (Db → A) → Action A
query f = request db_error >> gets (λ w. f w.db)

-- `db.execute`; the statement may read SQLite's clock.
unfoldable pub execute : (ℕ → Db → Db) → Action Unit
execute f = request db_error >> modify (λ w. record w { db = f w.utc w.db })

-- `UPDATE tasks SET … WHERE …`
unfoldable pub update_tasks : (Task → Bool) → (ℕ → Task → Task) → Action Unit
update_tasks p f = execute (λ now db. record db { tasks = update_rows p (f now) db.tasks })

-- The same, where the condition reads SQLite's clock too.
unfoldable pub update_tasks_when : (ℕ → Task → Bool) → (ℕ → Task → Task) → Action Unit
update_tasks_when p f =
    execute (λ now db. record db { tasks = update_rows (p now) (f now) db.tasks })

-- A request changes the faults to come, and nothing else.
pub request-cases :
    (e : Error) (w : World)
    → ((l : List Bool) × (request e w ≡ (ok tt, record w { faults = l })))
      ⊎ ((l : List Bool) × (request e w ≡ (raised e, record w { faults = l })))
unfolding request
request-cases e w = go w.faults
  where
    go :
        (l : List Bool)
        → ((m : List Bool) × (answer e w l ≡ (ok tt, record w { faults = m })))
          ⊎ ((m : List Bool) × (answer e w l ≡ (raised e, record w { faults = m })))
    go [] = inl (w.faults, refl)
    go (true ∷ l) = inr (l, refl)
    go (false ∷ l) = inl (l, refl)

-- So does a query, which returns what it reads of the tables.
pub query-cases :
    {A : Type 0} (g : Db → A) (w : World)
    → ((l : List Bool) × (query g w ≡ (ok (g w.db), record w { faults = l })))
      ⊎ ((l : List Bool) × (query g w ≡ (raised db_error, record w { faults = l })))
unfolding query ◌>>=◌ gets
query-cases g w = elim (request-cases db_error w) [
  | inl (l, q) ↦ inl (l, rw q)
  | inr (l, q) ↦ inr (l, rw q)
]

-- An UPDATE writes all the rows that fit, or raises and writes none.
pub update_tasks-cases :
    (p : Task → Bool) (f : ℕ → Task → Task) (w : World)
    → ((l : List Bool) × (update_tasks p f w ≡ (
      ok tt,
      record w { db = record w.db { tasks = update_rows p (f w.utc) w.db.tasks }; faults = l },
    )))
      ⊎ ((l : List Bool) × (update_tasks p f w ≡ (raised db_error, record w { faults = l })))
unfolding update_tasks execute ◌>>=◌ modify
update_tasks-cases p f w = elim (request-cases db_error w) [
  | inl (l, q) ↦ inl (l, rw q)
  | inr (l, q) ↦ inr (l, rw q)
]

-- On an `unfolding` line: all of the above.
unfoldable pub actions : Unit {0}
unfolding pure raise gets lift modify ◌>>=◌ try_except try_finally request query execute
    update_tasks update_tasks_when
actions = tt
