-- ===== src/Subscriptions/Manager.antt =====
-- app/tasks/expired_subscription_manager.py: the policies that stop the streams of users whose
-- subscription has ended. A day is a number; SQLite does not fail here, and the report is left out.
use vodum.Common.{
  ℕ, ◌+◌, ◌-◌, ◌==◌, Bool, true, false, not, ◌&&◌, ◌||◌, Option, none, some, List, [], ◌∷◌, ◌++◌,
  String, ltb, leb, any, where_rows, find_row, update_rows, delete_rows, sort_by, if◌then◌else◌,
}
use vodum.Tasks.{Task, Status, has_name, runtime_error}
use vodum.State.{Result, ok, raised}
use vodum.Media.{equals}
use vodum.Subscriptions.Expiry.{
  SystemRule, Account, Subscribers, Texts, is_type, is_shared, disable_accounts,
}
pub mod Finding
pub mod Effects
pub mod Orphans
pub mod Warned

-- A row of stream_policies; `is_of_user` is the scope.
pub record ScopedPolicy : Type 0 where
  pub id : ℕ
  pub is_of_user : Bool
  pub scope_id : Option ℕ
  pub rule : SystemRule

-- `expires` is none for NULL, and none within where `_parse_date` reads no day.
pub record Dated : Type 0 where
  pub id : ℕ
  pub expires : Option (Option ℕ)

pub data ManagerMode : Type 0 where
  warn_only warn_then_disable other_mode : ManagerMode

-- `access` holds the accounts, libraries, links and jobs.
pub record Managed : Type 0 where
  pub policies : List ScopedPolicy
  pub next_id : ℕ
  pub users : List Dated
  pub tasks : List Task
  pub access : Subscribers

abbrev pub is_tagged : SystemRule → Bool
is_tagged SystemRule.tagged = true
is_tagged _ = false

abbrev pub is_object : SystemRule → Bool
is_object SystemRule.not_object = false
is_object _ = true

abbrev pub is_of : ℕ → ScopedPolicy → Bool
is_of user p = p.is_of_user && equals p.scope_id user

-- `ORDER BY id DESC`
abbrev pub is_newer : ScopedPolicy → ScopedPolicy → Bool
is_newer p q = leb q.id p.id

-- The loop: the first one with the tag. A rule that is no object raises.
unfoldable pub first_tagged : List ScopedPolicy → Result (Option ℕ)
first_tagged [] = ok none
first_tagged (p ∷ ps) =
    let rest = first_tagged ps in
    elim p.rule [
      | SystemRule.tagged ↦ ok (some p.id)
      | SystemRule.untagged ↦ rest
      | SystemRule.not_object ↦ raised (runtime_error "rule")
    ]

unfoldable pub find_system_policy_id : ℕ → List ScopedPolicy → Result (Option ℕ)
find_system_policy_id user ps = first_tagged (sort_by is_newer (where_rows (is_of user) ps))

abbrev pub system_policy : ℕ → ℕ → ScopedPolicy
system_policy i user = record {
  id = i;
  is_of_user = true;
  scope_id = some user;
  rule = SystemRule.tagged;
}

abbrev pub enabled_status : Status → Status
enabled_status Status.disabled = Status.idle
enabled_status s = s

abbrev pub enforcer_row : ℕ → Task → Task
enforcer_row now t = record t { enabled = true; status = enabled_status t.status; updated_at = now }

unfoldable pub create_system_policy : ℕ → ℕ → Managed → Managed
create_system_policy now user s = record s {
  policies = s.policies ++ system_policy s.next_id user ∷ [];
  next_id = s.next_id + 1;
  tasks = update_rows (has_name "stream_enforcer") (enforcer_row now) s.tasks;
}

abbrev pub is_policy : ℕ → ScopedPolicy → Bool
is_policy i p = p.id == i

unfoldable pub delete_policy : ℕ → Managed → Managed
delete_policy i s = record s { policies = delete_rows (is_policy i) s.policies }

abbrev pub delete_found : Option ℕ → Managed → Managed
delete_found none s = s
delete_found (some i) s = delete_policy i s

-- The query: one row for each account.
abbrev pub is_held : ℕ → Subscribers → Account → Bool
is_held user s a = elim a.provider [
  | none ↦ false
  | some p ↦ a.vodum_user_id == user && is_type a.server_provider p && any (is_shared s a p) s.links
]

unfoldable pub disable_access_for_user : Texts → ℕ → Subscribers → Result ℕ × Subscribers
disable_access_for_user t user s = disable_accounts t (where_rows (is_held user s) s.accounts) s

abbrev pub is_orphan : List Dated → ScopedPolicy → Bool
is_orphan users p = elim p.scope_id [
  | none ↦ true
  | some i ↦ not (any (λ (u : Dated). u.id == i) users)
]

-- Each row of a user's policies is looked at in turn and deleted by its id.
unfoldable pub cleanup_orphan_system_policies :
    List Dated → List ScopedPolicy → Result (Unit {0}) × List ScopedPolicy
cleanup_orphan_system_policies users [] = (ok tt, [])
cleanup_orphan_system_policies users (p ∷ ps) =
    let rest = cleanup_orphan_system_policies users ps in
    if not p.is_of_user then (rest.0, p ∷ rest.1) else elim p.rule [
      | SystemRule.tagged ↦ (rest.0, if is_orphan users p then rest.1 else p ∷ rest.1)
      | SystemRule.untagged ↦ (rest.0, p ∷ rest.1)
      | SystemRule.not_object ↦ (raised (runtime_error "rule"), p ∷ ps)
    ]

abbrev pub is_past : Option ℕ → ℕ → Bool
is_past none today = false
is_past (some d) today = ltb d today

abbrev pub is_over : ManagerMode → ℕ → ℕ → Option ℕ → Bool
is_over warn_then_disable days today (some d) = leb days (today - d)
is_over _ days today e = false

-- After the delay: the access goes, and the policy is looked for again.
unfoldable pub disable_user : Texts → ℕ → Managed → Result (Unit {0}) × Managed
disable_user t user s =
    let gone = disable_access_for_user t user s.access in
    let s' = record s { access = gone.1 } in
    elim gone.0 [
      | raised e ↦ (raised e, s')
      | ok n ↦ elim (find_system_policy_id user s'.policies) [
        | raised e ↦ (raised e, s')
        | ok found ↦ (ok tt, delete_found found s')
      ]
    ]

abbrev pub warned : ℕ → ℕ → Option ℕ → Managed → Managed
warned now user none s = create_system_policy now user s
warned now user (some i) s = s

-- The body of the loop, for a user with a date.
unfoldable pub manage_user :
    Texts → ManagerMode → ℕ → ℕ → ℕ → ℕ → Option ℕ → Managed → Result (Unit {0}) × Managed
manage_user t mode days today now user expires s = elim (find_system_policy_id user s.policies) [
  | raised e ↦ (raised e, s)
  | ok found ↦
      if not (is_past expires today)
      then (ok tt, delete_found found s)
      else if is_over mode days today expires
      then disable_user t user (warned now user found s)
      else (ok tt, warned now user found s)
]

unfoldable pub manage_users :
    Texts → ManagerMode → ℕ → ℕ → ℕ → List Dated → Managed → Result (Unit {0}) × Managed
manage_users t mode days today now [] s = (ok tt, s)
manage_users t mode days today now (u ∷ us) s = elim u.expires [
  | none ↦ manage_users t mode days today now us s
  | some e ↦
      let one = manage_user t mode days today now u.id e s in
      let rest = manage_users t mode days today now us one.1 in
      elim one.0 [ raised f ↦ (raised f, one.1) | ok _ ↦ rest ]
]

-- `run` in the two modes that warn; `delay` is what the settings say, 7 for 0 and NULL.
unfoldable pub manage_expired :
    Texts → ManagerMode → ℕ → ℕ → ℕ → Managed → Result (Unit {0}) × Managed
manage_expired t other_mode delay today now s = (ok tt, s)
manage_expired t mode delay today now s =
    let cleaned = cleanup_orphan_system_policies s.users s.policies in
    let s' = record s { policies = cleaned.1 } in
    let run = manage_users t mode (if delay == 0 then 7 else delay) today now s.users s' in
    elim cleaned.0 [ raised e ↦ (raised e, s') | ok _ ↦ run ]
