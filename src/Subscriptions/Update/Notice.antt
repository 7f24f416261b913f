-- ===== src/Subscriptions/Update/Notice.antt =====
-- app/api/subscriptions.py, `update_user_expiration`: the notification of a user who is given a new date.
use vodum.Common.{
  ℕ, ◌==◌, Bool, true, false, ◌&&◌, ◌||◌, Option, none, some, List, [], ◌∷◌, ltb, leb, any,
  where_rows, sort_by, if◌then◌else◌,
}
use Prim.Native.String.{◌++◌ as str_append}
use vodum.State.{Provider, ok, raised}
use vodum.Communications.{
  TriggerEvent, Direction, Template, Notification, select_comm_template_for_user,
  schedule_template_notification,
}
use vodum.Subscriptions.Tables.{Contact, Office, Formats}

abbrev pub provider_order : Provider → ℕ
provider_order Provider.plex = 0
provider_order Provider.jellyfin = 1
provider_order Provider.other = 2

-- `ORDER BY CASE … END, mu.id`
abbrev pub is_contacted_before : Contact → Contact → Bool
is_contacted_before a b =
    if provider_order a.server_type == provider_order b.server_type
    then leb a.id b.id
    else ltb (provider_order a.server_type) (provider_order b.server_type)

unfoldable pub comm_contexts : ℕ → List Contact → List Contact
comm_contexts user contacts =
    sort_by is_contacted_before (where_rows (λ (c : Contact). c.vodum_user_id == user) contacts)

pub record Context : Type 0 where
  pub provider : Provider
  pub server_id : Option ℕ

abbrev pub same_context : Context → Context → Bool
same_context c d =
    provider_order c.provider == provider_order d.provider && same_server c.server_id d.server_id
  where
    same_server : Option ℕ → Option ℕ → Bool
    same_server none none = true
    same_server (some m) (some n) = m == n
    same_server _ _ = false

unfoldable pub normalized_contexts : List Context → List Contact → List Context
normalized_contexts seen [] = []
normalized_contexts seen (c ∷ cs) =
    let context : Context = record { provider = c.server_type; server_id = some c.server_id } in
    let skipped = normalized_contexts seen cs in
    let taken = context ∷ normalized_contexts (context ∷ seen) cs in
    if provider_order c.server_type == 2 || any (same_context context) seen then skipped else taken

abbrev pub or_fallback : List Context → List Context
or_fallback [] =
    record { provider = Provider.plex; server_id = none }
    ∷ record { provider = Provider.jellyfin; server_id = none }
    ∷ []
or_fallback (c ∷ cs) = c ∷ cs

-- The first context for which there is a template.
unfoldable pub first_choice :
    Option ℕ → Direction → List Template → List Context → Option (Context × Template)
first_choice subscription direction templates [] = none
first_choice subscription direction templates (c ∷ cs) =
    let rest = first_choice subscription direction templates cs in
    elim (select_comm_template_for_user
      (record {
        event = TriggerEvent.expiration_change;
        provider = c.provider;
        subscription = subscription;
        direction = some direction;
      })
      templates) [ none ↦ rest | some t ↦ some (c, t) ]

abbrev pub change_of : Formats → ℕ → ℕ → ℕ → Context × Template → Notification
change_of f user old new (c, t) =
    let dates = str_append (str_append ":old:" (f.iso old)) (str_append ":new:" (f.iso new)) in
    let whose = str_append (str_append (f.digits t.id) ":user:") (f.digits user) in
    record {
      template_id = t.id;
      user_id = user;
      provider = c.provider;
      server_id = c.server_id;
      delay = none;
      payload = f.json (old ∷ new ∷ []);
      dedupe_key = some (str_append (str_append "expiration_change:template:" whose) dates);
      max_attempts = 10;
    }

-- What this part raises is caught.
unfoldable pub notify_change : Formats → ℕ → Option ℕ → ℕ → ℕ → Office → Office
notify_change f user subscription old new o =
    if old == new
    then o
    else elim (first_choice subscription
        (if ltb old new then Direction.increase else Direction.decrease) o.templates
        (or_fallback (normalized_contexts [] (comm_contexts user o.contacts)))) [
          | none ↦ o
          | some choice ↦
              let queued =
                schedule_template_notification (change_of f user old new choice) o.outbox in
              elim queued.0 [
                | raised e ↦ record o { outbox = queued.1 }
                | ok added ↦ record o {
                  outbox = queued.1;
                  woken = "send_expiration_emails" ∷ o.woken;
                }
              ]
        ]
