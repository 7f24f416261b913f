-- ===== src/Subscriptions/Expiry.antt =====
-- app/tasks/disable_expired_users.py: accounts whose subscription has ended lose their libraries, and
-- a job takes them away on the server. SQLite does not fail here.
use vodum.Common.{
  ℕ, ◌+◌, ◌==◌, Bool, false, not, ◌&&◌, Option, none, some, List, [], ◌∷◌, String, ltb, any, map,
  where_rows, delete_rows, if◌then◌else◌,
}
use Prim.Native.String.{◌++◌ as str_append}
use vodum.State.{Result, ok, raised}
use vodum.Media.{
  JobProvider, plex, jellyfin, JobAction, same_provider, Jobs, AccessRequest, insert_plex_media_job,
  insert_jellyfin_media_job,
}
use vodum.Subscriptions.Status.{MediaUser, user_has_pending_plex_invite}

-- `settings.expiry_mode`: the text `disable`, that text with blanks around it, or any other and NULL.
pub data ExpiryMode : Type 0 where
  disable padded_disable other_mode : ExpiryMode

-- The JSON of a policy's rule: an object with or without the tag of the system (a text that is no
-- JSON is read as one without), or no object.
pub data SystemRule : Type 0 where
  tagged untagged not_object : SystemRule

pub record SystemPolicy : Type 0 where
  pub is_of_user : Bool
  pub rule : SystemRule

-- `expires` is the day that SQLite's date() reads in the expiration date.
pub record Subscriber : Type 0 where
  pub id : ℕ
  pub expires : Option ℕ

-- A row of media_users with the type of its server; another type is `none`.
pub record Account : Type 0 where
  pub media_user_id : ℕ
  pub vodum_user_id : ℕ
  pub server_id : ℕ
  pub provider : Option JobProvider
  pub server_provider : Option JobProvider
  pub invite : MediaUser

-- A row of libraries with the type of its server.
pub record Library : Type 0 where
  pub id : ℕ
  pub server_id : ℕ
  pub provider : Option JobProvider

-- A row of media_user_libraries.
pub record Link : Type 0 where
  pub media_user_id : ℕ
  pub library_id : ℕ

pub record Subscribers : Type 0 where
  pub policies : List SystemPolicy
  pub users : List Subscriber
  pub accounts : List Account
  pub libraries : List Library
  pub links : List Link
  pub jobs : Jobs

-- Python's text of a number, and the JSON of a payload by its two numbers.
pub record Texts : Type 0 where
  pub digits : ℕ → String
  pub payload : ℕ → ℕ → String

-- What is deleted before a rule that is no object raises, stays deleted; the caller goes on.
unfoldable pub purge_expired_subscription_policies : List SystemPolicy → List SystemPolicy
purge_expired_subscription_policies [] = []
purge_expired_subscription_policies (p ∷ ps) =
    let rest = purge_expired_subscription_policies ps in
    if not p.is_of_user
    then p ∷ rest
    else elim p.rule [ tagged ↦ rest | untagged ↦ p ∷ rest | not_object ↦ p ∷ ps ]

abbrev pub is_type : Option JobProvider → JobProvider → Bool
is_type none p = false
is_type (some q) p = same_provider q p

abbrev pub is_ended : ℕ → ℕ → Subscriber → Bool
is_ended today user u = u.id == user && elim u.expires [ none ↦ false | some d ↦ ltb d today ]

abbrev pub is_shared : Subscribers → Account → JobProvider → Link → Bool
is_shared s a p k =
    k.media_user_id == a.media_user_id
    && any (λ (l : Library). l.id == k.library_id && is_type l.provider p) s.libraries

-- The query: one row for each account.
unfoldable pub is_selected : ℕ → Subscribers → Account → Bool
is_selected today s a = elim a.provider [
  | none ↦ false
  | some p ↦
      any (is_ended today a.vodum_user_id) s.users
      && is_type a.server_provider p
      && any (is_shared s a p) s.links
]

unfoldable pub is_invited_only : Subscribers → Account → Bool
is_invited_only s a = user_has_pending_plex_invite (
    map (λ (b : Account). b.invite)
      (where_rows (λ b. b.vodum_user_id == a.vodum_user_id) s.accounts))

-- `library_id IN (SELECT id FROM libraries WHERE server_id = ?)`
abbrev pub is_own_link : List Library → Account → Link → Bool
is_own_link libraries a k =
    k.media_user_id == a.media_user_id
    && any (λ (l : Library). l.server_id == a.server_id && l.id == k.library_id) libraries

unfoldable pub request_of : Texts → Account → AccessRequest
request_of t a =
    let target =
      str_append (str_append "server=" (t.digits a.server_id))
        (str_append ":vodum_user=" (t.digits a.vodum_user_id)) in
    let on_plex = is_type a.provider plex in
    record {
      provider = if on_plex then plex else jellyfin;
      action = if on_plex then JobAction.revoke else JobAction.sync;
      vodum_user_id = a.vodum_user_id;
      server_id = a.server_id;
      library_id = none;
      dedupe_key = str_append (if on_plex then "plex:revoke:" else "jellyfin:sync:") target;
      payload = t.payload a.vodum_user_id a.media_user_id;
    }

-- One round of the loop.
unfoldable pub disable_account : Texts → Account → Subscribers → Result Bool × Subscribers
disable_account t a s =
    let r = request_of t a in
    let queued =
      if is_type a.provider plex
      then insert_plex_media_job r s.jobs
      else insert_jellyfin_media_job r s.jobs in
    (
      queued.0,
      record s { links = delete_rows (is_own_link s.libraries a) s.links; jobs = queued.1 },
    )

-- The loop, which counts the jobs that it adds.
unfoldable pub disable_accounts : Texts → List Account → Subscribers → Result ℕ × Subscribers
disable_accounts t [] s = (ok 0, s)
disable_accounts t (a ∷ rest) s =
    let one = disable_account t a s in
    let others = disable_accounts t rest one.1 in
    elim one.0 [
      | raised e ↦ (raised e, one.1)
      | ok added ↦ elim others.0 [
        | raised e ↦ (raised e, others.1)
        | ok n ↦ (ok (if added then n + 1 else n), others.1)
      ]
    ]

unfoldable pub disabled_accounts : ℕ → Subscribers → List Account
disabled_accounts today s =
    where_rows (λ a. not (is_invited_only s a)) (where_rows (is_selected today s) s.accounts)

-- `run`. A mode with blanks passes the first test and not the second one.
unfoldable pub disable_expired_users : Texts → ExpiryMode → ℕ → Subscribers → Result ℕ × Subscribers
disable_expired_users t other_mode today s = (ok 0, s)
disable_expired_users t padded_disable today s =
    (ok 0, record s { policies = purge_expired_subscription_policies s.policies })
disable_expired_users t disable today s =
    disable_accounts t (disabled_accounts today s)
      (record s { policies = purge_expired_subscription_policies s.policies })
