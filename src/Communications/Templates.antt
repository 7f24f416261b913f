-- ===== src/Communications/Templates.antt =====
-- app/core/communication_template_selection.py, and the functions of app/communications_engine.py that
-- read the enabled templates and take the best ones for a user. Days are natural numbers.
use vodum.Common.{
  ℕ, ◌==◌, Bool, true, false, not, ◌&&◌, Option, none, some, List, [], ◌∷◌, ◌++◌, ltb, leb, any,
  where_rows, sort_by, if◌then◌else◌,
}
use vodum.State.{Provider}

pub data TriggerEvent : Type 0 where
  expiration user_creation pending_invite_reminder referral_reward : TriggerEvent
  expiration_change stream_blocked usage_risk_upgrade_suggestion : TriggerEvent

pub data TriggerProvider : Type 0 where
  all_providers on_plex on_jellyfin : TriggerProvider

-- `expiration_change_direction` of a template and of a change.
pub data Direction : Type 0 where
  all_ways increase decrease : Direction

pub data SubscriptionScope : Type 0 where
  no_scope all_subscriptions specific : SubscriptionScope

pub record Template : Type 0 where
  pub id : ℕ
  pub enabled : Bool
  pub trigger_event : TriggerEvent
  pub trigger_provider : TriggerProvider
  pub expiration_change_direction : Direction
  pub subscription_scope : SubscriptionScope
  pub subscription_template_id : Option ℕ
  pub days_before : Option ℕ
  pub days_after : Option ℕ

-- What a selection is for.
pub record Purpose : Type 0 where
  pub event : TriggerEvent
  pub provider : Provider
  pub subscription : Option ℕ
  pub direction : Option Direction

abbrev pub same_days : Option ℕ → Option ℕ → Bool
same_days none none = true
same_days (some m) (some n) = m == n
same_days _ _ = false

-- A rank below zero is `none`.
unfoldable pub subscription_scope_rank : Template → Option ℕ → Option ℕ
subscription_scope_rank t subscription = elim t.subscription_scope [
  | specific ↦ elim subscription [
    | none ↦ none
    | some n ↦ if same_days t.subscription_template_id (some n) then some 3 else none
  ]
  | all_subscriptions ↦ some 2
  | no_scope ↦ some 1
]

unfoldable pub provider_rank : TriggerProvider → Provider → Option ℕ
provider_rank all_providers p = some 1
provider_rank on_plex Provider.plex = some 2
provider_rank on_plex _ = none
provider_rank on_jellyfin Provider.jellyfin = some 2
provider_rank on_jellyfin _ = none

abbrev pub same_direction : Direction → Direction → Bool
same_direction all_ways all_ways = true
same_direction increase increase = true
same_direction decrease decrease = true
same_direction _ _ = false

unfoldable pub expiration_change_direction_rank : Direction → Option Direction → Option ℕ
expiration_change_direction_rank d none = some 1
expiration_change_direction_rank d (some e) =
    if same_direction d e then some 2 else if same_direction d all_ways then some 1 else none

abbrev pub is_change : TriggerEvent → Bool
is_change expiration_change = true
is_change _ = false

abbrev pub direction_rank : Purpose → Template → Option ℕ
direction_rank p t =
    if is_change p.event
    then expiration_change_direction_rank t.expiration_change_direction p.direction
    else some 0

-- `_slot_key`, compared.
unfoldable pub same_slot : TriggerEvent → Template → Template → Bool
same_slot user_creation t u = same_days t.days_after u.days_after
same_slot pending_invite_reminder t u = same_days t.days_after u.days_after
same_slot referral_reward t u = same_days t.days_after u.days_after
same_slot expiration_change t u =
    same_direction t.expiration_change_direction u.expiration_change_direction
same_slot _ t u = same_days t.days_before u.days_before && same_days t.days_after u.days_after

pub record Candidate : Type 0 where
  pub template : Template
  pub sub_rank : ℕ
  pub prov_rank : ℕ
  pub dir_rank : ℕ

abbrev pub candidate_of : Template → Option ℕ → Option ℕ → Option ℕ → List Candidate
candidate_of t (some s) (some p) (some d) =
    record { template = t; sub_rank = s; prov_rank = p; dir_rank = d } ∷ []
candidate_of t _ _ _ = []

unfoldable pub candidates : Purpose → List Template → List Candidate
candidates p [] = []
candidates p (t ∷ ts) =
    candidate_of t (subscription_scope_rank t p.subscription)
      (provider_rank t.trigger_provider p.provider) (direction_rank p t)
    ++ candidates p ts

-- The first sort: whether `x` may stand before `y`.
unfoldable pub ranks_before : Candidate → Candidate → Bool
ranks_before x y =
    if not (x.sub_rank == y.sub_rank)
    then ltb y.sub_rank x.sub_rank
    else if not (x.prov_rank == y.prov_rank)
    then ltb y.prov_rank x.prov_rank
    else if not (x.dir_rank == y.dir_rank)
    then ltb y.dir_rank x.dir_rank
    else leb x.template.id y.template.id

-- The loop over the sorted candidates: the first one of each slot is kept.
unfoldable pub best_by_slot : TriggerEvent → List Candidate → List Candidate → List Candidate
best_by_slot event out [] = out
best_by_slot event out (c ∷ cs) =
    best_by_slot event
      (if any (λ (b : Candidate). same_slot event b.template c.template) out
        then out
        else out ++ c ∷ [])
      cs

abbrev pub days_or_last : Option ℕ → ℕ
days_or_last none = 999999
days_or_last (some n) = n

-- The second sort.
unfoldable pub is_listed_before : Template → Template → Bool
is_listed_before t u =
    if not (days_or_last t.days_before == days_or_last u.days_before)
    then ltb (days_or_last t.days_before) (days_or_last u.days_before)
    else if not (days_or_last t.days_after == days_or_last u.days_after)
    then ltb (days_or_last t.days_after) (days_or_last u.days_after)
    else leb t.id u.id

abbrev pub templates_of : List Candidate → List Template
templates_of [] = []
templates_of (c ∷ cs) = c.template ∷ templates_of cs

unfoldable pub select_best_templates : Purpose → List Template → List Template
select_best_templates p rows =
    sort_by is_listed_before
      (templates_of (best_by_slot p.event [] (sort_by ranks_before (candidates p rows))))

abbrev pub same_event : TriggerEvent → TriggerEvent → Bool
same_event expiration expiration = true
same_event user_creation user_creation = true
same_event pending_invite_reminder pending_invite_reminder = true
same_event referral_reward referral_reward = true
same_event expiration_change expiration_change = true
same_event stream_blocked stream_blocked = true
same_event usage_risk_upgrade_suggestion usage_risk_upgrade_suggestion = true
same_event _ _ = false

-- `trigger_provider IN ('all', ?)`
abbrev pub is_for_provider : Provider → TriggerProvider → Bool
is_for_provider p all_providers = true
is_for_provider Provider.plex on_plex = true
is_for_provider Provider.jellyfin on_jellyfin = true
is_for_provider _ _ = false

-- The rows of `comm_templates`, which stand in the order of their keys.
unfoldable pub select_comm_templates_for_user : Purpose → List Template → List Template
select_comm_templates_for_user p rows = select_best_templates p (
    where_rows
      (λ (t : Template).
        t.enabled
        && same_event t.trigger_event p.event
        && is_for_provider p.provider t.trigger_provider)
      rows)

abbrev pub first_template : List Template → Option Template
first_template [] = none
first_template (t ∷ ts) = some t

unfoldable pub select_comm_template_for_user : Purpose → List Template → Option Template
select_comm_template_for_user p rows = first_template (select_comm_templates_for_user p rows)
