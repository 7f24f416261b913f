-- ===== src/Subscriptions/Settled.antt =====
-- app/tasks/update_user_status.py: what a second run on the same day finds.
use vodum.Common.{
  ℕ, ◌+◌, ◌≤◌, ◌<◌, ◌≡◌, refl, Bool, true, false, ◌||◌, Option, none, some, List, [], ◌∷◌, leb,
  if◌then◌else◌, arith, Bool-cases, inl, inr, sym,
}
use vodum.Subscriptions.Status.{
  is_other_than_active, User, UserStatus, Expiration, Delays, MediaUser, same_status, is_manual,
  is_orphan, expire_orphan, user_has_pending_plex_invite, compute_pending_invite_expiration,
  compute_status, status_of_day, update_invited, update_override, update_loaded, update_user, renew,
  store_status, parse_iso_date, has_none, set_status, override_day,
}

-- After its last notice period has been moved away, a user has no notice to get.
status_of_day-active :
    (d today : ℕ) (delays : Delays)
    → today + delays.preavis_days < d
    → delays.reminder_days ≤ delays.preavis_days
    → status_of_day d today delays ≡ UserStatus.active
unfolding status_of_day
status_of_day-active d today delays h k = ground arith

abbrev date_after : Option ℕ → Expiration → Expiration
date_after none e = e
date_after (some d) e = Expiration.day d

-- The shifted date of an open invitation is not shifted again on that day.
shifted_once :
    (e : Expiration) (today days : ℕ)
    → compute_pending_invite_expiration
        (date_after (compute_pending_invite_expiration e today days) e)
        today
        days
      ≡ none
unfolding compute_pending_invite_expiration parse_iso_date
shifted_once Expiration.missing today days = ground arith
shifted_once Expiration.invalid today days = ground arith
shifted_once (Expiration.day d) today days = ground arith
shifted_once (Expiration.stamped d) today days = ground arith

-- The statuses that are computed are not those set by hand.
pub compute_status-free :
    (e : Expiration) (today : ℕ) (delays : Delays) (s : UserStatus)
    → compute_status e today delays ≡ some s
    → is_manual s ≡ false
unfolding compute_status status_of_day
compute_status-free Expiration.missing today delays s h = absurd (cc)
compute_status-free Expiration.invalid today delays s h = ground arith
compute_status-free (Expiration.stamped d) today delays s h = ground arith
compute_status-free (Expiration.day d) today delays s h = ground arith

pub same_status-eq : (s t : UserStatus) → same_status s t ≡ true → s ≡ t
same_status-eq UserStatus.active t h = ground arith
same_status-eq UserStatus.pre_expired t h = ground arith
same_status-eq UserStatus.reminder t h = ground arith
same_status-eq UserStatus.expired t h = ground arith
same_status-eq UserStatus.invited t h = ground arith
same_status-eq UserStatus.unfriended t h = ground arith
same_status-eq UserStatus.suspended t h = ground arith
same_status-eq UserStatus.unknown t h = ground arith
same_status-eq UserStatus.unset t h = ground arith

same_status_refl : (s : UserStatus) → same_status s s ≡ true
same_status_refl UserStatus.active = refl
same_status_refl UserStatus.pre_expired = refl
same_status_refl UserStatus.reminder = refl
same_status_refl UserStatus.expired = refl
same_status_refl UserStatus.invited = refl
same_status_refl UserStatus.unfriended = refl
same_status_refl UserStatus.suspended = refl
same_status_refl UserStatus.unknown = refl
same_status_refl UserStatus.unset = refl

module _ (delays : Delays) (today later : ℕ) where
  -- A row that is no orphan and that the main loop leaves alone is left alone.
  pub settle :
      (r : User)
      → is_orphan r ≡ false
      → update_loaded delays today later r r ≡ r
      → update_user delays today later r ≡ r
  unfolding update_user expire_orphan
  settle r no_orphan h = rw no_orphan h

  invited_again :
      (r : User)
      → r.status ≡ UserStatus.invited
      → user_has_pending_plex_invite r.media_users ≡ true
      → compute_pending_invite_expiration r.expiration_date today delays.default_subscription_days
        ≡ none
      → update_loaded delays today later r r ≡ r
  unfolding update_loaded update_invited
  invited_again r invited pending unshifted = ground arith

  renewed_again :
      (x : ℕ) (r : User)
      → r.status ≡ UserStatus.active
      → today + delays.preavis_days < x
      → delays.reminder_days ≤ delays.preavis_days
      → r.expiration_date ≡ Expiration.day x
      → user_has_pending_plex_invite r.media_users ≡ false
      → update_loaded delays today later r r ≡ r
  unfolding update_loaded update_override store_status compute_status
  renewed_again x r active above ordered date free =
      ground (arith, status_of_day-active x today delays)

pending-full : (ms : List MediaUser) → user_has_pending_plex_invite ms ≡ true → has_none ms ≡ false
unfolding user_has_pending_plex_invite
pending-full [] h = absurd (cc)
pending-full (m ∷ ms) h = refl

-- What the branch of an open invitation leaves.
update_invited_lem :
    (now : ℕ) (shift : Option ℕ) (u : User)
    → let r = update_invited now u.status shift u in
      (r.status ≡ UserStatus.invited)
      × (r.media_users ≡ u.media_users)
      × (r.expiration_date ≡ date_after shift u.expiration_date)
unfolding update_invited
update_invited_lem now none u = elim (Bool-cases (same_status u.status UserStatus.invited)) [
  | inl y ↦ rw y (same_status-eq u.status UserStatus.invited y, refl, refl)
  | inr n ↦ rw n (refl, refl, refl)
]
update_invited_lem now (some d) u = elim (Bool-cases (same_status u.status UserStatus.invited)) [
  | inl y ↦ rw y (same_status-eq u.status UserStatus.invited y, refl, refl)
  | inr n ↦ rw n (refl, refl, refl)
]

abbrev pub override_of : User → ℕ → Option ℕ
override_of u today =
    if u.expiration_date_override || u.is_lifetime
    then override_day u.expiration_date today
    else none

abbrev pub is_due : Option ℕ → ℕ → Bool
is_due none limit = false
is_due (some d) limit = leb d limit

pub update_override-idle :
    (delays : Delays) (today now : ℕ) (old : UserStatus) (e : Expiration) (o : Option ℕ) (u : User)
    → is_due o (today + delays.preavis_days) ≡ false
    → update_override delays today now old e o u
      ≡ store_status now old (compute_status e today delays) u
unfolding update_override
update_override-idle delays today now old e none u h = refl
update_override-idle delays today now old e (some d) u h = rw h refl

full-IsKept : (r : User) → has_none r.media_users ≡ false → is_orphan r ≡ false
unfolding is_orphan
full-IsKept r h = ground arith

pub invited_settles :
    (delays : Delays) (today now later : ℕ) (shift : Option ℕ) (u : User)
    → compute_pending_invite_expiration u.expiration_date today delays.default_subscription_days
      ≡ shift
    → user_has_pending_plex_invite u.media_users ≡ true
    → let r = update_invited now u.status shift u in update_user delays today later r ≡ r
invited_settles delays today now later shift u e open_one =
    let (invited, same_users, date) = update_invited_lem now shift u in
    let r = update_invited now u.status shift u in
    let full : has_none r.media_users ≡ false =
      rw same_users (pending-full u.media_users open_one) in
    settle delays today later r (full-IsKept r full) (
      invited_again delays today later r invited (rw same_users open_one)
        (rw (date, sym e) (shifted_once u.expiration_date today delays.default_subscription_days)))

-- What a renewed or restated user keeps.
renew_lem :
    (now x : ℕ) (u : User)
    → let r = renew now x u in
      (r.status ≡ UserStatus.active)
      × (r.media_users ≡ u.media_users)
      × (r.expiration_date ≡ Expiration.day x)
unfolding renew
renew_lem now x u = elim (Bool-cases (is_other_than_active u.status)) [
  | inl y ↦ rw y (refl, refl, refl)
  | inr n ↦ rw n (refl, refl, refl)
]

day-IsKept : (r : User) (x : ℕ) → r.expiration_date ≡ Expiration.day x → is_orphan r ≡ false
unfolding is_orphan
day-IsKept r x h = rw h refl

module _ (delays : Delays) (today now later : ℕ) (u : User)
    (closed : user_has_pending_plex_invite u.media_users ≡ false) where
  pub renewal_settles :
      (x : ℕ)
      → today + delays.preavis_days < x
      → delays.reminder_days ≤ delays.preavis_days
      → update_user delays today later (renew now x u) ≡ renew now x u
  renewal_settles x above ordered =
      let (active, same_users, date) = renew_lem now x u in
      let r = renew now x u in
      settle delays today later r (day-IsKept r x date)
        (renewed_again delays today later x r active above ordered date (rw same_users closed))

  pub restated_again :
      (s : UserStatus)
      → is_manual s ≡ false
      → is_due (override_of u today) (today + delays.preavis_days) ≡ false
      → compute_status u.expiration_date today delays ≡ some s
      → let r = set_status now s u.status u in update_loaded delays today later r r ≡ r
  unfolding update_loaded store_status
  restated_again s free idle e =
      let r = set_status now s u.status u in
      rw
        (
          free,
          closed,
          update_override-idle delays today later s u.expiration_date (override_of u today) r idle,
          e,
          same_status_refl s,
        )
        refl
