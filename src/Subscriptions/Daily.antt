-- ===== src/Subscriptions/Daily.antt =====
-- app/tasks/update_user_status.py: a second run on the same day changes no user that has an account.
use vodum.Common.{
  ℕ, suc, ◌+◌, ◌≤◌, ◌≡◌, ◌⊎◌, refl, true, false, Option, none, some, leb, arith, Bool-cases, inl,
  inr, ◌∙◌, ap,
}
use vodum.Subscriptions.Status.{
  User, UserStatus, Delays, same_status, is_manual, is_orphan, expire_orphan,
  user_has_pending_plex_invite, compute_pending_invite_expiration, compute_status, update_invited,
  update_override, update_loaded, update_user, roll, renew, store_status, set_status,
}
use vodum.Subscriptions.Renewal.{roll_bounds}
use vodum.Subscriptions.Settled.{
  override_of, is_due, update_override-idle, invited_settles, renewal_settles, restated_again,
  settle, compute_status-free,
}

module _ (delays : Delays) (today now later : ℕ) (u : User) (no_orphan : is_orphan u ≡ false) where
  settled_manual :
      is_manual u.status ≡ true
      → update_user delays today later (update_user delays today now u)
        ≡ update_user delays today now u
  unfolding update_user update_loaded expire_orphan
  settled_manual manual = rw (no_orphan, manual, no_orphan, manual) refl

  invited_first :
      is_manual u.status ≡ false
      → user_has_pending_plex_invite u.media_users ≡ true
      → update_user delays today now u
        ≡ update_invited now u.status
            (compute_pending_invite_expiration u.expiration_date today
              delays.default_subscription_days)
            u
  unfolding update_user update_loaded expire_orphan
  invited_first free open_one = rw (no_orphan, free, open_one) refl

  settled_invited :
      is_manual u.status ≡ false
      → user_has_pending_plex_invite u.media_users ≡ true
      → update_user delays today later (update_user delays today now u)
        ≡ update_user delays today now u
  settled_invited free open_one = rw (invited_first free open_one) (
      invited_settles delays today now later
        (compute_pending_invite_expiration u.expiration_date today delays.default_subscription_days)
        u refl open_one)

  override_first :
      is_manual u.status ≡ false
      → user_has_pending_plex_invite u.media_users ≡ false
      → update_user delays today now u
        ≡ update_override delays today now u.status u.expiration_date (override_of u today) u
  unfolding update_user update_loaded expire_orphan
  override_first free closed = rw (no_orphan, free, closed) refl

  settled_due :
      (d : ℕ)
      → is_manual u.status ≡ false
      → user_has_pending_plex_invite u.media_users ≡ false
      → override_of u today ≡ some d
      → d ≤ today + delays.preavis_days
      → delays.reminder_days ≤ delays.preavis_days
      → update_user delays today later (update_user delays today now u)
        ≡ update_user delays today now u
  unfolding update_override
  settled_due d free closed e due ordered =
      let limit = today + delays.preavis_days in
      let first : update_user delays today now u ≡ renew now (roll (suc limit) limit d) u =
        override_first free closed ∙ ground (arith, e) in
      let above = (roll_bounds (suc limit) limit d (omega arith) due).0 in
      rw first
        (renewal_settles delays today now later u closed (roll (suc limit) limit d) above ordered)

  idle_first :
      (t : ℕ) (s : Option UserStatus)
      → is_manual u.status ≡ false
      → user_has_pending_plex_invite u.media_users ≡ false
      → is_due (override_of u today) (today + delays.preavis_days) ≡ false
      → compute_status u.expiration_date today delays ≡ s
      → update_user delays today t u ≡ store_status t u.status s u
  unfolding update_user update_loaded expire_orphan
  idle_first t s free closed idle e =
      rw (no_orphan, free, closed)
        (update_override-idle delays today t u.status u.expiration_date (override_of u today) u idle
          ∙ ap (λ n. store_status t u.status n u) e)

  settled_idle :
      (s : Option UserStatus)
      → is_manual u.status ≡ false
      → user_has_pending_plex_invite u.media_users ≡ false
      → is_due (override_of u today) (today + delays.preavis_days) ≡ false
      → compute_status u.expiration_date today delays ≡ s
      → update_user delays today later (update_user delays today now u)
        ≡ update_user delays today now u
  unfolding store_status is_orphan
  settled_idle none free closed idle e =
      rw (idle_first now none free closed idle e) (idle_first later none free closed idle e)
  settled_idle (some s) free closed idle e = elim (Bool-cases (same_status s u.status)) [
    | inl y ↦
        let kept : (t : ℕ) → update_user delays today t u ≡ u =
          λ t. idle_first t (some s) free closed idle e ∙ rw y refl in
        rw (kept now) (kept later)
    | inr n ↦
        let first : update_user delays today now u ≡ set_status now s u.status u =
          idle_first now (some s) free closed idle e ∙ rw n refl in
        rw first (
          settle delays today later (set_status now s u.status u) no_orphan (
            restated_again delays today now later u closed s
              (compute_status-free u.expiration_date today delays s e) idle e))
  ]

due-cases :
    (o : Option ℕ) (limit : ℕ) → (is_due o limit ≡ false) ⊎ ((d : ℕ) × (o ≡ some d) × (d ≤ limit))
due-cases none limit = inl refl
due-cases (some d) limit = elim (Bool-cases (leb d limit)) [
  | inl y ↦ inr (d, refl, ground arith)
  | inr n ↦ inl n
]

-- A second run of the task on the same day leaves the row of a user who is no orphan as the first one
-- left it, when the last reminder is not due before the first notice.
pub update_user_idem :
    (delays : Delays) (today now later : ℕ) (u : User)
    → is_orphan u ≡ false
    → delays.reminder_days ≤ delays.preavis_days
    → update_user delays today later (update_user delays today now u)
      ≡ update_user delays today now u
update_user_idem delays today now later u no_orphan ordered =
    elim (Bool-cases (is_manual u.status)) [
      | inl manual ↦ settled_manual delays today now later u no_orphan manual
      | inr free ↦ elim (Bool-cases (user_has_pending_plex_invite u.media_users)) [
        | inl open_one ↦ settled_invited delays today now later u no_orphan free open_one
        | inr closed ↦ elim (due-cases (override_of u today) (today + delays.preavis_days)) [
          | inl idle ↦
              settled_idle delays today now later u no_orphan
                (compute_status u.expiration_date today delays) free closed idle refl
          | inr (d, e, due) ↦
              settled_due delays today now later u no_orphan d free closed e due ordered
        ]
      ]
    ]
