-- ===== src/Subscriptions/Suspension.antt =====
-- app/tasks/update_user_status.py: the orphans are expired before the statuses set by hand are spared.
use vodum.Common.{ℕ, ◌≡◌, true, false, [], arith}
use vodum.Subscriptions.Status.{
  User, UserStatus, Expiration, Delays, is_orphan, expire_orphan, user_has_pending_plex_invite,
  update_override, update_loaded, update_user, renew,
}

-- A suspended user without a date of expiry, a lifetime template or an account on a server, whose
-- expiry is overridden: a run takes the user for expired, and the next one makes the user active.
pub suspension_is_lost :
    (delays : Delays) (today now later : ℕ) (u : User)
    → u.status ≡ UserStatus.suspended
    → u.expiration_date ≡ Expiration.missing
    → u.media_users ≡ []
    → u.is_lifetime ≡ false
    → u.expiration_date_override ≡ true
    → let first = update_user delays today now u in
      (first.status ≡ UserStatus.expired)
      × ((update_user delays today later first).status ≡ UserStatus.active)
unfolding update_user update_loaded expire_orphan is_orphan user_has_pending_plex_invite
    update_override renew
suspension_is_lost delays today now later u suspended missing alone limited overridden =
    (ground arith, ground arith)
