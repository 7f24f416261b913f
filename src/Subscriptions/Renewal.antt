-- ===== src/Subscriptions/Renewal.antt =====
-- app/tasks/update_user_status.py: the loop that moves an expiry by years.
use vodum.Common.{ℕ, zero, suc, ◌+◌, ◌*◌, ◌≤◌, ◌<◌, ◌≡◌, refl, leb, arith, Bool-cases, inl, inr}
use vodum.Subscriptions.Status.{roll}

roll_stop : (fuel limit d : ℕ) → limit < d → roll fuel limit d ≡ d
unfolding roll
roll_stop zero limit d h = refl
roll_stop (suc fuel) limit d h = ground arith

roll_step : (fuel limit d : ℕ) → d ≤ limit → roll (suc fuel) limit d ≡ roll fuel limit (d + 365)
unfolding roll
roll_step fuel limit d h = ground arith

-- With a round for each day up to the limit the loop ends by its test, on the first day after the
-- limit that lies whole years of 365 days after the start.
pub roll_bounds :
    (fuel limit d : ℕ)
    → limit < fuel + d
    → d ≤ limit
    → (limit < roll fuel limit d)
      × (roll fuel limit d ≤ limit + 365)
      × ((years : ℕ) × (roll fuel limit d ≡ d + years * 365))
roll_bounds zero limit d h k = absurd (omega arith)
roll_bounds (suc fuel) limit d h k = elim (Bool-cases (leb (d + 365) limit)) [
  | inl more ↦
      let (above, near, (years, e)) =
        roll_bounds fuel limit (d + 365) (omega arith) (ground arith) in
      rw (roll_step fuel limit d k) (above, near, (suc years, omega (arith, e)))
  | inr last ↦
      let stop = roll_stop fuel limit (d + 365) (ground arith) in
      rw (roll_step fuel limit d k, stop) (ground arith, omega arith, (1, omega arith))
]
