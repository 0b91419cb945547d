-- ===== src/Outbox/Backoff.antt =====
-- The waiting time between two attempts.
use atlas_erpbackend.Prelude.{
  ℕ, zero, suc, ◌+◌, ◌-◌, ◌*◌, ◌^◌, ◌≤◌, ◌<◌, ◌≡◌, min, arith, leb, Bool-cases, inl, inr,
}
use atlas_erpbackend.Outbox.Relay.{compute_backoff_ms}
use native.Mathlib.Nat.{pow-suc}

power_pos : (n : ℕ) → 0 < 2 ^ n
power_pos zero = omega arith
power_pos (suc n) = rw pow-suc (omega (arith, power_pos n))

power_mono : (a k : ℕ) → 2 ^ a ≤ 2 ^ (a + k)
power_mono a zero = ground arith
power_mono a (suc k) =
    let e : a + suc k ≡ suc (a + k) = omega arith in
    rw e (rw pow-suc (omega (arith, power_mono a k)))

power_le : (a b : ℕ) → a ≤ b → 2 ^ a ≤ 2 ^ b
power_le a b h = let e : b ≡ a + (b - a) = omega arith in rw e (power_mono a (b - a))

times_le : (base a b : ℕ) → a ≤ b → base * a ≤ base * b
times_le base a b h = grind arith

-- The wait never passes the cap, and a later attempt never waits less.
pub compute_backoff_ms_bounds :
    (a b base_ms max_ms : ℕ)
    → a ≤ b
    → (compute_backoff_ms b base_ms max_ms ≤ max_ms)
      × (compute_backoff_ms a base_ms max_ms ≤ compute_backoff_ms b base_ms max_ms)
unfolding compute_backoff_ms
compute_backoff_ms_bounds a b base_ms max_ms h =
    let grows =
      times_le base_ms (2 ^ (a - 1)) (2 ^ (b - 1)) (power_le (a - 1) (b - 1) (omega arith)) in
    (ground arith, ground arith)

-- Cutting the exponent at 31 changes nothing while the cap is at most 2 ^ 31 and the base positive.
pub compute_backoff_ms_uncut :
    (attempt base_ms max_ms : ℕ)
    → 0 < base_ms
    → max_ms ≤ 2 ^ 31
    → compute_backoff_ms attempt base_ms max_ms ≡ min max_ms (base_ms * 2 ^ (attempt - 1))
unfolding compute_backoff_ms
compute_backoff_ms_uncut attempt base_ms max_ms positive cap =
    elim (Bool-cases (leb 31 (attempt - 1))) [
      | inl late ↦ rw late (
          omega (
            arith,
            times_le (2 ^ (attempt - 1)) 1 base_ms positive,
            power_le 31 (attempt - 1) (ground arith),
          ))
      | inr early ↦ rw early
    ]
