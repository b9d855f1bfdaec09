-- ===== src/Service/Processor/Backoff.antt =====
-- The pauses between attempts.
use native.Mathlib.Nat.{pow-suc}
use easyhooks.Prelude.{ℕ, suc, ◌-◌, ◌*◌, ◌^◌, ◌<◌, ℤ, pos, ◌*ℤ◌, wrap64_id, IsInt64, ◌≡◌, arith}
use easyhooks.Config.{Config}
use easyhooks.Service.Processor.{backoff_duration}

-- A conversion to int64 that keeps the integers in range.
abbrev pub Converts : (ℤ → ℤ) → Type 0
Converts convert = (a : ℤ) → IsInt64 a → convert a ≡ a

times_pos : (a b : ℕ) → pos a *ℤ pos b ≡ pos (a * b)
unfolding ◌*ℤ◌
times_pos a b = ground arith

factor-le : (a : ℕ) → a * 1_000_000 < 2 ^ 63 → a < 2 ^ 63
factor-le a h = omega arith

module _ (convert : ℤ → ℤ) (cfg : Config) (base k : ℕ) (converts : Converts convert)
    (known : cfg.worker_backoff_base_ms ≡ pos base) where
  -- For a base that is not negative, while the nanoseconds fit 63 bits and the conversion of
  -- floats keeps the integers in its range, the pause after attempt k + 1 is the base in
  -- milliseconds, doubled k times.
  pub backoff_duration-eq :
      base * 2 ^ k * 1_000_000 < 2 ^ 63
      → backoff_duration convert cfg (suc k) ≡ pos (base * 2 ^ k * 1_000_000)
  unfolding backoff_duration
  backoff_duration-eq fits =
      let e : suc k - 1 ≡ k = omega arith in
      rw
        (
          e,
          known,
          times_pos base (2 ^ k),
          converts (pos (base * 2 ^ k)) (factor-le (base * 2 ^ k) fits, omega arith),
          times_pos (base * 2 ^ k) 1_000_000,
        )
        (wrap64_id (pos (base * 2 ^ k * 1_000_000)) (fits, omega arith))

double : (base p : ℕ) → base * (p * 2) * 1_000_000 ≡ 2 * (base * p * 1_000_000)
double base p = omega arith

-- For a base that is not negative, and while the nanoseconds fit 63 bits, each pause is twice the
-- one before.
pub backoff_duration-doubles :
    (convert : ℤ → ℤ) (cfg : Config) (base k : ℕ)
    → Converts convert
    → cfg.worker_backoff_base_ms ≡ pos base
    → base * 2 ^ suc k * 1_000_000 < 2 ^ 63
    → backoff_duration convert cfg (suc (suc k)) ≡ pos 2 *ℤ backoff_duration convert cfg (suc k)
backoff_duration-doubles convert cfg base k converts known fits =
    let e : base * 2 ^ suc k * 1_000_000 ≡ 2 * (base * 2 ^ k * 1_000_000) =
      rw (pow-suc 2 k) (double base (2 ^ k)) in
    let small : base * 2 ^ k * 1_000_000 < 2 ^ 63 = omega arith in
    rw (
      backoff_duration-eq convert cfg base (suc k) converts known fits,
      backoff_duration-eq convert cfg base k converts known small,
      times_pos 2 (base * 2 ^ k * 1_000_000),
      e,
    )
