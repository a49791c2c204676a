-- ===== src/Durable/Push/Backoff.antt =====
-- pkg/bus/sqlite_delivery.go: the wait between two cycles of a push, pushCycleBackoff.
use pinakes.Base.{ℕ, zero, suc, ◌-◌, ◌*◌, ◌^◌, ◌≤◌, ◌≡◌, ◌&&◌, ltb, leb, if◌then◌else◌, arith}
use native.Mathlib.Nat.{pow-suc, mul-le-mul_left}
use pinakes.Store.{is_zero}
use pinakes.Config.{Config}
use pinakes.Durable.Push.{double_backoff, push_cycle_backoff}

pub pow_pos : (n : ℕ) → 1 ≤ 2 ^ n
pow_pos zero = omega arith
pow_pos (suc n) = omega (arith, pow_pos n, pow-suc 2 n)

-- The base of the wait.
abbrev pub backoff_base : Config → ℕ
backoff_base cfg = if is_zero cfg.push_base_backoff then 500_000_000 else cfg.push_base_backoff

double_pow : (n base : ℕ) → base * 2 ^ suc n ≡ base * 2 * 2 ^ n
double_pow n base = grind (arith, pow-suc 2 n)

double_le : (n base : ℕ) → base ≤ base * 2 ^ n
double_le n base = omega (arith, mul-le-mul_left base (pow_pos n))

double_backoff_lem :
    (rounds base : ℕ)
    → double_backoff rounds base ≡ (
        if ltb 0 rounds && leb 30_000_000_000 (base * 2 ^ rounds)
        then 30_000_000_000
        else base * 2 ^ rounds)
unfolding double_backoff
double_backoff_lem zero base = ground arith
double_backoff_lem (suc zero) base = ground arith
double_backoff_lem (suc (suc n)) base = ground (
  arith,
  double_pow (suc n) base,
  double_le (suc n) (base * 2),
  double_backoff_lem (suc n) (base * 2),
)

-- The wait after a cycle of n attempts is the base, 500 ms where none is set, doubled n - 1 times, and
-- 30 seconds where that is more, if n is more than one.
pub push_cycle_backoff_lem :
    (cfg : Config) (attempts : ℕ)
    → push_cycle_backoff cfg attempts ≡ (
        if ltb 0 (attempts - 1) && leb 30_000_000_000 (backoff_base cfg * 2 ^ (attempts - 1))
        then 30_000_000_000
        else backoff_base cfg * 2 ^ (attempts - 1))
unfolding push_cycle_backoff
push_cycle_backoff_lem cfg attempts = double_backoff_lem (attempts - 1) (backoff_base cfg)
