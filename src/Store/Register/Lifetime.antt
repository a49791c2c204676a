-- ===== src/Store/Register/Lifetime.antt =====
-- The lifetime of a registration: exact up to the range of time.Duration, and past that in the past.
use pinakes.Base.{
  ℕ, zero, suc, ◌+◌, ◌-◌, ◌*◌, ◌%◌, ◌^◌, ◌<◌, ◌≤◌, ◌≡◌, ◌⊎◌, inl, inr, refl, ap, ◌∙◌, arith, ltb,
  lt→ltb, false, Bool-cases,
}
use pinakes.Base.Int.{pos, negsuc, signed64, pattern64}
use pinakes.Types.{AgentMode, RegisterAgentInput}
use pinakes.Store.{Store, seconds, add_duration}
use pinakes.Store.Register.{new_agent, ttl_or}

product_fits : (n : ℕ) → n ≤ 18446744073 → n % 2 ^ 64 * 1_000_000_000 % 2 ^ 64 ≡ n * 1_000_000_000
product_fits n h = omega arith

seconds_exact : (n : ℕ) → n ≤ 9223372036 → seconds (pos n) ≡ pos (n * 1_000_000_000)
unfolding seconds signed64 pattern64
seconds_exact n h =
    rw (product_fits n (omega arith), lt→ltb (n * 1_000_000_000) (2 ^ 63) (omega arith)) refl

seconds_wraps :
    (n : ℕ)
    → 9223372036 < n
    → n ≤ 18446744073
    → seconds (pos n) ≡ negsuc (2 ^ 64 - 1 - n * 1_000_000_000)
unfolding seconds signed64 pattern64
seconds_wraps n h k =
    let large : ltb (n * 1_000_000_000) (2 ^ 63) ≡ false = ground arith in
    rw (product_fits n k, large) refl

new_agent_expiry :
    (now : ℕ) (input : RegisterAgentInput) (mode : AgentMode) (s : Store) (n : ℕ)
    → input.ttl_seconds ≡ pos (suc n)
    → (new_agent now input mode s).expires_at ≡ add_duration now (seconds (pos (suc n)))
unfolding new_agent ttl_or
new_agent_expiry now input mode s n given = rw given refl

-- A registration with a positive TTL of n seconds, of at most 18446744073, made after the zero
-- time, expires n seconds later if n is at most 9223372036, and expires before it was made if n
-- is larger, since the product of the TTL and a second wraps.
pub new_agent_lifetime :
    (now : ℕ) (input : RegisterAgentInput) (mode : AgentMode) (s : Store) (n : ℕ)
    → input.ttl_seconds ≡ pos n
    → 0 < n
    → n ≤ 18446744073
    → 0 < now
    → ((n ≤ 9223372036) × ((new_agent now input mode s).expires_at ≡ now + n * 1_000_000_000))
      ⊎ ((9223372036 < n) × ((new_agent now input mode s).expires_at < now))
unfolding add_duration
new_agent_lifetime now input mode s zero given some high later = absurd (omega arith)
new_agent_lifetime now input mode s (suc n) given some high later =
    let expiry = new_agent_expiry now input mode s n given in
    elim (Bool-cases (ltb 9223372036 (suc n))) [
      | inr short ↦
          let fits : suc n ≤ 9223372036 = ground arith in
          inl (fits, expiry ∙ ap (add_duration now) (seconds_exact (suc n) fits))
      | inl long ↦
          let over : 9223372036 < suc n = ground arith in
          let past = expiry ∙ ap (add_duration now) (seconds_wraps (suc n) over high) in
          inr (over, omega (arith, past))
    ]
