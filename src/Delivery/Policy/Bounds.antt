-- ===== src/Delivery/Policy/Bounds.antt =====
-- What the queue parameters and the retry delay may be.
use velpos.Prelude.{
  ℕ, zero, suc, ◌+◌, ◌/◌, ◌^◌, ◌*◌, ◌||◌, ◌==◌, nat_eq, leb, if◌then◌else◌, Bool-cases, ◌≤◌, ◌<◌,
  ◌≡◌, String, Option, none, some, min, max, arith, ap, Option-cases, ◌⊎◌, inl, inr,
}
use native.Mathlib.Numerals.{towards_suc}
use velpos.Values.{ℤ, pos, negsuc}
use velpos.Delivery.Policy.{
  ImDeliveryPolicy, clamp, read_bounded_int, from_env, backoff, retry_delay,
}

-- The ranges that the reader of each variable states.
pub record InRange (p : ImDeliveryPolicy) : Type 0 where
  pub lease : (10 ≤ p.lease_seconds) × (p.lease_seconds ≤ 3600)
  pub attempts : (1 ≤ p.max_attempts) × (p.max_attempts ≤ 50)
  pub max_backoff : (1 ≤ p.max_backoff_seconds) × (p.max_backoff_seconds ≤ 3600)
  pub busy_retry : (1 ≤ p.busy_retry_seconds) × (p.busy_retry_seconds ≤ 300)
  pub inbox : (1 ≤ p.inbox_workers) × (p.inbox_workers ≤ 16)
  pub outbox : (1 ≤ p.outbox_workers) × (p.outbox_workers ≤ 16)

clamp_bounds : (lo hi : ℕ) (v : ℤ) → lo ≤ hi → (lo ≤ clamp lo hi v) × (clamp lo hi v ≤ hi)
unfolding clamp
clamp_bounds lo hi (pos n) h = omega arith
clamp_bounds lo hi (negsuc n) h = omega arith

read_bounds :
    (parse_int : String → Option ℤ) (raw : Option String) (d lo hi : ℕ)
    → lo ≤ d
    → d ≤ hi
    → (lo ≤ read_bounded_int parse_int raw d lo hi) × (read_bounded_int parse_int raw d lo hi ≤ hi)
unfolding read_bounded_int
read_bounds parse_int none d lo hi p q = (p, q)
read_bounds parse_int (some raw) d lo hi p q = elim (Option-cases (parse_int raw)) [
  | inl e ↦ rw (e, read_bounded_int) (p, q)
  | inr (v, e) ↦ rw (e, read_bounded_int) (clamp_bounds lo hi v (omega arith))
]

-- Whatever the environment holds, well-formed or not, each parameter lies in its stated range.
pub from_env-InRange :
    (parse_int : String → Option ℤ) (getenv : String → Option String)
    → InRange (from_env parse_int getenv)
unfolding from_env
from_env-InRange parse_int getenv =
    let read = λ (name : String) (d lo hi : ℕ) (p : lo ≤ d) (q : d ≤ hi).
      read_bounds parse_int (getenv name) d lo hi p q in
    record {
      lease = read "IM_DELIVERY_LEASE_SECONDS" 120 10 3600 (omega arith) (omega arith);
      attempts = read "IM_DELIVERY_MAX_ATTEMPTS" 8 1 50 (omega arith) (omega arith);
      max_backoff = read "IM_DELIVERY_MAX_BACKOFF_SECONDS" 300 1 3600 (omega arith) (omega arith);
      busy_retry = read "IM_DELIVERY_BUSY_RETRY_SECONDS" 15 1 300 (omega arith) (omega arith);
      inbox = read "IM_INBOX_WORKERS" 4 1 16 (omega arith) (omega arith);
      outbox = read "IM_OUTBOX_WORKERS" 4 1 16 (omega arith) (omega arith);
    }

-- 2 ^ n over the exponents that `backoff` uses
pow_step : (n : ℕ) → n < 8 → 2 ^ n ≤ 2 ^ (n + 1)
pow_step n h = simp towards_suc (omega arith)

pow_pos : (n : ℕ) → 1 ≤ 2 ^ n
pow_pos zero = omega arith
pow_pos (suc n) = omega (arith, pow_pos n)

exponent_step : (a b : ℕ) → (a ≡ b) ⊎ ((b ≡ a + 1) × (a < 8)) → 2 ^ a ≤ 2 ^ b
exponent_step a b (inl e) = rw e (omega arith)
exponent_step a b (inr (e, h)) = rw e (pow_step a h)

pow_double : (n : ℕ) → 2 ^ (n + 1) ≡ 2 * 2 ^ n
pow_double n = simp towards_suc (omega arith)

backoff-suc :
    (p : ImDeliveryPolicy) (n : ℕ)
    → backoff p (n + 1)
      ≡ (if n == 0 || leb 8 n then backoff p n else min p.max_backoff_seconds (2 * backoff p n))
unfolding backoff
backoff-suc p n = elim (Bool-cases (n == 0 || leb 8 n)) [
  | inl e ↦
      let same : min (max (n + 1) 1) 8 ≡ min (max n 1) 8 = ground arith in
      rw e (ap (λ k. min p.max_backoff_seconds (2 ^ k)) same)
  | inr e ↦
      let here : min (max n 1) 8 ≡ n = ground arith in
      let after : min (max (n + 1) 1) 8 ≡ n + 1 = ground arith in
      rw (e, here, after, pow_double n) (omega arith)
]

-- The backoff is 2 seconds for the first attempt, doubles with every further one up to the eighth
-- and stays from there, all of it cut at `max_backoff_seconds`. The pause before a retry is at least
-- the backoff, and the jitter adds at most half of it (one second at least may be added), provided
-- that the random source is below its bound.
pub retry_delay_bounds :
    (randbelow : ℕ → ℕ) (p : ImDeliveryPolicy) (n : ℕ)
    → ((k : ℕ) → 0 < k → randbelow k < k)
    → (backoff p 1 ≡ min p.max_backoff_seconds 2)
      × (backoff p (n + 1) ≡ (
          if n == 0 || leb 8 n then backoff p n else min p.max_backoff_seconds (2 * backoff p n)))
      × (backoff p n ≤ backoff p (n + 1))
      × (backoff p n ≤ p.max_backoff_seconds)
      × (backoff p n ≤ retry_delay randbelow p n)
      × (retry_delay randbelow p n ≤ backoff p n + max 1 (backoff p n / 2))
unfolding retry_delay backoff
retry_delay_bounds randbelow p n below =
    let b = backoff p n in
    let jitter = below (max 1 (b / 2) + 1) (omega arith) in
    let grows = exponent_step (min (max n 1) 8) (min (max (n + 1) 1) 8) (omega arith) in
    (
      omega arith,
      backoff-suc p n,
      omega (arith, grows),
      omega arith,
      omega arith,
      omega (arith, jitter),
    )
