-- ===== src/Delivery/Policy.antt =====
-- `ImDeliveryPolicy` of backend/infr/config/im_delivery_config.py, and the retry delay of
-- backend/ohs/im_delivery_coordinator.py.
pub mod Bounds
use velpos.Prelude.{ℕ, ◌+◌, ◌/◌, ◌^◌, String, Option, none, some, min, max}
use velpos.Values.{ℤ, pos, negsuc}

pub record ImDeliveryPolicy : Type 0 where
  pub lease_seconds : ℕ
  pub max_attempts : ℕ
  pub max_backoff_seconds : ℕ
  pub busy_retry_seconds : ℕ
  pub inbox_workers : ℕ
  pub outbox_workers : ℕ

abbrev pub default_policy : ImDeliveryPolicy
default_policy = record {
  lease_seconds = 120;
  max_attempts = 8;
  max_backoff_seconds = 300;
  busy_retry_seconds = 15;
  inbox_workers = 4;
  outbox_workers = 4;
}

-- `min(maximum, max(minimum, value))`, with bounds that are not negative
unfoldable pub clamp : (minimum maximum : ℕ) → ℤ → ℕ
clamp minimum maximum (pos n) = min maximum (max minimum n)
clamp minimum maximum (negsuc n) = min maximum minimum

-- `parse_int` is Python's `int` on a text, `none` where it raises; `raw` is the variable's value.
unfoldable pub read_bounded_int :
    (parse_int : String → Option ℤ) (raw : Option String) (default minimum maximum : ℕ) → ℕ
unfolding clamp
read_bounded_int parse_int none default minimum maximum = default
read_bounded_int parse_int (some raw_value) default minimum maximum = elim (parse_int raw_value) [
  | none ↦ default
  | some value ↦ clamp minimum maximum value
]

module _ (parse_int : String → Option ℤ) (getenv : String → Option String) where
  unfoldable pub from_env : ImDeliveryPolicy
  unfolding read_bounded_int
  from_env =
      let read = λ (name : String) (default minimum maximum : ℕ).
        read_bounded_int parse_int (getenv name) default minimum maximum in
      record {
        lease_seconds = read "IM_DELIVERY_LEASE_SECONDS" default_policy.lease_seconds 10 3600;
        max_attempts = read "IM_DELIVERY_MAX_ATTEMPTS" default_policy.max_attempts 1 50;
        max_backoff_seconds =
            read "IM_DELIVERY_MAX_BACKOFF_SECONDS" default_policy.max_backoff_seconds 1 3600;
        busy_retry_seconds =
            read "IM_DELIVERY_BUSY_RETRY_SECONDS" default_policy.busy_retry_seconds 1 300;
        inbox_workers = read "IM_INBOX_WORKERS" default_policy.inbox_workers 1 16;
        outbox_workers = read "IM_OUTBOX_WORKERS" default_policy.outbox_workers 1 16;
      }

-- `randbelow n` is `secrets.randbelow(n)`.
unfoldable pub backoff : ImDeliveryPolicy → (attempt_count : ℕ) → ℕ
backoff policy attempt_count = min policy.max_backoff_seconds (2 ^ min (max attempt_count 1) 8)

unfoldable pub retry_delay : (randbelow : ℕ → ℕ) → ImDeliveryPolicy → (attempt_count : ℕ) → ℕ
unfolding backoff
retry_delay randbelow policy attempt_count =
    let b = backoff policy attempt_count in b + randbelow (max 1 (b / 2) + 1)
