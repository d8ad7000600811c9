-- ===== src/Delivery/InboxWorker/Budget.antt =====
-- What the outcomes do to an event's attempts.
use velpos.Prelude.{ℕ, zero, suc, ◌+◌, ◌≡◌, ◌≤◌, ◌<◌, refl, String, none, arith}
use velpos.Delivery.Inbox
use velpos.Delivery.Inbox.{ImInboxEvent, ImInboxStatus, seconds}
use velpos.Delivery.Policy.{ImDeliveryPolicy, retry_delay}
use velpos.Delivery.InboxWorker.{retry, deferred, settle}

module _ (randbelow : ℕ → ℕ) (policy : ImDeliveryPolicy) where
  -- A failure with attempts left waits for a retry after the delay of the attempt, keeps the count
  -- and releases the lease.
  pub settle-retry_left :
      (now : ℕ) (message : String) (e : ImInboxEvent)
      → e.attempt_count < policy.max_attempts
      → let s = settle randbelow policy now retry message e in
        (s.status ≡ ImInboxStatus.retry)
        × (s.next_attempt_at ≡ now + seconds (retry_delay randbelow policy e.attempt_count))
        × (s.attempt_count ≡ e.attempt_count)
        × (s.lease_until ≡ none)
  unfolding settle
  settle-retry_left now message e h = ground arith

  -- A failure of the last attempt, or of a later one, is a dead letter.
  pub settle-retry_exhausted :
      (now : ℕ) (message : String) (e : ImInboxEvent)
      → policy.max_attempts ≤ e.attempt_count
      → let s = settle randbelow policy now retry message e in
        (s.status ≡ ImInboxStatus.dead)
        × (s.attempt_count ≡ e.attempt_count)
        × (s.lease_until ≡ none)
  unfolding settle
  settle-retry_exhausted now message e h = ground arith

  -- A round in which the session is busy gives the attempt back, whatever the count is.
  pub busy_round_free :
      (claim_now now lease_seconds : ℕ) (message : String) (e : ImInboxEvent)
      → let s =
          settle randbelow policy now deferred message (Inbox.claim claim_now lease_seconds e) in
        (s.attempt_count ≡ e.attempt_count)
        × (s.status ≡ ImInboxStatus.retry)
        × (s.next_attempt_at ≡ now + seconds policy.busy_retry_seconds)
  unfolding settle Inbox.claim
  busy_round_free claim_now now lease_seconds message e = (omega arith, refl, refl)

  -- one round that fails, on the event alone
  pub failed_round : (now : ℕ) → String → ImInboxEvent → ImInboxEvent
  unfolding settle Inbox.claim
  failed_round now message e =
      settle randbelow policy now retry message (Inbox.claim now policy.lease_seconds e)

  -- `n` rounds that fail, at times and with messages of their own
  abbrev pub failed_rounds : (now : ℕ → ℕ) (message : ℕ → String) → ℕ → ImInboxEvent → ImInboxEvent
  failed_rounds now message zero e = e
  failed_rounds now message (suc n) e =
      failed_round (now n) (message n) (failed_rounds now message n e)

  failed_rounds-count :
      (now : ℕ → ℕ) (message : ℕ → String) (n : ℕ) (e : ImInboxEvent)
      → (failed_rounds now message n e).attempt_count ≡ e.attempt_count + n
  unfolding failed_round
  failed_rounds-count now message zero e = omega arith
  failed_rounds-count now message (suc n) e = ground (arith, failed_rounds-count now message n e)

  -- A new event that keeps failing waits for a retry after each round before the last.
  pub failing_event_waits :
      (now : ℕ → ℕ) (message : ℕ → String) (n : ℕ) (e : ImInboxEvent)
      → e.attempt_count ≡ 0
      → suc n < policy.max_attempts
      → (failed_rounds now message (suc n) e).status ≡ ImInboxStatus.retry
  unfolding failed_round
  failing_event_waits now message n e new h = ground (arith, failed_rounds-count now message n e)

  -- It is a dead letter after `max_attempts` rounds.
  pub failing_event_dies :
      (now : ℕ → ℕ) (message : ℕ → String) (n : ℕ) (e : ImInboxEvent)
      → e.attempt_count ≡ 0
      → suc n ≡ policy.max_attempts
      → (failed_rounds now message (suc n) e).status ≡ ImInboxStatus.dead
  unfolding failed_round
  failing_event_dies now message n e new h = ground (arith, failed_rounds-count now message n e)
