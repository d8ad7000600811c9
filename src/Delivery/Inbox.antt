-- ===== src/Delivery/Inbox.antt =====
-- `ImInboxStatus` and `ImInboxEvent` of backend/domain/im_binding/model/im_delivery.py.
-- A time is a count of microseconds; `now` is what the method's call of `datetime.now()` returns.
use velpos.Prelude.{ℕ, ◌+◌, ◌-◌, ◌*◌, String, Bool, true, false, Option, none, some, take_chars}
use velpos.Prelude.Result.{Result, ok, err}
use velpos.Values.{Value}
use velpos.Binding.Route.{ChannelRoute}

pub data ImInboxStatus : Type 0 where
  received processing retry processed dead : ImInboxStatus

-- `timedelta(seconds=n)`
abbrev pub seconds : ℕ → ℕ
seconds n = n * 1000000

abbrev pub max_error_length : ℕ
max_error_length = 1000

-- `INBOX_UNSETTLED_STATUSES`
abbrev pub is_unsettled : ImInboxStatus → Bool
is_unsettled received = true
is_unsettled processing = true
is_unsettled retry = true
is_unsettled dead = true
is_unsettled processed = false

pub record ImInboxEvent : Type 0 where
  pub id : ℕ
  pub channel_id : String
  pub channel_type : String
  pub binding_id : String
  pub session_id : String
  pub external_message_id : String
  pub content : String
  pub route : ChannelRoute
  pub attachments : Value
  pub status : ImInboxStatus
  pub attempt_count : ℕ
  pub next_attempt_at : ℕ
  pub lease_until : Option ℕ
  pub error_message : String
  pub created_at : ℕ
  pub updated_at : ℕ
  pub lease_attempt_count : ℕ

unfoldable pub claim : (now lease_seconds : ℕ) → ImInboxEvent → ImInboxEvent
claim now lease_seconds e = record e {
  status = processing;
  attempt_count = e.attempt_count + 1;
  lease_attempt_count = e.attempt_count + 1;
  lease_until = some (now + seconds lease_seconds);
  updated_at = now;
}

unfoldable pub renew_lease : (now lease_seconds : ℕ) → ImInboxEvent → ImInboxEvent
renew_lease now lease_seconds e = record e {
  lease_until = some (now + seconds lease_seconds);
  updated_at = now;
}

-- `max(0, attempt_count - 1)` is the truncated subtraction.
unfoldable pub defer : (now : ℕ) → String → (delay_seconds : ℕ) → ImInboxEvent → ImInboxEvent
defer now reason delay_seconds e = record e {
  status = retry;
  attempt_count = e.attempt_count - 1;
  lease_until = none;
  next_attempt_at = now + seconds delay_seconds;
  error_message = take_chars max_error_length reason;
  updated_at = now;
}

unfoldable pub mark_processed : (now : ℕ) → ImInboxEvent → ImInboxEvent
mark_processed now e = record e {
  status = processed;
  lease_until = none;
  error_message = "";
  updated_at = now;
}

unfoldable pub mark_retry : (now : ℕ) → String → (delay_seconds : ℕ) → ImInboxEvent → ImInboxEvent
mark_retry now error_message delay_seconds e = record e {
  status = retry;
  lease_until = none;
  next_attempt_at = now + seconds delay_seconds;
  error_message = take_chars max_error_length error_message;
  updated_at = now;
}

unfoldable pub mark_dead : (now : ℕ) → String → ImInboxEvent → ImInboxEvent
mark_dead now error_message e = record e {
  status = dead;
  lease_until = none;
  error_message = take_chars max_error_length error_message;
  updated_at = now;
}

-- The exception of `requeue`, with the current status.
pub data NotRequeueable : Type 0 where
  not_dead : ImInboxStatus → NotRequeueable

abbrev pub requeued : (now : ℕ) → ImInboxEvent → ImInboxEvent
requeued now e = record e {
  status = retry;
  attempt_count = 0;
  next_attempt_at = now;
  lease_until = none;
  updated_at = now;
}

abbrev requeue_from : ImInboxStatus → (now : ℕ) → ImInboxEvent → Result NotRequeueable ImInboxEvent
requeue_from dead now e = ok (requeued now e)
requeue_from status now e = err (not_dead status)

unfoldable pub requeue : (now : ℕ) → ImInboxEvent → Result NotRequeueable ImInboxEvent
requeue now e = requeue_from e.status now e
