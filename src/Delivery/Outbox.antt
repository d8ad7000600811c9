-- ===== src/Delivery/Outbox.antt =====
-- `ImOutboxStatus` and `ImOutboxMessage` of backend/domain/im_binding/model/im_delivery.py.
-- A time is a count of microseconds; `now` is what the method's call of `datetime.now()` returns.
use velpos.Prelude.{ℕ, ◌+◌, String, Bool, true, false, Option, none, some, take_chars}
use velpos.Prelude.Result.{Result, ok, err}
use velpos.Values.{Value}
use velpos.Binding.Route.{ChannelRoute}
use velpos.Delivery.Inbox.{seconds, max_error_length}

pub data ImOutboxStatus : Type 0 where
  pending sending retry sent cancelled dead : ImOutboxStatus

-- `OUTBOX_UNSETTLED_STATUSES`
abbrev pub is_unsettled : ImOutboxStatus → Bool
is_unsettled sent = false
is_unsettled pending = true
is_unsettled sending = true
is_unsettled retry = true
is_unsettled cancelled = true
is_unsettled dead = true

pub record ImOutboxMessage : Type 0 where
  pub id : ℕ
  pub session_id : String
  pub binding_id : String
  pub channel_id : String
  pub channel_type : String
  pub content : String
  pub deduplication_key : String
  pub attachments : Value
  pub route : ChannelRoute
  pub status : ImOutboxStatus
  pub attempt_count : ℕ
  pub next_attempt_at : ℕ
  pub lease_until : Option ℕ
  pub error_message : String
  pub external_message_id : String
  pub created_at : ℕ
  pub updated_at : ℕ

unfoldable pub claim : (now lease_seconds : ℕ) → ImOutboxMessage → ImOutboxMessage
claim now lease_seconds m = record m {
  status = sending;
  attempt_count = m.attempt_count + 1;
  lease_until = some (now + seconds lease_seconds);
  updated_at = now;
}

unfoldable pub mark_sent : (now : ℕ) → String → ImOutboxMessage → ImOutboxMessage
mark_sent now external_message_id m = record m {
  status = sent;
  lease_until = none;
  error_message = "";
  external_message_id = external_message_id;
  updated_at = now;
}

unfoldable pub mark_retry :
    (now : ℕ) → String → (delay_seconds : ℕ) → ImOutboxMessage → ImOutboxMessage
mark_retry now error_message delay_seconds m = record m {
  status = retry;
  lease_until = none;
  next_attempt_at = now + seconds delay_seconds;
  error_message = take_chars max_error_length error_message;
  updated_at = now;
}

unfoldable pub mark_cancelled : (now : ℕ) → String → ImOutboxMessage → ImOutboxMessage
mark_cancelled now error_message m = record m {
  status = cancelled;
  lease_until = none;
  error_message = take_chars max_error_length error_message;
  updated_at = now;
}

unfoldable pub mark_dead : (now : ℕ) → String → ImOutboxMessage → ImOutboxMessage
mark_dead now error_message m = record m {
  status = dead;
  lease_until = none;
  error_message = take_chars max_error_length error_message;
  updated_at = now;
}

-- The exception of `requeue`, with the current status.
pub data NotRequeueable : Type 0 where
  not_failed : ImOutboxStatus → NotRequeueable

abbrev requeued : (now : ℕ) → ImOutboxMessage → ImOutboxMessage
requeued now m = record m {
  status = retry;
  attempt_count = 0;
  next_attempt_at = now;
  lease_until = none;
  updated_at = now;
}

abbrev requeue_from :
    ImOutboxStatus → (now : ℕ) → ImOutboxMessage → Result NotRequeueable ImOutboxMessage
requeue_from dead now m = ok (requeued now m)
requeue_from cancelled now m = ok (requeued now m)
requeue_from status now m = err (not_failed status)

unfoldable pub requeue : (now : ℕ) → ImOutboxMessage → Result NotRequeueable ImOutboxMessage
requeue now m = requeue_from m.status now m
