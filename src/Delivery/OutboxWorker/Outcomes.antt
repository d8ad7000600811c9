-- ===== src/Delivery/OutboxWorker/Outcomes.antt =====
-- What `_finish_outbox` writes on a message for each outcome, and the notice that follows.
use velpos.Prelude.{
  ℕ, ◌≡◌, refl, inl, inr, String, Bool, true, false, arith, List, [], ◌∷◌, nat_eq, text_eq, leb,
  Bool-cases,
}
use velpos.Delivery.Outbox.{ImOutboxMessage, ImOutboxStatus}
use velpos.Delivery.Policy.{ImDeliveryPolicy}
use velpos.Delivery.OutboxTable.{is_sending}
use velpos.Delivery.OutboxWorker.{
  OutboxOutcome, sent, retry, cancelled, dead_letter, Notice, settle, notify_terminal,
}

-- What `settle` leaves alone.
pub settle-kept :
    (randbelow : ℕ → ℕ) (policy : ImDeliveryPolicy) (now : ℕ) (outcome : OutboxOutcome)
    (message external : String) (m : ImOutboxMessage)
    → let s = settle randbelow policy now outcome message external m in
      (s.id ≡ m.id) × (s.attempt_count ≡ m.attempt_count) × (is_sending s.status ≡ false)
unfolding settle
settle-kept randbelow policy now sent message external m = ground arith
settle-kept randbelow policy now retry message external m = ground arith
settle-kept randbelow policy now cancelled message external m = ground arith
settle-kept randbelow policy now dead_letter message external m = ground arith

abbrev pub is_sent_outcome : OutboxOutcome → Bool
is_sent_outcome sent = true
is_sent_outcome _ = false

abbrev pub is_sent : ImOutboxStatus → Bool
is_sent ImOutboxStatus.sent = true
is_sent _ = false

pub settle-sent :
    (randbelow : ℕ → ℕ) (policy : ImDeliveryPolicy) (now : ℕ) (outcome : OutboxOutcome)
    (message external : String) (m : ImOutboxMessage)
    → let s = settle randbelow policy now outcome message external m in
      is_sent s.status ≡ true
      → (is_sent_outcome outcome ≡ true) × (s.external_message_id ≡ external)
unfolding settle
settle-sent randbelow policy now sent message external m h = (refl, refl)
settle-sent randbelow policy now retry message external m h = absurd (ground arith)
settle-sent randbelow policy now cancelled message external m h = absurd (ground arith)
settle-sent randbelow policy now dead_letter message external m h = absurd (ground arith)

-- The notices of a message that is left in a status: one of a dead or a cancelled message.
abbrev pub notices_of : ImOutboxStatus → Notice → List Notice
notices_of ImOutboxStatus.dead n = n ∷ []
notices_of ImOutboxStatus.cancelled n = n ∷ []
notices_of ImOutboxStatus.pending n = []
notices_of ImOutboxStatus.sending n = []
notices_of ImOutboxStatus.retry n = []
notices_of ImOutboxStatus.sent n = []

abbrev pub notice_about : (m s : ImOutboxMessage) → Notice
notice_about m s = record {
  session_id = m.session_id;
  delivery_id = m.id;
  status = s.status;
  error_message = s.error_message;
}

pub settle-told :
    (randbelow : ℕ → ℕ) (policy : ImDeliveryPolicy) (now : ℕ) (outcome : OutboxOutcome)
    (message external : String) (m : ImOutboxMessage)
    → let s = settle randbelow policy now outcome message external m in
      notify_terminal s ≡ notices_of s.status (notice_about m s)
unfolding settle
settle-told randbelow policy now sent message external m = refl
settle-told randbelow policy now retry message external m =
    elim (Bool-cases (leb policy.max_attempts m.attempt_count)) [
      | inl h ↦ rw h refl
      | inr h ↦ rw h refl
    ]
settle-told randbelow policy now cancelled message external m = refl
settle-told randbelow policy now dead_letter message external m = refl
