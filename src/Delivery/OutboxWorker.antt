-- ===== src/Delivery/OutboxWorker.antt =====
-- The outbound half of `ImDeliveryCoordinator` of backend/ohs/im_delivery_coordinator.py. How the
-- channel takes a message and how its attachments' paths resolve are arguments, by how these calls
-- end; a broadcast to the web client is recorded as a notice.
pub mod Outcomes
pub mod Rounds
pub mod Handed
use velpos.Prelude.{
  ℕ, String, Bool, true, false, Option, none, some, List, [], ◌∷◌, ◌||◌, ◌==◌, ◌!=◌, not, map,
  nat_eq, text_eq, leb, or_text, take_chars, if◌then◌else◌,
}
use velpos.Prelude.Result.{Result, ok, err, ◌>>=◌}
use velpos.Values.{Value, Runtime}
use velpos.Binding.Route.{ChannelRoute}
use velpos.Binding.ImBinding.{ImBinding, BindingStatus, channel_text}
use velpos.Binding.ChannelInit
use velpos.Binding.ChannelInit.{ChannelInit}
use velpos.Delivery.Outbox
use velpos.Delivery.Outbox.{ImOutboxMessage, ImOutboxStatus}
use velpos.Delivery.Policy.{ImDeliveryPolicy, retry_delay}
use velpos.Delivery.InboxWorker.{gave_up, is_bound}
use velpos.Delivery.OutboxTable.{OutboxTable, OutboxError, lease_lost, is_failed}
use velpos.Delivery.OutboxTable.Queue.{claim_next, save}

-- `_OutboxOutcome`
pub data OutboxOutcome : Type 0 where
  sent retry cancelled dead_letter : OutboxOutcome

-- What the facade is asked to send over a binding.
pub record Outbound : Type 0 where
  pub binding : ImBinding
  pub content : String
  pub attachments : Value
  pub route : ChannelRoute
  pub idempotency_key : String

-- How `send` ends: a receipt with the external identifier, or one of the exceptions.
pub data Sending : Type 0 where
  receipt auth_error permanent_error other_error : String → Sending

-- What `_notify_terminal_failure` broadcasts.
pub record Notice : Type 0 where
  pub session_id : String
  pub delivery_id : ℕ
  pub status : ImOutboxStatus
  pub error_message : String

-- What a round leaves: the queue, the channels, what was handed to the facade, and the notices.
pub record Round : Type 0 where
  pub table : OutboxTable
  pub channels : List ChannelInit
  pub handed : List Outbound
  pub notices : List Notice

abbrev pub fresh_round : OutboxTable → List ChannelInit → Round
fresh_round t channels = record { table = t; channels = channels; handed = []; notices = [] }

unfoldable pub binding_ok : ImOutboxMessage → Option ImBinding → Option ImBinding
binding_ok m none = none
binding_ok m (some b) =
    if b.id != m.binding_id
      || channel_text b.channel_type != m.channel_type
      || not (is_bound b.binding_status)
    then none
    else some b

-- The first half of `_finish_outbox`: the outcome is written on the message.
unfoldable pub settle :
    (randbelow : ℕ → ℕ)
    → ImDeliveryPolicy
    → (now : ℕ) → OutboxOutcome
    → (error_message external_message_id : String) → ImOutboxMessage
    → ImOutboxMessage
unfolding Outbox.mark_sent Outbox.mark_cancelled Outbox.mark_dead Outbox.mark_retry
settle randbelow policy now sent message external m = Outbox.mark_sent now external m
settle randbelow policy now cancelled message external m = Outbox.mark_cancelled now message m
settle randbelow policy now dead_letter message external m = Outbox.mark_dead now message m
settle randbelow policy now retry message external m =
    if leb policy.max_attempts m.attempt_count
    then Outbox.mark_dead now (gave_up message) m
    else Outbox.mark_retry now message (retry_delay randbelow policy m.attempt_count) m

abbrev pub notify_terminal : ImOutboxMessage → List Notice
notify_terminal m =
    if is_failed m.status
    then record {
      session_id = m.session_id;
      delivery_id = m.id;
      status = m.status;
      error_message = m.error_message;
    }
      ∷ []
    else []

-- `init_repo.find_by_id` and `save`, on the channels by identifier; the reason is cut at 500.
abbrev pub expire_one : (now : ℕ) (channel_id reason : String) → ChannelInit → ChannelInit
expire_one now channel_id reason c =
    if c.id == channel_id
    then ChannelInit.mark_credentials_expired now (take_chars 500 reason) c
    else c

unfoldable pub mark_credentials_expired :
    (now : ℕ) (reason : String) → ImOutboxMessage → List ChannelInit → List ChannelInit
unfolding ChannelInit.mark_credentials_expired
mark_credentials_expired now reason m channels = map (expire_one now m.channel_id reason) channels

module _ (randbelow : ℕ → ℕ) (policy : ImDeliveryPolicy) (describe : OutboxError → String) where
  unfoldable pub finish_outbox :
      (now : ℕ)
      → OutboxOutcome
      → (error_message external_message_id : String) → ImOutboxMessage
      → Round
      → Result OutboxError Round
  unfolding settle save
  finish_outbox now outcome message external m r =
      let settled = settle randbelow policy now outcome message external m in
      do t ← save settled r.table; ok (record r { table = t; notices = notify_terminal settled })

  -- `except ImDeliveryLeaseLostError`: the round goes on as if nothing was written.
  abbrev pub tolerate_lost : Round → Result OutboxError Round → Result OutboxError Round
  tolerate_lost r (ok r') = ok r'
  tolerate_lost r (err (lease_lost i k)) = ok r
  tolerate_lost r (err e) = err e

  -- `_settle_outbox`
  unfoldable pub settle_outbox :
      (now : ℕ) → OutboxOutcome → String → ImOutboxMessage → Round → Result OutboxError Round
  unfolding finish_outbox
  settle_outbox now outcome message m r = tolerate_lost r (finish_outbox now outcome message "" m r)

  -- A write inside the `try`: an error other than a lost lease is handled as a failed delivery.
  abbrev pub finish_in_try :
      (now : ℕ)
      → (changed : ImOutboxMessage) → Round
      → Result OutboxError Round
      → Result OutboxError Round
  finish_in_try now changed r (ok r') = ok r'
  finish_in_try now changed r (err (lease_lost i k)) = ok r
  finish_in_try now changed r (err e) = settle_outbox now retry (describe e) changed r

  abbrev pub try_finish :
      (now : ℕ)
      → OutboxOutcome
      → (error_message external_message_id : String) → ImOutboxMessage
      → Round
      → Result OutboxError Round
  try_finish now outcome message external m r =
      finish_in_try now (settle randbelow policy now outcome message external m) r
        (finish_outbox now outcome message external m r)

  abbrev pub after_send : (now : ℕ) → Sending → ImOutboxMessage → Round → Result OutboxError Round
  after_send now (receipt external) m r = try_finish now sent "" external m r
  after_send now (auth_error reason) m r =
      settle_outbox now cancelled reason m
        (record r { channels = mark_credentials_expired now reason m r.channels })
  after_send now (permanent_error reason) m r = settle_outbox now dead_letter reason m r
  after_send now (other_error reason) m r = settle_outbox now retry reason m r

  module _ (find_binding : String → Option ImBinding)
      (resolve_attachments : ImOutboxMessage → Result String Value)
      (send : Outbound → Sending) where
    abbrev pub outbound : ImBinding → Value → ImOutboxMessage → Outbound
    outbound binding attachments m = record {
      binding = binding;
      content = m.content;
      attachments = attachments;
      route = m.route;
      idempotency_key = m.deduplication_key;
    }

    abbrev pub deliver :
        (now : ℕ)
        → ImBinding
        → Result String Value
        → ImOutboxMessage
        → Round
        → Result OutboxError Round
    deliver now binding (err reason) m r = settle_outbox now retry reason m r
    deliver now binding (ok attachments) m r =
        let call = outbound binding attachments m in
        after_send now (send call) m (record r { handed = call ∷ [] })

    -- The round after the claim was committed, on the table as it then is.
    unfoldable pub complete_claimed :
        (now : ℕ) → ImOutboxMessage → OutboxTable → List ChannelInit → Result OutboxError Round
    complete_claimed now m t channels =
        let r = fresh_round t channels in
        elim (binding_ok m (find_binding m.session_id)) [
          | none ↦ try_finish now cancelled "IM binding changed before outbound delivery" "" m r
          | some binding ↦ deliver now binding (resolve_attachments m) m r
        ]

    -- `_process_one_outbox` where no other worker intervenes.
    unfoldable pub process_one_outbox :
        Runtime
        → (locked : ℕ → Bool) → (now claim_now finish_now : ℕ) → OutboxTable
        → List ChannelInit
        → Result OutboxError (Bool × Round)
    unfolding claim_next complete_claimed
    process_one_outbox py locked now claim_now finish_now t channels = do
      claimed ← claim_next py locked now policy.lease_seconds claim_now t
      elim claimed.0 [
        | none ↦ ok (false, fresh_round claimed.1 channels)
        | some m ↦ do r ← complete_claimed finish_now m claimed.1 channels; ok (true, r)
      ]
