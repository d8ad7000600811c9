-- ===== src/Delivery/InboxWorker.antt =====
-- The inbound half of `ImDeliveryCoordinator` of backend/ohs/im_delivery_coordinator.py: what one
-- round of a worker does to the table. The service that answers a message is an argument, by how
-- its call ends; the clock and the random source are arguments too.
pub mod Budget
pub mod Finish
use velpos.Prelude.{
  ℕ, String, Bool, true, false, Option, none, some, List, [], ◌∷◌, ◌||◌, not, ◌!=◌, nat_eq, text_eq,
  leb, or_text, if◌then◌else◌,
}
use velpos.Prelude.Result.{Result, ok, err, ◌>>=◌}
use velpos.Values.{Runtime}
use velpos.Binding.ImBinding.{ImBinding, BindingStatus, channel_text}
use velpos.Delivery.Inbox
use velpos.Delivery.Inbox.{ImInboxEvent, ImInboxStatus, dead}
use velpos.Delivery.Policy.{ImDeliveryPolicy, retry_delay}
use velpos.Delivery.InboxTable.{InboxTable, DeliveryError, lease_lost, is_dead, claim_next, save}

-- `_InboxOutcome`
pub data InboxOutcome : Type 0 where
  processed retry deferred dead_letter : InboxOutcome

-- How `process_inbound_event` ends: it returns, or it raises one of these.
pub data Processing : Type 0 where
  done lost : Processing
  busy retryable failed : String → Processing

-- A message to the Web client about a delivery that failed for good.
pub record Notification : Type 0 where
  pub session_id : String
  pub delivery_id : ℕ
  pub error_message : String

abbrev pub is_bound : BindingStatus → Bool
is_bound BindingStatus.bound = true
is_bound _ = false

unfoldable pub binding_changed : ImInboxEvent → Option ImBinding → Bool
binding_changed e none = true
binding_changed e (some b) =
    b.id != e.binding_id
    || channel_text b.channel_type != e.channel_type
    || not (is_bound b.binding_status)

abbrev outcome_of : Processing → Option (InboxOutcome × String)
outcome_of done = some (processed, "")
outcome_of lost = none
outcome_of (busy reason) = some (deferred, reason)
outcome_of (retryable reason) = some (retry, reason)
outcome_of (failed reason) = some (retry, reason)

-- `service` is told whether this is the final attempt. `none`: the lease is lost.
unfoldable pub execute_claimed_inbox :
    ImDeliveryPolicy
    → (find_binding : String → Option ImBinding)
    → (service : (is_final_attempt : Bool) → ImInboxEvent → Processing) → ImInboxEvent
    → Option (InboxOutcome × String)
unfolding binding_changed
execute_claimed_inbox policy find_binding service event =
    if binding_changed event (find_binding event.session_id)
    then some (dead_letter, "IM binding changed before inbound processing")
    else outcome_of (service (leb policy.max_attempts event.attempt_count) event)

abbrev pub gave_up : String → String
gave_up error_message = or_text error_message "Maximum retry attempts reached"

-- The first half of `_finish_inbox`: the outcome is written on the event.
unfoldable pub settle :
    (randbelow : ℕ → ℕ)
    → ImDeliveryPolicy
    → (now : ℕ) → InboxOutcome
    → String
    → ImInboxEvent
    → ImInboxEvent
unfolding Inbox.mark_processed Inbox.defer Inbox.mark_dead Inbox.mark_retry
settle randbelow policy now processed message e = Inbox.mark_processed now e
settle randbelow policy now deferred message e = Inbox.defer now message policy.busy_retry_seconds e
settle randbelow policy now dead_letter message e = Inbox.mark_dead now (gave_up message) e
settle randbelow policy now retry message e =
    if leb policy.max_attempts e.attempt_count
    then Inbox.mark_dead now (gave_up message) e
    else Inbox.mark_retry now message (retry_delay randbelow policy e.attempt_count) e

abbrev pub notify_terminal : ImInboxEvent → List Notification
notify_terminal e =
    if is_dead e.status
    then record { session_id = e.session_id; delivery_id = e.id; error_message = e.error_message }
      ∷ []
    else []

unfoldable pub finish_inbox :
    (randbelow : ℕ → ℕ)
    → ImDeliveryPolicy
    → (now : ℕ) → InboxOutcome
    → String
    → ImInboxEvent
    → InboxTable
    → Result DeliveryError (InboxTable × List Notification)
unfolding settle save
finish_inbox randbelow policy now outcome message e t =
    let settled = settle randbelow policy now outcome message e in
    do t' ← save settled t; ok (t', notify_terminal settled)

-- `except ImDeliveryLeaseLostError`; any other exception leaves the round.
abbrev tolerate_lost :
    InboxTable
    → Result DeliveryError (InboxTable × List Notification)
    → Result DeliveryError (InboxTable × List Notification)
tolerate_lost t (ok r) = ok r
tolerate_lost t (err (lease_lost i k)) = ok (t, [])
tolerate_lost t (err e) = err e

abbrev finish_or_skip :
    (randbelow : ℕ → ℕ)
    → ImDeliveryPolicy
    → (now : ℕ) → Option (InboxOutcome × String)
    → ImInboxEvent
    → InboxTable
    → Result DeliveryError (InboxTable × List Notification)
finish_or_skip randbelow policy now none e t = ok (t, [])
finish_or_skip randbelow policy now (some (outcome, message)) e t =
    tolerate_lost t (finish_inbox randbelow policy now outcome message e t)

-- The rest of the round, after the claim was committed. `t` is the table when the service ended:
-- other workers have had it meanwhile.
unfoldable pub complete_claimed :
    (randbelow : ℕ → ℕ)
    → ImDeliveryPolicy
    → (find_binding : String → Option ImBinding) → (service : Bool → ImInboxEvent → Processing)
    → (now : ℕ) → ImInboxEvent
    → InboxTable
    → Result DeliveryError (InboxTable × List Notification)
unfolding execute_claimed_inbox finish_inbox
complete_claimed randbelow policy find_binding service now e t =
    finish_or_skip randbelow policy now (execute_claimed_inbox policy find_binding service e) e t

-- `_process_one_inbox` where no other worker intervenes; the Boolean says that a row was claimed.
unfoldable pub process_one_inbox :
    Runtime
    → (locked : ℕ → Bool) → (randbelow : ℕ → ℕ) → ImDeliveryPolicy
    → (find_binding : String → Option ImBinding) → (service : Bool → ImInboxEvent → Processing)
    → (now claim_now finish_now : ℕ) → InboxTable
    → Result DeliveryError (Bool × InboxTable × List Notification)
unfolding claim_next complete_claimed
process_one_inbox py locked randbelow policy find_binding service now claim_now finish_now t = do
  claimed ← claim_next py locked now policy.lease_seconds claim_now t
  elim claimed.0 [
    | none ↦ ok (false, claimed.1, [])
    | some e ↦ do
      r ← complete_claimed randbelow policy find_binding service finish_now e claimed.1
      ok (true, r.0, r.1)
  ]
