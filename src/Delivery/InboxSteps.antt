-- ===== src/Delivery/InboxSteps.antt =====
-- The life of the inbox table under any number of workers: what each of them commits, one
-- transaction after another (backend/ohs/im_delivery_coordinator.py over the repository).
pub mod Fencing
pub mod Stale
pub mod Exclusive
pub mod Requeued
pub mod Overtaken
pub mod OnePerSession
pub mod Unfenced
use velpos.Prelude.{ℕ, String, ◌≡◌, ◌<◌, Bool, Option, none, some, List}
use velpos.Prelude.Result.{ok}
use velpos.Values.{Runtime}
use velpos.Delivery.Inbox
use velpos.Delivery.Inbox.{ImInboxEvent, received}
use velpos.Delivery.Policy.{ImDeliveryPolicy}
use velpos.Delivery.InboxTable
use velpos.Delivery.InboxTable.{InboxTable, accept, claim_next, release_pending_retries, requeue}
use velpos.Delivery.InboxWorker.{InboxOutcome, Notification, finish_inbox}

-- A worker's own event, as `claim` left it: the lease stands for its attempt.
pub record IsHeld (e : ImInboxEvent) : Type 0 where
  pub snapshot : e.lease_attempt_count ≡ e.attempt_count
  pub attempted : 0 < e.attempt_count

-- A transaction: a channel delivers a message, a worker claims, renews or finishes, or a session
-- becomes idle. The manual requeue of a dead event is a `TableStep`.
pub data InboxStep (py : Runtime) (policy : ImDeliveryPolicy)
    : InboxTable → InboxTable → Type 0 where
  accepting :
      {t t' : InboxTable} {r : Option ImInboxEvent} (seen : InboxTable) (e : ImInboxEvent)
      → e.status ≡ received
      → accept py seen t e ≡ (r, t')
      → InboxStep py policy t t'
  claiming :
      {t t' : InboxTable} {e : ImInboxEvent} (locked : ℕ → Bool) (now claim_now : ℕ)
      → claim_next py locked now policy.lease_seconds claim_now t ≡ ok (some e, t')
      → InboxStep py policy t t'
  renewing :
      {t t' : InboxTable} (now : ℕ) (e : ImInboxEvent)
      → InboxTable.renew_lease (Inbox.renew_lease now policy.lease_seconds e) t ≡ ok t'
      → InboxStep py policy t t'
  finishing :
      {t t' : InboxTable} {sent : List Notification} (randbelow : ℕ → ℕ) (now : ℕ)
      (outcome : InboxOutcome) (message : String) (e : ImInboxEvent)
      → IsHeld e
      → finish_inbox randbelow policy now outcome message e t ≡ ok (t', sent)
      → InboxStep py policy t t'
  releasing :
      {t t' : InboxTable} {count : ℕ} (session_id : String) (now : ℕ)
      → release_pending_retries session_id now t ≡ (count, t')
      → InboxStep py policy t t'

pub data InboxSteps (py : Runtime) (policy : ImDeliveryPolicy) (t : InboxTable)
    : InboxTable → Type 0 where
  here : InboxSteps py policy t t
  next :
      {u v : InboxTable}
      → InboxSteps py policy t u
      → InboxStep py policy u v
      → InboxSteps py policy t v

-- Every transaction, the manual requeue of a dead event included (`retry` of
-- backend/ohs/im_delivery_monitor.py).
pub data TableStep (py : Runtime) (policy : ImDeliveryPolicy)
    : InboxTable → InboxTable → Type 0 where
  working : {t t' : InboxTable} → InboxStep py policy t t' → TableStep py policy t t'
  requeueing :
      {t t' : InboxTable} {fresh : Option ImInboxEvent} (event_id : ℕ) (session_id : String)
      (now : ℕ)
      → requeue py event_id session_id now t ≡ ok (fresh, t')
      → TableStep py policy t t'
