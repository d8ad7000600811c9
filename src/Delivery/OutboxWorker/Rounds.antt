-- ===== src/Delivery/OutboxWorker/Rounds.antt =====
-- What one round of the outbox worker does: to whom it sends, and how it leaves the message.
use velpos.Prelude.{
  ℕ, ◌≡◌, refl, inl, inr, String, true, false, Option, none, some, arith, List, [], ◌∷◌, Memᴰ,
  nat_eq, text_eq, text_eq_iff, Option-cases,
}
use velpos.Prelude.Result.{Result, ok, Result-cases}
use velpos.Prelude.Keyed.{find_at}
use velpos.Values.{Value}
use velpos.Binding.ImBinding.{ImBinding, channel_text}
use velpos.Binding.ChannelInit.{ChannelInit}
use velpos.Delivery.Outbox.{ImOutboxMessage}
use velpos.Delivery.Policy.{ImDeliveryPolicy}
use velpos.Delivery.InboxWorker.{is_bound}
use velpos.Delivery.OutboxTable.{OutboxTable, OutboxError, is_sending, row_id, write}
use velpos.Delivery.OutboxTable.Claim.{IsOwn}
use velpos.Delivery.OutboxTable.Queue.{save}
use velpos.Delivery.OutboxWorker.Outcomes.{
  settle-kept, settle-sent, settle-told, is_sent_outcome, is_sent, notices_of, notice_about,
}
use velpos.Delivery.OutboxWorker.{
  OutboxOutcome, sent, retry, cancelled, dead_letter, Outbound, Sending, Round, fresh_round,
  binding_ok, settle, finish_outbox, settle_outbox, complete_claimed, notify_terminal,
  mark_credentials_expired, after_send, outbound, receipt, auth_error, permanent_error, other_error,
}

-- A binding that passes the check is the message's own, over its channel type, and bound.
pub binding_ok-some :
    (m : ImOutboxMessage) (found : Option ImBinding) {b : ImBinding}
    → binding_ok m found ≡ some b
    → (found ≡ some b)
      × (b.id ≡ m.binding_id)
      × (channel_text b.channel_type ≡ m.channel_type)
      × (is_bound b.binding_status ≡ true)
unfolding binding_ok
binding_ok-some m none h = absurd (ground arith)
binding_ok-some m (some c) {b} h =
    let same : c ≡ b = ground arith in
    rw (← same) (
      refl,
      ground (arith, text_eq_iff c.id m.binding_id),
      ground (arith, text_eq_iff (channel_text c.channel_type) m.channel_type),
      ground arith,
    )

save-own :
    (m s : ImOutboxMessage) (t : OutboxTable)
    → IsOwn m t
    → s.id ≡ m.id
    → s.attempt_count ≡ m.attempt_count
    → save s t ≡ ok (write s t)
unfolding save
save-own m s t own same count =
    let found : find_at row_id s.id t.rows ≡ some own.row = rw same own.found in
    let busy = own.busy in let attempt = own.attempt in rw found (ground arith)

module _ (randbelow : ℕ → ℕ) (policy : ImDeliveryPolicy) (describe : OutboxError → String) where
  -- The round after the write of an outcome.
  abbrev settled :
      (now : ℕ) → OutboxOutcome → (message external : String) → ImOutboxMessage → Round → Round
  settled now outcome message external m r =
      let s = settle randbelow policy now outcome message external m in
      record r { table = write s r.table; notices = notify_terminal s }

  finish-own :
      (now : ℕ) (outcome : OutboxOutcome) (message external : String) (m : ImOutboxMessage)
      (r : Round)
      → IsOwn m r.table
      → finish_outbox randbelow policy describe now outcome message external m r
        ≡ ok (settled now outcome message external m r)
  unfolding finish_outbox
  finish-own now outcome message external m r own =
      let (i, c, _) = settle-kept randbelow policy now outcome message external m in
      rw (save-own m (settle randbelow policy now outcome message external m) r.table own i c)

  settle_outbox-own :
      (now : ℕ) (outcome : OutboxOutcome) (message : String) (m : ImOutboxMessage) (r : Round)
      → IsOwn m r.table
      → settle_outbox randbelow policy describe now outcome message m r
        ≡ ok (settled now outcome message "" m r)
  unfolding settle_outbox
  settle_outbox-own now outcome message m r own = rw (finish-own now outcome message "" m r own)

-- A settled round: one message is written, it waits or has ended, the web client gets one notice if
-- it is left dead or cancelled and none otherwise, and a message counts as sent only on the receipt
-- of the channel.
pub record IsSettled (send : Outbound → Sending) (m : ImOutboxMessage) (t : OutboxTable) (r : Round)
    (s : ImOutboxMessage) : Type 0 where
  pub written : r.table ≡ write s t
  pub told : r.notices ≡ notices_of s.status (notice_about m s)
  pub same : s.id ≡ m.id
  pub ended : is_sending s.status ≡ false
  pub receipted :
      is_sent s.status ≡ true
      → (call : Outbound) × Memᴰ call r.handed × (send call ≡ receipt s.external_message_id)

module _ (randbelow : ℕ → ℕ) (policy : ImDeliveryPolicy) (describe : OutboxError → String)
    (find_binding : String → Option ImBinding)
    (resolve_attachments : ImOutboxMessage → Result String Value) (send : Outbound → Sending)
    (now : ℕ) (m : ImOutboxMessage) where
  settled-unsent :
      (outcome : OutboxOutcome) (message : String) (r : Round)
      → is_sent_outcome outcome ≡ false
      → IsSettled send m r.table
          (settled randbelow policy describe now outcome message "" m r)
          (settle randbelow policy now outcome message "" m)
  settled-unsent outcome message r unsent =
      let (i, _, e) = settle-kept randbelow policy now outcome message "" m in
      record {
        written = refl;
        told = settle-told randbelow policy now outcome message "" m;
        same = i;
        ended = e;
        receipted = λ h.
            let (k, _) = settle-sent randbelow policy now outcome message "" m h in
            absurd (ground arith);
      }

  settled-receipt :
      (external : String) (call : Outbound) (r : Round)
      → send call ≡ receipt external
      → Memᴰ call r.handed
      → IsSettled send m r.table
          (settled randbelow policy describe now sent "" external m r)
          (settle randbelow policy now sent "" external m)
  settled-receipt external call r got handed =
      let (i, _, e) = settle-kept randbelow policy now sent "" external m in
      record {
        written = refl;
        told = settle-told randbelow policy now sent "" external m;
        same = i;
        ended = e;
        receipted = λ h.
            let (_, x) = settle-sent randbelow policy now sent "" external m h in
            (call, handed, rw x got);
      }

  after_send-settles :
      (answer : Sending) (call : Outbound) (r : Round)
      → IsOwn m r.table
      → send call ≡ answer
      → Memᴰ call r.handed
      → (r' : Round) × (s : ImOutboxMessage) × (after_send randbelow policy describe now answer m r
          ≡ ok r')
        × IsSettled send m r.table r' s
  after_send-settles (receipt external) call r own got handed = (
    settled randbelow policy describe now sent "" external m r,
    settle randbelow policy now sent "" external m,
    rw (finish-own randbelow policy describe now sent "" external m r own),
    settled-receipt external call r got handed,
  )
  after_send-settles (auth_error reason) call r own got handed =
      let r' = record r { channels = mark_credentials_expired now reason m r.channels } in
      (
        settled randbelow policy describe now cancelled reason "" m r',
        settle randbelow policy now cancelled reason "" m,
        settle_outbox-own randbelow policy describe now cancelled reason m r' own,
        settled-unsent cancelled reason r' refl,
      )
  after_send-settles (permanent_error reason) call r own got handed = (
    settled randbelow policy describe now dead_letter reason "" m r,
    settle randbelow policy now dead_letter reason "" m,
    settle_outbox-own randbelow policy describe now dead_letter reason m r own,
    settled-unsent dead_letter reason r refl,
  )
  after_send-settles (other_error reason) call r own got handed = (
    settled randbelow policy describe now retry reason "" m r,
    settle randbelow policy now retry reason "" m,
    settle_outbox-own randbelow policy describe now retry reason m r own,
    settled-unsent retry reason r refl,
  )

  abbrev pub round : OutboxTable → List ChannelInit → Result OutboxError Round
  round t channels =
      complete_claimed randbelow policy describe find_binding resolve_attachments send now m t
        channels

  -- The round of a worker that still owns its message settles it, for every binding, every way that
  -- the attachments resolve and every answer of the channel: the message is written and no longer
  -- being sent, one notice is given if it is left dead or cancelled and none otherwise, and it counts
  -- as sent only on a receipt of the channel.
  pub round_settles :
      (t : OutboxTable) (channels : List ChannelInit)
      → IsOwn m t
      → (r : Round) × (s : ImOutboxMessage) × (round t channels ≡ ok r) × IsSettled send m t r s
  unfolding complete_claimed
  round_settles t channels own = elim (Option-cases (binding_ok m (find_binding m.session_id))) [
    | inl e ↦
        let r = fresh_round t channels in
        let why : String = "IM binding changed before outbound delivery" in
        (
          settled randbelow policy describe now cancelled why "" m r,
          settle randbelow policy now cancelled why "" m,
          rw (
            complete_claimed,
            e,
            finish-own randbelow policy describe now cancelled why "" m r own,
          ),
          settled-unsent cancelled why r refl,
        )
    | inr (b, e) ↦ elim (Result-cases (resolve_attachments m)) [
      | inl (why, f) ↦
          let r = fresh_round t channels in
          (
            settled randbelow policy describe now retry why "" m r,
            settle randbelow policy now retry why "" m,
            rw (
              complete_claimed,
              e,
              f,
              settle_outbox-own randbelow policy describe now retry why m r own,
            ),
            settled-unsent retry why r refl,
          )
      | inr (files, f) ↦
          let call =
            outbound randbelow policy describe find_binding resolve_attachments send b files m in
          let r : Round = record (fresh_round t channels) { handed = call ∷ [] } in
          let (r', s, q, h) = after_send-settles (send call) call r own refl (Memᴰ.head refl) in
          (r', s, rw (complete_claimed, e, f) q, h)
    ]
  ]
