-- ===== src/Delivery/OutboxWorker/Handed.antt =====
-- To whom a round of the outbox worker hands a message.
use velpos.Prelude.{
  ℕ, ◌≡◌, refl, inl, inr, String, true, Option, some, arith, List, [], ◌∷◌, Memᴰ, Option-cases,
  mem-cons_cases, subst,
}
use velpos.Prelude.Result.{Result, ok, err, Result-cases}
use velpos.Values.{Value}
use velpos.Binding.ImBinding.{ImBinding, channel_text}
use velpos.Binding.ChannelInit.{ChannelInit}
use velpos.Delivery.Outbox.{ImOutboxMessage}
use velpos.Delivery.Policy.{ImDeliveryPolicy}
use velpos.Delivery.InboxWorker.{is_bound}
use velpos.Delivery.OutboxTable.{OutboxTable, OutboxError}
use velpos.Delivery.OutboxTable.Queue.{save}
use velpos.Delivery.OutboxWorker.{
  OutboxOutcome, sent, retry, cancelled, dead_letter, Outbound, Sending, Round, fresh_round,
  binding_ok, settle, finish_outbox, settle_outbox, complete_claimed, mark_credentials_expired,
  after_send, outbound, tolerate_lost, finish_in_try, try_finish, receipt, auth_error,
  permanent_error, other_error,
}
use velpos.Delivery.OutboxWorker.Rounds.{binding_ok-some}

module _ (randbelow : ℕ → ℕ) (policy : ImDeliveryPolicy) (describe : OutboxError → String) where
  -- No write of an outcome hands anything to the facade.
  finish_outbox-handed :
      (now : ℕ) (outcome : OutboxOutcome) (message external : String) (m : ImOutboxMessage)
      (r : Round) {r' : Round}
      → finish_outbox randbelow policy describe now outcome message external m r ≡ ok r'
      → r'.handed ≡ r.handed
  unfolding finish_outbox
  finish_outbox-handed now outcome message external m r h =
      elim (Result-cases (save (settle randbelow policy now outcome message external m) r.table)) [
        | inl (e, q) ↦ absurd (ground arith)
        | inr (t, q) ↦ ground arith
      ]

  tolerate_lost-handed :
      (r : Round) (w : Result OutboxError Round) {r' : Round}
      → ((u : Round) → w ≡ ok u → u.handed ≡ r.handed)
      → tolerate_lost randbelow policy describe r w ≡ ok r'
      → r'.handed ≡ r.handed
  tolerate_lost-handed r (ok u) keeps h = keeps _ h
  tolerate_lost-handed r (err (OutboxError.lease_lost i k)) keeps h = ground arith
  tolerate_lost-handed r (err (OutboxError.not_found i)) keeps h = absurd (ground arith)
  tolerate_lost-handed r (err OutboxError.bad_route) keeps h = absurd (ground arith)
  tolerate_lost-handed r (err OutboxError.conflict) keeps h = absurd (ground arith)
  tolerate_lost-handed r (err (OutboxError.not_failed s)) keeps h = absurd (ground arith)

  settle_outbox-handed :
      (now : ℕ) (outcome : OutboxOutcome) (message : String) (m : ImOutboxMessage) (r : Round)
      {r' : Round}
      → settle_outbox randbelow policy describe now outcome message m r ≡ ok r'
      → r'.handed ≡ r.handed
  unfolding settle_outbox
  settle_outbox-handed now outcome message m r h =
      tolerate_lost-handed r (finish_outbox randbelow policy describe now outcome message "" m r)
        (λ u q. finish_outbox-handed now outcome message "" m r q) h

  finish_in_try-handed :
      (now : ℕ) (m : ImOutboxMessage) (r : Round) (w : Result OutboxError Round) {r' : Round}
      → ((u : Round) → w ≡ ok u → u.handed ≡ r.handed)
      → finish_in_try randbelow policy describe now m r w ≡ ok r'
      → r'.handed ≡ r.handed
  finish_in_try-handed now m r (ok u) keeps h = keeps _ h
  finish_in_try-handed now m r (err (OutboxError.lease_lost i k)) keeps h = ground arith
  finish_in_try-handed now m r (err (OutboxError.not_found i)) keeps h =
      settle_outbox-handed now retry _ m r h
  finish_in_try-handed now m r (err OutboxError.bad_route) keeps h =
      settle_outbox-handed now retry _ m r h
  finish_in_try-handed now m r (err OutboxError.conflict) keeps h =
      settle_outbox-handed now retry _ m r h
  finish_in_try-handed now m r (err (OutboxError.not_failed s)) keeps h =
      settle_outbox-handed now retry _ m r h

  try_finish-handed :
      (now : ℕ) (outcome : OutboxOutcome) (message external : String) (m : ImOutboxMessage)
      (r : Round) {r' : Round}
      → try_finish randbelow policy describe now outcome message external m r ≡ ok r'
      → r'.handed ≡ r.handed
  try_finish-handed now outcome message external m r h =
      finish_in_try-handed now (settle randbelow policy now outcome message external m) r
        (finish_outbox randbelow policy describe now outcome message external m r)
        (λ u q. finish_outbox-handed now outcome message external m r q) h

  after_send-handed :
      (now : ℕ) (answer : Sending) (m : ImOutboxMessage) (r : Round) {r' : Round}
      → after_send randbelow policy describe now answer m r ≡ ok r'
      → r'.handed ≡ r.handed
  after_send-handed now (receipt external) m r h = try_finish-handed now sent "" external m r h
  after_send-handed now (auth_error reason) m r h =
      settle_outbox-handed now cancelled reason m
        (record r { channels = mark_credentials_expired now reason m r.channels }) h
  after_send-handed now (permanent_error reason) m r h =
      settle_outbox-handed now dead_letter reason m r h
  after_send-handed now (other_error reason) m r h = settle_outbox-handed now retry reason m r h

  -- A message goes only over its own binding. What a round hands to the facade, whatever the queue
  -- is by then, goes over the binding that the session has at that moment, which is the one that
  -- the message was written for, of its channel type and bound; it carries the message's content,
  -- its route and its deduplication key.
  pub handed_to_own_binding :
      (find_binding : String → Option ImBinding)
      (resolve_attachments : ImOutboxMessage → Result String Value) (send : Outbound → Sending)
      (now : ℕ) (m : ImOutboxMessage) (t : OutboxTable) (channels : List ChannelInit) {r : Round}
      (call : Outbound)
      → complete_claimed randbelow policy describe find_binding resolve_attachments send now m t
          channels
        ≡ ok r
      → Memᴰ call r.handed
      → (find_binding m.session_id ≡ some call.binding)
        × (call.binding.id ≡ m.binding_id)
        × (channel_text call.binding.channel_type ≡ m.channel_type)
        × (is_bound call.binding.binding_status ≡ true)
        × (call.content ≡ m.content)
        × (call.route ≡ m.route)
        × (call.idempotency_key ≡ m.deduplication_key)
  unfolding complete_claimed
  handed_to_own_binding find_binding resolve_attachments send now m t channels {r} call h member =
      elim (Option-cases (binding_ok m (find_binding m.session_id))) [
        | inl e ↦
            let keeps =
              try_finish-handed now cancelled "IM binding changed before outbound delivery" "" m
                (fresh_round t channels) (rw (complete_claimed, e) at h) in
            elim (subst (Memᴰ call) keeps member) [ ]
        | inr (b, e) ↦
            let (f, i, c, o) = binding_ok-some m (find_binding m.session_id) e in
            elim (Result-cases (resolve_attachments m)) [
              | inl (why, q) ↦
                  let keeps =
                    settle_outbox-handed now retry why m (fresh_round t channels)
                      (rw (complete_claimed, e, q) at h) in
                  elim (subst (Memᴰ call) keeps member) [ ]
              | inr (files, q) ↦
                  let made =
                    outbound randbelow policy describe find_binding resolve_attachments send b files
                      m in
                  let r0 : Round = record (fresh_round t channels) { handed = made ∷ [] } in
                  let keeps =
                    after_send-handed now (send made) m r0 (rw (complete_claimed, e, q) at h) in
                  elim (mem-cons_cases (subst (Memᴰ call) keeps member)) [
                    | inl d ↦ rw d (f, i, c, o, refl, refl, refl)
                    | inr n ↦ elim n [ ]
                  ]
            ]
      ]
