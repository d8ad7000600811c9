-- ===== src/Query/Queue/Conserved.antt =====
-- What becomes of the messages that the engine's `queue_message` takes
-- (backend/application/session/session_query_engine.py).
use velpos.Prelude.{
  ℕ, suc, ◌+◌, String, Bool, List, [], ◌∷◌, ◌++◌, ◌≡◌, refl, arith, Option-cases, inl, inr,
  if◌then◌else◌, ap,
}
use velpos.Prelude.Result.{ok, Result-cases}
use velpos.Query.Command.{Language, RunQueryCommand, compose_prompt}
use velpos.Query.Queue.{
  State, entry, activate, queue_message, clear_queued_message, claim_queued_message, SteerReply,
  sent, no_run, client_error, settle_steer, cleanup_session_state, deactivate, drain_queue, abandon,
  Step, begin, queue, clear, claim, steer, clean, end, drain, give_up, Reachable, start, then_step,
}

module _ (p : RunQueryCommand → Bool) where
  -- How many commands of a list the predicate holds of.
  abbrev pub count : List RunQueryCommand → ℕ
  count [] = 0
  count (c ∷ cs) = if p c then suc (count cs) else count cs

  pub count-append : (xs ys : List RunQueryCommand) → count (xs ++ ys) ≡ count xs + count ys
  count-append [] ys = omega arith
  count-append (c ∷ cs) ys = ground (arith, count-append cs ys)

  -- Where a command that was taken may be.
  abbrev pub placed : State → ℕ
  placed s =
      count (entry s.queued) + count s.held + count s.started + count s.steered + count s.dropped

  abbrev pub Conserved : State → Type 0
  Conserved s = count s.accepted ≡ placed s

  queue_message-Conserved :
      (c : RunQueryCommand) (s : State) → Conserved s → Conserved (queue_message c s).1
  unfolding queue_message
  queue_message-Conserved c s h = elim (Option-cases s.queued) [
    | inl e ↦ ground (arith, h, e)
    | inr (d, e) ↦ ground (arith, h, e)
  ]

  clear-Conserved : (s : State) → Conserved s → Conserved (clear_queued_message s)
  unfolding clear_queued_message
  clear-Conserved s h = elim (Option-cases s.queued) [
    | inl e ↦ ground (arith, h, e)
    | inr (d, e) ↦ ground (arith, h, e)
  ]

  cleanup-Conserved : (s : State) → Conserved s → Conserved (cleanup_session_state s)
  unfolding cleanup_session_state
  cleanup-Conserved s h = elim (Option-cases s.queued) [
    | inl e ↦ ground (arith, h, e)
    | inr (d, e) ↦ ground (arith, h, e)
  ]

  drain_queue-Conserved :
      (cleared : Bool) (s : State) → Conserved s → Conserved (drain_queue cleared s)
  unfolding drain_queue
  drain_queue-Conserved cleared s h = elim (Option-cases s.queued) [
    | inl e ↦ ground (arith, h, e)
    | inr (d, e) ↦ ground (arith, h, e)
  ]

  claim-Conserved :
      (py : Language) (streaming : Bool) (c : RunQueryCommand) (prompt : String) (s t : State)
      → claim_queued_message py streaming s ≡ ok (c, prompt, t)
      → Conserved s
      → Conserved t
  unfolding claim_queued_message
  claim-Conserved py streaming c prompt s t e h = elim (Option-cases s.queued) [
    | inl n ↦ absurd (ground (arith, n))
    | inr (d, n) ↦ elim (Result-cases (compose_prompt py d)) [
      | inl (x, k) ↦ absurd (ground (arith, n, k))
      | inr (text, k) ↦ ground (arith, n, k, h)
    ]
  ]

  settle_steer-Conserved :
      (reply : SteerReply) (c : RunQueryCommand) (before after : List RunQueryCommand) (s : State)
      → s.held ≡ before ++ c ∷ after
      → Conserved s
      → Conserved (settle_steer reply c before after s)
  unfolding settle_steer
  settle_steer-Conserved sent c before after s e h =
      ground (arith, ap count e, count-append before (c ∷ after), count-append before after, h)
  settle_steer-Conserved client_error c before after s e h =
      ground (arith, ap count e, count-append before (c ∷ after), count-append before after, h)
  settle_steer-Conserved no_run c before after s e h = elim (Option-cases s.queued) [
    | inl n ↦
        ground (arith, n, ap count e, count-append before (c ∷ after), count-append before after, h)
    | inr (d, n) ↦
        ground (arith, n, ap count e, count-append before (c ∷ after), count-append before after, h)
  ]

  module _ (py : Language) where
    Step-Conserved : {s t : State} → Step py s t → Conserved s → Conserved t
    unfolding activate deactivate abandon
    Step-Conserved (begin ctx a d f) h = h
    Step-Conserved {s} (queue c) h = queue_message-Conserved c s h
    Step-Conserved {s} clear h = clear-Conserved s h
    Step-Conserved {s} {t} (claim streaming c prompt e) h =
        claim-Conserved py streaming c prompt s t e h
    Step-Conserved {s} (steer reply c before after e) h =
        settle_steer-Conserved reply c before after s e h
    Step-Conserved {s} clean h = cleanup-Conserved s h
    Step-Conserved (end a) h = h
    Step-Conserved {s} (drain cleared f) h = drain_queue-Conserved cleared s h
    Step-Conserved (give_up f) h = h

    -- In every interleaving of the stretches, each message that was taken is in exactly one place:
    -- it waits, a steer holds it, it was started, it was steered into the run, or it was dropped.
    -- Counted for an arbitrary predicate on messages, so that none is exchanged for another.
    pub Reachable-Conserved : {s : State} → Reachable py s → count s.accepted ≡ placed s
    Reachable-Conserved start = refl
    Reachable-Conserved (then_step r m) = Step-Conserved m (Reachable-Conserved r)
