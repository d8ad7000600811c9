-- ===== src/Query/Queue/Mailbox.antt =====
-- A session's queue as one mailbox of the run: the abstract view of `queue_message` and of the two
-- stretches that end a run in backend/application/session/session_query_engine.py.
use velpos.Prelude.{
  Bool, true, false, Option, none, some, List, [], ◌∷◌, ◌++◌, ◌≡◌, refl, arith, ap, Bool-cases, inl,
  inr, if◌then◌else◌,
}
use velpos.Query.Command.{RunQueryCommand}
use velpos.Query.Prepare.{QueryContext}
use velpos.Query.Queue.{
  State, fresh, entry, is_some, activate, queued, run_immediately, queue_message, deactivate,
  drain_queue,
}

-- The mailbox holds the latest message that came while it was open, and hands it over when it is
-- closed, in one step.
pub record Mailbox : Type 0 where
  pub is_open : Bool
  pub waiting : Option RunQueryCommand
  pub delivered : List RunQueryCommand

pub data Event : Type 0 where
  opened closed : Event
  put : RunQueryCommand → Event

unfoldable pub put_in : RunQueryCommand → Mailbox → Mailbox
put_in c m = if m.is_open then record m { waiting = some c } else m

unfoldable pub close : Mailbox → Mailbox
close m = record m { is_open = false; waiting = none; delivered = entry m.waiting ++ m.delivered }

abbrev empty_mailbox : Mailbox
empty_mailbox = record { is_open = false; waiting = none; delivered = [] }

-- What a history, the newest event first, leaves in the mailbox.
unfoldable pub mailbox_after : List Event → Mailbox
unfolding put_in close
mailbox_after [] = empty_mailbox
mailbox_after (opened ∷ es) = record (mailbox_after es) { is_open = true }
mailbox_after (put c ∷ es) = put_in c (mailbox_after es)
mailbox_after (closed ∷ es) = close (mailbox_after es)

-- The histories of runs and messages that nobody clears, steers, cancels or deletes. The drain is no event.
pub data History : State → List Event → Type 0 where
  fresh_state : History fresh []
  begins :
      {s : State} {es : List Event} (ctx : QueryContext)
      → History s es
      → s.active ≡ none
      → s.finalizing ≡ false
      → History (activate ctx s) (opened ∷ es)
  queues :
      {s : State} {es : List Event} (c : RunQueryCommand)
      → History s es
      → History (queue_message c s).1 (put c ∷ es)
  ends :
      {s : State} {es : List Event}
      → History s es
      → is_some s.active ≡ true
      → History (deactivate s) (closed ∷ es)
  drains :
      {s : State} {es : List Event}
      → History s es
      → s.finalizing ≡ true
      → History (drain_queue true s) es

-- A message that the finalizer is going to start counts as handed over.
abbrev mailbox_of : State → Mailbox
mailbox_of s = record {
  is_open = is_some s.active;
  waiting = if s.finalizing then none else s.queued;
  delivered = if s.finalizing then entry s.queued ++ s.started else s.started;
}

History-closed :
    {s : State} {es : List Event} → History s es → is_some s.active ≡ true → s.finalizing ≡ false
unfolding activate queue_message deactivate drain_queue
History-closed fresh_state a = refl
History-closed (begins ctx h n f) a = f
History-closed {s} (queues {s = s'} c h) a = elim (Bool-cases (is_some s'.active)) [
  | inl e ↦ ground (arith, e, History-closed h e)
  | inr e ↦ absurd (ground (arith, e, a))
]
History-closed (ends h e) a = absurd (ground arith)
History-closed (drains h f) a = refl

History-mailbox : {s : State} {es : List Event} → History s es → mailbox_of s ≡ mailbox_after es
unfolding activate queue_message deactivate drain_queue mailbox_after put_in close
History-mailbox fresh_state = refl
History-mailbox (begins ctx h n f) = ground (arith, f, History-mailbox h)
History-mailbox (queues {s = s'} c h) = elim (Bool-cases (is_some s'.active)) [
  | inl e ↦ ground (arith, e, History-closed h e, History-mailbox h)
  | inr e ↦ ground (arith, e, History-mailbox h)
]
History-mailbox (ends h e) = ground (arith, e, History-closed h e, History-mailbox h)
History-mailbox (drains h f) = ground (arith, f, History-mailbox h)

-- The engine's queue is such a mailbox. After every history of runs and queued messages, a message
-- is taken exactly when the mailbox is open; where no finalizer is under way the waiting message and
-- the started ones are the mailbox's, and while one is, the message that it is to start counts as
-- handed over.
pub History-refines :
    {s : State} {es : List Event}
    → History s es
    → (c : RunQueryCommand)
    → ((queue_message c s).0 ≡ (if (mailbox_after es).is_open then queued else run_immediately))
      × ((mailbox_after es).waiting ≡ (if s.finalizing then none else s.queued))
      × ((mailbox_after es).delivered
          ≡ (if s.finalizing then entry s.queued ++ s.started else s.started))
unfolding queue_message
History-refines {s} {es} h c =
    let e : mailbox_of s ≡ mailbox_after es = History-mailbox h in
    (
      ground (arith, ap (λ (m : Mailbox). m.is_open) e),
      ground (arith, ap (λ (m : Mailbox). m.waiting) e),
      ground (arith, ap (λ (m : Mailbox). m.delivered) e),
    )
