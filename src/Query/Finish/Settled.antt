-- ===== src/Query/Finish/Settled.antt =====
-- How a run of backend/application/session/session_query_engine.py leaves its session and the queue.
use velpos.Prelude.{
  String, Bool, false, Option, none, some, ◌&&◌, ◌||◌, ◌≡◌, is_empty, arith, Bool-cases,
  Option-cases, inl, inr, if◌then◌else◌,
}
use velpos.Session.{
  Session, SessionStatus, not_running, running, idle, error, complete_query, fail_query,
  finish_running, is_running,
}
use velpos.Session.Operations.{clear_cancel_requested}
use velpos.Query.Command.{Language, RunQueryCommand}
use velpos.Query.Prepare.{QueryError, refused}
use velpos.Query.Answer.{extract_assistant_text, result_failure_reason}
use velpos.Query.Finish.{Surroundings, settle, handle_result, handle_error, finalize_query}

abbrev succeeded : Option QueryError → String → Bool
succeeded none reason = is_empty reason
succeeded (some e) reason = false

module _ (py : Language) (w : Surroundings) where
  -- In a run that nobody cancels, whatever the stream, the recorders and the callback do, the
  -- session ends idle if the stream raised nothing and the last result is no failure, and in error
  -- otherwise.
  pub settle-status :
      (s : Session) (raised : Option QueryError)
      → s.status ≡ running
      → w.cancelled_at_result ≡ false
      → w.cancelled_at_error ≡ false
      → (settle py w false s raised).session.status
        ≡ (if succeeded raised (result_failure_reason py s) then idle else error)
  unfolding settle handle_result handle_error complete_query fail_query finish_running
      clear_cancel_requested
  settle-status s none r a b = elim (Bool-cases (is_empty (result_failure_reason py s))) [
    | inl e ↦ elim (Option-cases (extract_assistant_text py s.messages)) [
      | inl x ↦ ground (arith, r, a, b, e, x)
      | inr (t, x) ↦ ground (arith, r, a, b, e, x)
    ]
    | inr e ↦ ground (arith, r, a, b, e)
  ]
  settle-status s (some e) r a b = ground (arith, r, a, b)

settled : (b : Bool) (t : SessionStatus) → t ≡ (if b then idle else error) → is_running t ≡ false
settled b t h = ground (arith, h)

finalize_query-entry :
    (saved saved_again announced cleared : Bool) (s : Session) (queued : Option RunQueryCommand)
    → is_running s.status ≡ false
    → ((finalize_query false saved saved_again announced cleared s queued).queued
        ≡ (if (saved || saved_again) && announced then none else queued))
      × ((finalize_query false saved saved_again announced cleared s queued).started
          ≡ (if (saved || saved_again) && announced && cleared then queued else none))
unfolding finalize_query fail_query
finalize_query-entry saved saved_again announced cleared s none h =
    (ground (arith, h), ground (arith, h))
finalize_query-entry saved saved_again announced cleared s (some c) h =
    (ground (arith, h), ground (arith, h))

finalize_query-lost :
    (announced cleared : Bool) (s : Session) (queued : Option RunQueryCommand)
    → is_running s.status ≡ false
    → ((finalize_query false false false announced cleared s queued).notified ≡ false)
      × ((e : QueryError) × ((finalize_query false false false announced cleared s queued).raised
            ≡ some e))
unfolding finalize_query fail_query
finalize_query-lost announced cleared s queued h =
    (ground (arith, h), (refused not_running, ground (arith, h)))

module _ (py : Language) (w : Surroundings) where
  -- A run that nobody cancels takes the waiting message off its place exactly when a save of the
  -- session and the announcement go through, and starts it exactly when the clearing of the stored
  -- copy goes through as well: if only the clearing fails, the message is neither kept nor started.
  pub settle-finalize_query :
      (s : Session) (raised : Option QueryError) (saved saved_again announced cleared : Bool)
      (queued : Option RunQueryCommand)
      → s.status ≡ running
      → w.cancelled_at_result ≡ false
      → w.cancelled_at_error ≡ false
      → let done = (settle py w false s raised).session in
        let f = finalize_query false saved saved_again announced cleared done queued in
        (f.queued ≡ (if (saved || saved_again) && announced then none else queued))
        × (f.started ≡ (if (saved || saved_again) && announced && cleared then queued else none))
  settle-finalize_query s raised saved saved_again announced cleared queued r a b =
      finalize_query-entry saved saved_again announced cleared _ queued
        (settled _ _ (settle-status py w s raised r a b))

  -- If neither save of a run that nobody cancels goes through, the finalizer raises: it marks a
  -- session as failed that is no longer running, and nobody is told that the query has finished.
  pub settle-unsaved :
      (s : Session) (raised : Option QueryError) (announced cleared : Bool)
      (queued : Option RunQueryCommand)
      → s.status ≡ running
      → w.cancelled_at_result ≡ false
      → w.cancelled_at_error ≡ false
      → let done = (settle py w false s raised).session in
        let f = finalize_query false false false announced cleared done queued in
        (f.notified ≡ false) × ((e : QueryError) × (f.raised ≡ some e))
  settle-unsaved s raised announced cleared queued r a b =
      finalize_query-lost announced cleared _ queued
        (settled _ _ (settle-status py w s raised r a b))
