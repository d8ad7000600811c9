-- ===== src/Query/Finish.antt =====
-- The end of a query: `_handle_result`, `_handle_error`, `_finalize_query` and the exception handling
-- of `run_claude_query` in backend/application/session/session_query_engine.py. Whether the session
-- is marked as cancelled, and whether a recorder, a save or a broadcast goes through, are arguments.
pub mod Settled
use velpos.Prelude.{
  ℕ, String, Bool, true, false, Option, none, some, ◌||◌, not, is_empty, if◌then◌else◌,
}
use velpos.Prelude.Result.{Result, ok, err}
use velpos.Session.{Session, SessionError, complete_query, fail_query}
use velpos.Session.Operations.{clear_cancel_requested}
use velpos.Query.Command.{Language, RunQueryCommand}
use velpos.Query.Prepare.{QueryError, failed, refused, type_error, recorder_failed}
use velpos.Query.Answer.{extract_assistant_text, result_failure_reason}

-- What a phase leaves: the session, the answer given to `on_assistant_response`, what it raised.
pub record Handled : Type 0 where
  pub session : Session
  pub outbound : Option String
  pub raised : Option QueryError

abbrev pub raised_unless : Bool → Option QueryError
raised_unless went_through = if went_through then none else some recorder_failed

abbrev quiet : Session → Option QueryError → Handled
quiet s raised = record { session = s; outbound = none; raised = raised }

abbrev pub text_if_any : String → Option String
text_if_any text = if is_empty text then none else some text

-- After `complete_query`: the answer goes out, where there is a callback, and is recorded.
abbrev answer : (recorded : Bool) → Session → Option String → Handled
answer recorded s none = quiet s (some type_error)
answer recorded s (some text) = record {
  session = s;
  outbound = text_if_any text;
  raised = raised_unless recorded;
}

module _ (py : Language) where
  abbrev complete : (has_callback recorded : Bool) → Session → Result SessionError Session → Handled
  complete has_callback recorded s (err e) = quiet s (some (refused e))
  complete has_callback recorded s (ok done) =
      if has_callback
      then answer recorded done (extract_assistant_text py done.messages)
      else quiet done (raised_unless recorded)

  unfoldable pub handle_result :
      (now : ℕ) (cancelled has_callback recorded : Bool) → Session → Handled
  unfolding clear_cancel_requested complete_query
  handle_result now cancelled has_callback recorded s =
      let reason = result_failure_reason py s in
      if cancelled
      then quiet (clear_cancel_requested now s) (raised_unless recorded)
      else if not (is_empty reason)
      then quiet s (some (failed reason))
      else complete has_callback recorded s (complete_query now s)

abbrev fail_with : (recorded : Bool) → Session → Result SessionError Session → Handled
fail_with recorded s (err e) = quiet s (some (refused e))
fail_with recorded s (ok s') = quiet s' (raised_unless recorded)

unfoldable pub handle_error : (now : ℕ) (cancelled recorded : Bool) → Session → Handled
unfolding clear_cancel_requested fail_query
handle_error now cancelled recorded s =
    if cancelled
    then quiet (clear_cancel_requested now s) (raised_unless recorded)
    else fail_with recorded s (fail_query s)

-- What the surroundings of one run do: the two lookups in `cancelled_sessions`, the callback, and
-- whether the recorders of the two phases go through.
pub record Surroundings : Type 0 where
  pub result_now : ℕ
  pub error_now : ℕ
  pub cancelled_at_result : Bool
  pub cancelled_at_error : Bool
  pub has_callback : Bool
  pub result_recorded : Bool
  pub error_recorded : Bool

-- `except Exception as e: await self._handle_error(ctx, e)`: what went out before is out.
abbrev caught : Surroundings → Handled → Handled
caught w h = elim h.raised [
  | none ↦ h
  | some e ↦ record (handle_error w.error_now w.cancelled_at_error w.error_recorded h.session) {
    outbound = h.outbound;
  }
]

-- The `try` of `run_claude_query`, from what `_execute_streaming` left.
unfoldable pub settle :
    Language
    → Surroundings
    → (cancelled_during_stream : Bool) → Session
    → Option QueryError
    → Handled
unfolding handle_result handle_error
settle py w cancelled_during_stream s (some e) = caught w (quiet s (some e))
settle py w true s none = quiet s none
settle py w false s none =
    caught w
      (handle_result py w.result_now w.cancelled_at_result w.has_callback w.result_recorded s)

-- What `_finalize_query` leaves: the session, the session's entry of `queued_messages`, the command
-- that it starts, whether it gave notice of the end, what it raised.
pub record Finalized : Type 0 where
  pub session : Session
  pub queued : Option RunQueryCommand
  pub started : Option RunQueryCommand
  pub notified : Bool
  pub raised : Option QueryError

abbrev broken : Session → Option RunQueryCommand → QueryError → Finalized
broken s queued e = record {
  session = s;
  queued = queued;
  started = none;
  notified = false;
  raised = some e;
}

-- The entry is taken out before the command's stored copy is cleared and the start is announced.
abbrev drain : (cleared : Bool) → Session → Option RunQueryCommand → Finalized
drain cleared s none = record {
  session = s;
  queued = none;
  started = none;
  notified = true;
  raised = none;
}
drain cleared s (some c) =
    if cleared
    then record { session = s; queued = none; started = some c; notified = true; raised = none }
    else broken s none recorder_failed

abbrev announce : (announced cleared : Bool) → Session → Option RunQueryCommand → Finalized
announce announced cleared s queued =
    if announced then drain cleared s queued else broken s queued recorder_failed

abbrev after_failed_save :
    (announced cleared : Bool)
    → Session
    → Option RunQueryCommand
    → Result SessionError Session
    → Finalized
after_failed_save announced cleared s queued (err e) = broken s queued (refused e)
after_failed_save announced cleared s queued (ok s') = announce announced cleared s' queued

-- `saved` and `saved_again`: the save of the session, and its repetition on a fresh connection.
unfoldable pub finalize_query :
    (cancelled saved saved_again announced cleared : Bool)
    → Session
    → Option RunQueryCommand
    → Finalized
unfolding fail_query
finalize_query cancelled saved saved_again announced cleared s queued =
    if cancelled
    then record { session = s; queued = queued; started = none; notified = true; raised = none }
    else if not (saved || saved_again)
    then after_failed_save announced cleared s queued (fail_query s)
    else announce announced cleared s queued
