-- ===== src/Query/Queue.antt =====
-- One session's entries of the engine's shared state and every stretch of code that changes them
-- under `queue_guard`: `run_claude_query`, `queue_message`, `clear_queued_message`,
-- `steer_queued_message`, `cleanup_session_state` and `_finalize_query` of
-- backend/application/session/session_query_engine.py, with `SessionExecutionState` of
-- session_execution_state.py. Between two stretches any other task may run.
pub mod Conserved
pub mod Rest
pub mod Mailbox
pub mod Replay
use velpos.Prelude.{
  ℕ, String, Bool, true, false, Option, none, some, List, [], ◌∷◌, ◌++◌, ◌||◌, not, ◌≡◌, or_text,
  if◌then◌else◌,
}
use velpos.Prelude.Result.{Result, ok, err}
use velpos.Values.{str, bool}
use velpos.Session.Messages.{Message, user, create as create_message}
use velpos.Query.Command.{Language, RunQueryCommand, PromptError, compose_prompt}
use velpos.Query.Prepare.{QueryContext, attachments_value}

-- `active` and `queued` are the entries of `active_contexts` and `queued_messages`; `detached`
-- says that `cleanup_session_state` took the entry of a run that still goes on; `finalizing` says
-- that a run has ended and its finalizer has not drained the second entry yet; `held` are
-- the commands that a `steer_queued_message` has claimed and not settled. The other fields record
-- what became of the commands that `queue_message` took.
pub record State : Type 0 where
  pub active : Option QueryContext
  pub detached : Bool
  pub finalizing : Bool
  pub queued : Option RunQueryCommand
  pub held : List RunQueryCommand
  pub accepted : List RunQueryCommand
  pub started : List RunQueryCommand
  pub steered : List RunQueryCommand
  pub dropped : List RunQueryCommand

abbrev pub fresh : State
fresh = record {
  active = none;
  detached = false;
  finalizing = false;
  queued = none;
  held = [];
  accepted = [];
  started = [];
  steered = [];
  dropped = [];
}

pub data QueueMessageOutcome : Type 0 where
  queued run_immediately : QueueMessageOutcome

abbrev pub entry {ℓ} : {A : Type ℓ} → Option A → List A
entry none = []
entry (some c) = c ∷ []

abbrev pub is_some {ℓ} : {A : Type ℓ} → Option A → Bool
is_some none = false
is_some (some a) = true

-- `active_contexts[session_id] = ctx`
unfoldable pub activate : QueryContext → State → State
activate ctx s = record s { active = some ctx }

unfoldable pub queue_message : RunQueryCommand → State → QueueMessageOutcome × State
queue_message c s = if not (is_some s.active) then (run_immediately, s) else (
  queued,
  record s { queued = some c; accepted = c ∷ s.accepted; dropped = entry s.queued ++ s.dropped },
)

unfoldable pub clear_queued_message : State → State
clear_queued_message s = record s { queued = none; dropped = entry s.queued ++ s.dropped }

pub data SteerError : Type 0 where
  no_queued_message run_finished : SteerError
  bad_prompt : PromptError → SteerError

abbrev claim_prompt :
    RunQueryCommand
    → State
    → Result PromptError String
    → Result SteerError (RunQueryCommand × String × State)
claim_prompt c s (err e) = err (bad_prompt e)
claim_prompt c s (ok prompt) = ok (c, prompt, record s { queued = none; held = c ∷ s.held })

abbrev claim_of :
    Language
    → (streaming : Bool) → Option RunQueryCommand
    → State
    → Result SteerError (RunQueryCommand × String × State)
claim_of py streaming none s = err no_queued_message
claim_of py streaming (some c) s =
    if not (is_some s.active) || not streaming
    then err run_finished
    else claim_prompt c s (compose_prompt py c)

-- The first phase of `steer_queued_message`; `streaming` is what the gateway says of the session.
unfoldable pub claim_queued_message :
    Language → (streaming : Bool) → State → Result SteerError (RunQueryCommand × String × State)
claim_queued_message py streaming s = claim_of py streaming s.queued s

-- How the gateway's `steer` ends: it sends the prompt, raises a `RuntimeError`, or lets an error of
-- the agent's client pass.
pub data SteerReply : Type 0 where
  sent no_run client_error : SteerReply

-- The message that a steered command leaves in the running session.
abbrev pub steered_message :
    (now : ℕ) (uuid run_id actual_prompt : String) → RunQueryCommand → Message
steered_message now uuid run_id actual_prompt c = create_message now user (
    ("message_id", str (or_text c.client_message_id uuid))
    ∷ ("run_id", str run_id)
    ∷ ("text", str actual_prompt)
    ∷ ("attachments", attachments_value c.attachments)
    ∷ ("steered", bool true)
    ∷ [])

-- `if session_id not in queued_messages: queued_messages[session_id] = queued`
abbrev restored : RunQueryCommand → State → State
restored c s =
    if is_some s.queued then record s { dropped = c ∷ s.dropped } else record s { queued = some c }

-- The second phase; `before` and `after` are the other commands that are held. Only a
-- `RuntimeError` becomes the exception that restores the command.
unfoldable pub settle_steer :
    SteerReply → RunQueryCommand → (before after : List RunQueryCommand) → State → State
settle_steer sent c before after s = record s { held = before ++ after; steered = c ∷ s.steered }
settle_steer no_run c before after s = restored c (record s { held = before ++ after })
settle_steer client_error c before after s = record s {
  held = before ++ after;
  dropped = c ∷ s.dropped;
}

-- `cleanup_session_state`, when the session is deleted. A run that is under way keeps its lock,
-- since `release` leaves a lock in use alone, and goes on.
unfoldable pub cleanup_session_state : State → State
cleanup_session_state s = record s {
  active = none;
  detached = is_some s.active || s.detached;
  queued = none;
  dropped = entry s.queued ++ s.dropped;
}

-- A run is under way, with or without its entry.
abbrev pub has_run : State → Bool
has_run s = is_some s.active || s.detached

-- The end of the run, which pops its own entry if that is still there.
unfoldable pub deactivate : State → State
deactivate s = record s { active = none; detached = false; finalizing = true }

-- `queued_messages.pop(session_id, None)` and the start of what it gives; `cleared` as in
-- `finalize_query`.
unfoldable pub drain_queue : (cleared : Bool) → State → State
drain_queue cleared s =
    if cleared
    then record s { finalizing = false; queued = none; started = entry s.queued ++ s.started }
    else record s { finalizing = false; queued = none; dropped = entry s.queued ++ s.dropped }

-- A finalizer that returns early, after a cancel, or raises before it drains.
unfoldable pub abandon : State → State
abandon s = record s { finalizing = false }

-- One stretch. A run starts under the session's lock, when no other run is under way or finalizing.
pub data Step (py : Language) : State → State → Type 0 where
  begin :
      {s : State} (ctx : QueryContext)
      → s.active ≡ none
      → s.detached ≡ false
      → s.finalizing ≡ false
      → Step py s (activate ctx s)
  queue : {s : State} (c : RunQueryCommand) → Step py s (queue_message c s).1
  clear : {s : State} → Step py s (clear_queued_message s)
  claim :
      {s t : State} (streaming : Bool) (c : RunQueryCommand) (prompt : String)
      → claim_queued_message py streaming s ≡ ok (c, prompt, t)
      → Step py s t
  steer :
      {s : State} (reply : SteerReply) (c : RunQueryCommand) (before after : List RunQueryCommand)
      → s.held ≡ before ++ c ∷ after
      → Step py s (settle_steer reply c before after s)
  clean : {s : State} → Step py s (cleanup_session_state s)
  end : {s : State} → has_run s ≡ true → Step py s (deactivate s)
  drain : {s : State} (cleared : Bool) → s.finalizing ≡ true → Step py s (drain_queue cleared s)
  give_up : {s : State} → s.finalizing ≡ true → Step py s (abandon s)

pub data Reachable (py : Language) : State → Type 0 where
  start : Reachable py fresh
  then_step : {s t : State} → Reachable py s → Step py s t → Reachable py t
