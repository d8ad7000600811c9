-- ===== src/Session.antt =====
-- The session aggregate: backend/domain/session/model/session.py and the values it holds. An
-- identifier is what `uuid4` gave, and `now` is what the method's call of `datetime.now()` returns;
-- a time is a count of microseconds.
pub mod Messages
pub mod Operations
pub mod Rewind
pub mod Diagram
mod Examples
use velpos.Prelude.{
  ℕ, zero, suc, String, Bool, true, false, Option, none, some, List, [], ◌∷◌, ◌++◌, ◌&&◌, ◌||◌, not,
  ◌==◌, ◌!=◌, nat_eq, is_empty, or_text, length, get_elem?, take, ltb, if◌then◌else◌,
}
use velpos.Prelude.Result.{Result, ok, err, ◌>>=◌}
use velpos.Prelude.Dict
use velpos.Prelude.Dict.{Dict}
use velpos.Values.{Value, str, Runtime, truthy, ℤ, pos, negsuc}
use velpos.Session.Messages.{Message, Usage, zero_usage, is_user, text_of}

pub data SessionStatus : Type 0 where
  idle running error compacting : SessionStatus

-- The queued command, in the shape that `_normalize_queued_command` gives it.
pub record QueuedCommand : Type 0 where
  pub prompt : String
  pub client_message_id : String
  pub image_paths : List String
  pub attachments : List Value

pub record Session : Type 0 where
  pub session_id : String
  pub model : String
  pub status : SessionStatus
  pub messages : List Message
  pub usage : Usage
  pub continue_conversation : Bool
  pub project_id : String
  pub project_dir : String
  pub name : String
  pub sdk_session_id : String
  pub last_input_tokens : ℤ
  pub pending_request_context : Option (Dict Value)
  pub queued_command : Option QueuedCommand
  pub cancel_requested : Bool
  pub trace_id : String
  pub updated_time : Option ℕ

-- The `ValueError`s, by what is wrong.
pub data SessionError : Type 0 where
  already_running not_running not_idle not_compacting null_message null_usage : SessionError
  invalid_index : ℤ → SessionError
  not_a_user_message : ℕ → SessionError
  negative_tokens busy usage_set : SessionError

abbrev pub is_running : SessionStatus → Bool
is_running running = true
is_running _ = false

abbrev pub is_idle : SessionStatus → Bool
is_idle idle = true
is_idle _ = false

abbrev pub is_compacting : SessionStatus → Bool
is_compacting compacting = true
is_compacting _ = false

unfoldable pub create :
    (session_id : String) (now : ℕ) (model project_id project_dir trace_id : String) → Session
create session_id now model project_id project_dir trace_id = record {
  session_id = session_id;
  model = or_text model "default";
  status = idle;
  messages = [];
  usage = zero_usage;
  continue_conversation = false;
  project_id = project_id;
  project_dir = project_dir;
  name = "";
  sdk_session_id = "";
  last_input_tokens = pos 0;
  pending_request_context = none;
  queued_command = none;
  cancel_requested = false;
  trace_id = trace_id;
  updated_time = some now;
}

unfoldable pub start_query : Session → Result SessionError Session
start_query s =
    if is_running s.status || is_compacting s.status
    then err already_running
    else ok (record s { status = running })

unfoldable pub finish_running : (now : ℕ) → Session → Session
finish_running now s = record s {
  status = idle;
  continue_conversation = true;
  updated_time = some now;
}

unfoldable pub complete_query : (now : ℕ) → Session → Result SessionError Session
unfolding finish_running
complete_query now s =
    if not (is_running s.status) then err not_running else ok (finish_running now s)

-- The loop over `range(len(messages) - 1, -1, -1)`, with `n` indices left.
unfoldable pub last_user_index : List Message → (n : ℕ) → Option ℕ
last_user_index messages zero = none
last_user_index messages (suc n) =
    let rest = last_user_index messages n in
    elim (get_elem? messages n) [
      | none ↦ rest
      | some m ↦ if is_user m.message_type then some n else rest
    ]

abbrev prompt_at : List Message → ℕ → Value
prompt_at messages i = elim (get_elem? messages i) [ none ↦ str "" | some m ↦ text_of m ]

abbrev cut_at : Option ℕ → Session → Value × Session
cut_at none s = (str "", s)
cut_at (some i) s = (prompt_at s.messages i, record s { messages = take i s.messages })

unfoldable pub cancel_query : (now : ℕ) → Session → Result SessionError (Value × Session)
unfolding finish_running last_user_index
cancel_query now s =
    if not (is_running s.status || is_idle s.status)
    then err not_running
    else let s' = if is_running s.status then finish_running now s else s in
      ok (cut_at (last_user_index s'.messages (length s'.messages)) s')

abbrev rewind_at : (now : ℕ) → ℕ → Option Message → Session → Result SessionError (Value × Session)
rewind_at now i none s = err (invalid_index (pos i))
rewind_at now i (some m) s =
    if not (is_user m.message_type)
    then err (not_a_user_message i)
    else ok (
      text_of m,
      record s {
        messages = take i s.messages;
        continue_conversation = true;
        updated_time = some now;
      },
    )

abbrev rewind_index : (now : ℕ) → ℤ → Session → Result SessionError (Value × Session)
rewind_index now (negsuc n) s = err (invalid_index (negsuc n))
rewind_index now (pos i) s = rewind_at now i (get_elem? s.messages i) s

unfoldable pub rewind_to :
    (now : ℕ) (user_message_index : ℤ) → Session → Result SessionError (Value × Session)
rewind_to now user_message_index s =
    if not (is_idle s.status) then err not_idle else rewind_index now user_message_index s

-- A user message whose content has no identifier of the SDK's yet.
abbrev pub awaits_uuid : Runtime → Message → Bool
awaits_uuid py m =
    is_user m.message_type
    && not (elim (Dict.lookup "sdk_user_message_uuid" m.content) [
      | none ↦ false
      | some v ↦ truthy py v
    ])

abbrev pub with_uuid : String → Message → Message
with_uuid uuid m = record m { content = Dict.insert "sdk_user_message_uuid" (str uuid) m.content }

-- The loop over `reversed(messages)`: whether a message was changed comes with the list.
unfoldable pub set_last : Runtime → String → List Message → Bool × List Message
set_last py uuid [] = (false, [])
set_last py uuid (m ∷ ms) =
    let (found, rest) = set_last py uuid ms in
    if found
    then (true, m ∷ rest)
    else if awaits_uuid py m
    then (true, with_uuid uuid m ∷ rest)
    else (false, m ∷ rest)

unfoldable pub set_sdk_uuid_for_last_user_message : Runtime → String → Session → Session
unfolding set_last
set_sdk_uuid_for_last_user_message py uuid s = record s {
  messages = (set_last py uuid s.messages).1;
}

unfoldable pub fail_query : Session → Result SessionError Session
fail_query s =
    if not (is_running s.status) then err not_running else ok (record s { status = error })
