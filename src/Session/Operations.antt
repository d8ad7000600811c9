-- ===== src/Session/Operations.antt =====
-- The other mutators of `Session` in backend/domain/session/model/session.py.
use velpos.Prelude.{
  ℕ, String, true, false, Option, none, some, List, [], ◌∷◌, ◌++◌, ◌||◌, not, ◌==◌, nat_eq,
  if◌then◌else◌,
}
use velpos.Prelude.Result.{Result, ok, err}
use velpos.Prelude.Dict.{Dict}
use velpos.Values.{Value, str, ℤ, pos}
use velpos.Session.Messages.{Message, Usage, zero_usage, make_usage, system}
use velpos.Session.{
  Session, idle, compacting, SessionError, busy, null_message, null_usage, negative_tokens,
  usage_set, not_idle, not_compacting, is_running, is_idle, is_compacting,
}

unfoldable pub add_message : Option Message → Session → Result SessionError Session
add_message none s = err null_message
add_message (some m) s = ok (record s { messages = s.messages ++ m ∷ [] })

abbrev set_usage : Option Usage → Session → Result SessionError Session
set_usage none s = err negative_tokens
set_usage (some u) s = ok (record s { usage = u })

-- `_validate_token_counts` and the constructor of `Usage` refuse the same counts.
unfoldable pub update_usage :
    (input_tokens output_tokens : ℤ) → Session → Result SessionError Session
unfolding make_usage
update_usage input_tokens output_tokens s = set_usage (make_usage input_tokens output_tokens) s

unfoldable pub update_sdk_session_id : String → Session → Session
update_sdk_session_id sdk_session_id s = record s { sdk_session_id = sdk_session_id }

unfoldable pub update_last_input_tokens : (now : ℕ) → ℤ → Session → Session
update_last_input_tokens now input_tokens s = record s {
  last_input_tokens = input_tokens;
  updated_time = some now;
}

-- `dict(context) if context else None`
abbrev some_if_any : Option (Dict Value) → Option (Dict Value)
some_if_any none = none
some_if_any (some []) = none
some_if_any (some (x ∷ d)) = some (x ∷ d)

unfoldable pub update_pending_request_context : (now : ℕ) → Option (Dict Value) → Session → Session
update_pending_request_context now context s = record s {
  pending_request_context = some_if_any context;
  updated_time = some now;
}

unfoldable pub clear_pending_request_context : (now : ℕ) → Session → Session
clear_pending_request_context now s = record s {
  pending_request_context = none;
  updated_time = some now;
}

abbrev list_or_empty {ℓ} : {A : Type ℓ} → Option (List A) → List A
list_or_empty none = []
list_or_empty (some l) = l

unfoldable pub update_queued_command :
    (now : ℕ) (prompt : String)
    → Option (List String)
    → Option (List Value)
    → (client_message_id : String) → Session
    → Session
update_queued_command now prompt image_paths attachments client_message_id s = record s {
  queued_command = some (record {
    prompt = prompt;
    client_message_id = client_message_id;
    image_paths = list_or_empty image_paths;
    attachments = list_or_empty attachments;
  });
  updated_time = some now;
}

unfoldable pub clear_queued_command : (now : ℕ) → Session → Session
clear_queued_command now s = record s { queued_command = none; updated_time = some now }

unfoldable pub mark_cancel_requested : (now : ℕ) → Session → Session
mark_cancel_requested now s = record s { cancel_requested = true; updated_time = some now }

unfoldable pub clear_cancel_requested : (now : ℕ) → Session → Session
clear_cancel_requested now s = record s { cancel_requested = false; updated_time = some now }

unfoldable pub clear_context : (now : ℕ) → Session → Result SessionError Session
clear_context now s =
    if is_running s.status || is_compacting s.status
    then err busy
    else ok (record s {
      messages = [];
      usage = zero_usage;
      continue_conversation = false;
      sdk_session_id = "";
      last_input_tokens = pos 0;
      pending_request_context = none;
      queued_command = none;
      cancel_requested = false;
      trace_id = "";
      status = idle;
      updated_time = some now;
    })

unfoldable pub rename : (now : ℕ) → String → Session → Session
rename now name s = record s { name = name; updated_time = some now }

unfoldable pub change_model : (now : ℕ) → String → Session → Session
change_model now model s = record s { model = model; updated_time = some now }

unfoldable pub initialize_usage :
    (input_tokens output_tokens : ℤ) → Session → Result SessionError Session
unfolding make_usage
initialize_usage input_tokens output_tokens s =
    if not (s.usage.input_tokens == 0) || not (s.usage.output_tokens == 0)
    then err usage_set
    else set_usage (make_usage input_tokens output_tokens) s

unfoldable pub start_compact : Session → Result SessionError Session
start_compact s =
    if not (is_idle s.status) then err not_idle else ok (record s { status = compacting })

abbrev pub compact_marker : (now : ℕ) → Message
compact_marker now = record {
  message_type = system;
  content = ("subtype", str "── Conversation compacted ──") ∷ ("marker", str "compact") ∷ [];
  created_at = some now;
}

abbrev compact_with : (marker_now now : ℕ) → Option Usage → Session → Result SessionError Session
compact_with marker_now now none s = err null_usage
compact_with marker_now now (some u) s = ok (record s {
  messages = s.messages ++ compact_marker marker_now ∷ [];
  usage = u;
  continue_conversation = true;
  status = idle;
  updated_time = some now;
})

-- `marker_now` is the clock of the marker's `Message.create`.
unfoldable pub complete_compact :
    (marker_now now : ℕ) → Option Usage → Session → Result SessionError Session
complete_compact marker_now now usage s =
    if not (is_compacting s.status) then err not_compacting else compact_with marker_now now usage s

unfoldable pub fail_compact : Session → Result SessionError Session
fail_compact s =
    if not (is_compacting s.status) then err not_compacting else ok (record s { status = idle })
