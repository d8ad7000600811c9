-- ===== src/Query/Stream.antt =====
-- `SessionStreamConsumer.consume` of backend/application/session/session_stream_consumer.py, with
-- `convert_stream_message`. The stream is the list of what waiting for its next message gives; its
-- end is the end of the list. What is only recorded or announced is left out.
pub mod Outcome
pub mod Results
use velpos.Prelude.{
  ℕ, zero, suc, ◌+◌, ◌*◌, ◌/◌, max, String, Bool, true, false, Option, none, some, List, [], ◌∷◌,
  ◌&&◌, ◌||◌, not, ltb, leb, ◌==◌, nat_eq, text_eq, is_empty, if◌then◌else◌,
}
use velpos.Prelude.Result.{Result, ok, err, ◌>>=◌}
use velpos.Prelude.Dict
use velpos.Prelude.Dict.{Dict}
use velpos.Values.{Value, int, Runtime, ℤ, pos, negsuc}
use velpos.Session.Messages.{MessageType, system, user, assistant, tool_result, result, create}
use velpos.Session.{Session, SessionError, set_sdk_uuid_for_last_user_message}
use velpos.Session.Operations.{
  add_message, update_usage, initialize_usage, update_last_input_tokens, update_sdk_session_id,
}
use velpos.Query.Prepare.{QueryError, refused, recorder_failed, stream_failed}
use velpos.Query.Binding.{accept_or_reject_sdk_session_id}

-- A message dictionary of the gateway, one field for each key that is read: an empty text, `false`
-- or `none` where the key is missing. The two counts come together; `num_turns` is what
-- `msg_dict.get("num_turns") or content.get("num_turns") or 1` gives.
pub record StreamMessage : Type 0 where
  pub message_type : String
  pub content : Dict Value
  pub resume_failed : Bool
  pub sdk_user_message_uuid : String
  pub context_input_tokens : Option ℤ
  pub tokens : Option (ℤ × ℤ)
  pub num_turns : ℤ
  pub sdk_session_id : String

-- A wait: for a message, for longer than allowed (what the gateway then says of the process, of the
-- user's input and of background tasks comes with it), or for an exception of the stream.
pub data Arrival : Type 0 where
  message : (now : ℕ) (recorded saved : Bool) → StreamMessage → Arrival
  timeout : (alive waiting_for_user waiting_for_tasks recorded : Bool) → Arrival
  broken : Arrival

-- `MessageType(s)`, `none` where it raises
abbrev pub message_type_of : String → Option MessageType
message_type_of s =
    if s == "system"
    then some system
    else if s == "user"
    then some user
    else if s == "assistant"
    then some assistant
    else if s == "tool_result"
    then some tool_result
    else if s == "result"
    then some result
    else none

-- What the loop keeps between two messages, beside the session.
pub record Progress : Type 0 where
  pub saw_context_input_usage : Bool
  pub got_result : Bool
  pub silent_timeouts : ℕ

abbrev pub no_progress : Progress
no_progress = record { saw_context_input_usage = false; got_result = false; silent_timeouts = 0 }

-- `max(num_turns, 1)`
abbrev turns : ℤ → ℕ
turns (pos n) = max n 1
turns (negsuc n) = 1

-- `int(x * 2 / n)`, rounded towards zero. (The division is by floats, exact for counts under 2^53.)
abbrev halved : ℤ → ℕ → ℤ
halved (pos x) n = pos (x * 2 / n)
halved (negsuc x) n = elim (suc x * 2 / n) [ zero ↦ pos 0 | suc k ↦ negsuc k ]

unfoldable pub estimated_tokens : (input_tokens num_turns : ℤ) → ℤ
estimated_tokens input_tokens num_turns =
    if turns num_turns == 1 then input_tokens else halved input_tokens (turns num_turns + 1)

abbrev pub apply : Session → Result SessionError Session → Session × Result QueryError (Unit {0})
apply s (ok s') = (s', ok tt)
apply s (err e) = (s, err (refused e))

abbrev pub new_usage : (input_tokens output_tokens : ℤ) → Session → Result SessionError Session
new_usage input_tokens output_tokens s =
    if not (is_empty s.sdk_session_id) && s.usage.input_tokens == 0 && s.usage.output_tokens == 0
    then initialize_usage input_tokens output_tokens s
    else update_usage input_tokens output_tokens s

abbrev pub context_usage : (now : ℕ) → Bool → StreamMessage → (input_tokens : ℤ) → Session → Session
context_usage now saw m input_tokens s =
    if saw then s else update_last_input_tokens now (estimated_tokens input_tokens m.num_turns) s

abbrev pub with_tokens :
    (now : ℕ)
    → Bool
    → StreamMessage
    → Option (ℤ × ℤ)
    → Session
    → Session × Result QueryError (Unit {0})
with_tokens now saw m none s = (s, ok tt)
with_tokens now saw m (some (i, o)) s =
    let s' = context_usage now saw m i s in apply s' (new_usage i o s')

abbrev pub with_context : (now : ℕ) → Option ℤ → Session → Session
with_context now none s = s
with_context now (some n) s = update_last_input_tokens now n s

abbrev pub is_given {ℓ} : {A : Type ℓ} → Option A → Bool
is_given none = false
is_given (some a) = true

abbrev bound_or_raise : Session × Result (Unit {0}) Bool → Session × Result QueryError (Unit {0})
bound_or_raise (s, ok b) = (s, ok tt)
bound_or_raise (s, err x) = (s, err stream_failed)

module _ (py : Runtime) (owner : String → Option String) where
  abbrev pub with_binding :
      StreamMessage
      → Session × Result QueryError (Unit {0})
      → Session × Result QueryError (Unit {0})
  with_binding m (s, err e) = (s, err e)
  with_binding m (s, ok u) =
      if is_empty m.sdk_session_id
      then (s, ok tt)
      else bound_or_raise (accept_or_reject_sdk_session_id owner m.sdk_session_id s)

  abbrev pub with_uuid : StreamMessage → Session → Session
  with_uuid m s =
      if is_empty m.sdk_user_message_uuid
      then s
      else set_sdk_uuid_for_last_user_message py m.sdk_user_message_uuid s

  abbrev pub after_add :
      (now : ℕ) (recorded : Bool)
      → Progress
      → StreamMessage
      → Session
      → Session × Result QueryError (Unit {0})
  after_add now recorded p m s =
      if not recorded
      then (s, err recorder_failed)
      else with_binding m (
          with_tokens now (p.saw_context_input_usage || is_given m.context_input_tokens) m m.tokens
            (with_context now m.context_input_tokens s))

  abbrev added : Session → Result SessionError Session → Session
  added s (ok s') = s'
  added s (err e) = s

  -- One message of a known type: its clock, and whether the recorder and the broadcast go through.
  unfoldable pub take_message :
      (now : ℕ) (recorded : Bool)
      → Progress
      → MessageType
      → StreamMessage
      → Session
      → Session × Result QueryError (Unit {0})
  unfolding add_message
  take_message now recorded p t m s =
      after_add now recorded p m
        (with_uuid m (added s (add_message (some (create now t m.content)) s)))

  abbrev pub progress_after : Progress → StreamMessage → Progress
  progress_after p m = record {
    saw_context_input_usage = p.saw_context_input_usage || is_given m.context_input_tokens;
    got_result = p.got_result || m.message_type == "result";
    silent_timeouts = 0;
  }

  -- `_meta`: the only one the engine knows says that the old conversation could not be resumed.
  unfoldable pub take_meta :
      (saved : Bool) → StreamMessage → Session → Session × Result QueryError (Unit {0})
  unfolding update_sdk_session_id
  take_meta saved m s =
      if not m.resume_failed
      then (s, ok tt)
      else (update_sdk_session_id "" s, if saved then ok tt else err recorder_failed)

  -- What one arrival leaves: the session, and the next round's values, or what ends the loop.
  abbrev pub next :
      Progress → Session × Result QueryError (Unit {0}) → Session × Result QueryError Progress
  next p (s, ok u) = (s, ok p)
  next p (s, err e) = (s, err e)

  abbrev pub known :
      (now : ℕ) (recorded : Bool)
      → Progress
      → Option MessageType
      → StreamMessage
      → Session
      → Session × Result QueryError Progress
  known now recorded p none m s = (s, ok (record p { silent_timeouts = 0 }))
  known now recorded p (some t) m s = next (progress_after p m) (take_message now recorded p t m s)

  unfoldable pub arrive :
      (max_silent_timeouts : ℕ)
      → Progress
      → Arrival
      → Session
      → Session × Result QueryError Progress
  unfolding take_message take_meta
  arrive limit p (message now recorded saved m) s =
      if m.message_type == "_meta"
      then next (record p { silent_timeouts = 0 }) (take_meta saved m s)
      else known now recorded p (message_type_of m.message_type) m s
  arrive limit p (timeout alive waiting_for_user waiting_for_tasks recorded) s =
      let silent = p.silent_timeouts + 1 in
      if not alive || not recorded
      then (s, err stream_failed)
      else if ltb 0 limit && leb limit silent && not waiting_for_user && not waiting_for_tasks
      then (s, err stream_failed)
      else (s, ok (record p { silent_timeouts = silent }))
  arrive limit p broken s = (s, err stream_failed)

  -- The loop. Whether the last recorder call goes through is the argument.
  unfoldable pub consume_from :
      (max_silent_timeouts : ℕ) (recorded : Bool)
      → Progress
      → List Arrival
      → Session
      → Session × Result QueryError Bool
  unfolding arrive
  consume_from limit recorded p [] s =
      (s, if recorded then ok p.got_result else err recorder_failed)
  consume_from limit recorded p (a ∷ rest) s =
      let (s', r) = arrive limit p a s in
      elim r [ err e ↦ (s', err e) | ok p' ↦ consume_from limit recorded p' rest s' ]

  unfoldable pub consume :
      (max_silent_timeouts : ℕ) (recorded : Bool)
      → List Arrival
      → Session
      → Session × Result QueryError Bool
  unfolding consume_from
  consume limit recorded arrivals s = consume_from limit recorded no_progress arrivals s
