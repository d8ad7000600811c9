-- ===== src/Query/Prepare.antt =====
-- The first phase of a query in backend/application/session/session_query_engine.py: the check for a
-- request that was already answered, and `_prepare_query`. What `find_by_id` gives is an argument.
pub mod Once
pub mod Stands
pub mod Running
pub mod Tagged
use velpos.Prelude.{
  ℕ, zero, suc, String, Bool, true, false, Option, none, some, List, [], ◌∷◌, ◌++◌, ◌&&◌, ◌||◌, not,
  map, drop, get_elem?, ◌==◌, text_eq, is_empty, or_text, ◌<>◌, starts_with, if◌then◌else◌,
}
use velpos.Prelude.Result.{Result, ok, err, ◌>>=◌, ◌>>◌}
use velpos.Prelude.Dict
use velpos.Prelude.Dict.{Dict}
use velpos.Values.{Value, str, bool, arr, no_items, obj, of_list, of_dict}
use velpos.Session.Messages.{Message, is_user, MessageType, user, result, create as create_message}
use velpos.Session.{Session, SessionError, start_query}
use velpos.Session.Operations.{add_message, clear_cancel_requested}
use velpos.Query.Command.{Language, RunQueryCommand, PromptError, compose_prompt, get}

-- What a query raises. `failed` is a `BusinessException` with its text; the last three come from a
-- message that is not as expected, from the agent's stream and from a recorder or broadcast.
pub data QueryError : Type 0 where
  not_found id_conflict : QueryError
  type_error stream_failed recorder_failed : QueryError
  bad_prompt : PromptError → QueryError
  refused : SessionError → QueryError
  failed : String → QueryError

-- `_QueryContext`, without the step of the recorder
pub record QueryContext : Type 0 where
  pub session : Session
  pub command : RunQueryCommand
  pub run_id : String
  pub actual_prompt : String
  pub message_id : String
  pub cancelled_during_stream : Bool

-- `value == message_id`, of a key that may be missing
abbrev equals_text : Option Value → String → Bool
equals_text (some (str s)) t = s == t
equals_text v t = false

unfoldable pub is_message : (message_id : String) → Message → Bool
unfolding Dict.lookup
is_message message_id m =
    is_user m.message_type && equals_text (Dict.lookup "message_id" m.content) message_id

abbrev next : Option ℕ → Option ℕ
next none = none
next (some i) = some (suc i)

unfoldable pub find_user_message_index : List Message → (message_id : String) → Option ℕ
unfolding is_message
find_user_message_index [] message_id = none
find_user_message_index (m ∷ ms) message_id =
    if is_message message_id m then some zero else next (find_user_message_index ms message_id)

abbrev pub attachments_value : List (Dict Value) → Value
attachments_value attachments = arr (of_list (map (λ d. obj (of_dict d)) attachments))

abbrev pub is_result : MessageType → Bool
is_result result = true
is_result _ = false

-- The loop over the messages after the matching one.
unfoldable pub answered : List Message → Bool
answered [] = false
answered (m ∷ ms) =
    if is_user m.message_type then false else if is_result m.message_type then true else answered ms

abbrev pub embed : {A : Type 0} → Result SessionError A → Result QueryError A
embed (ok a) = ok a
embed (err e) = err (refused e)

abbrev composed : Result PromptError String → Result QueryError String
composed (ok s) = ok s
composed (err e) = err (bad_prompt e)

-- The message that `_prepare_query` adds for a request.
abbrev pub user_message :
    (now : ℕ) (message_id run_id actual_prompt : String) → RunQueryCommand → Message
user_message now message_id run_id actual_prompt c = create_message now user (
    ("message_id", str message_id)
    ∷ ("run_id", str run_id)
    ∷ ("text", str actual_prompt)
    ∷ ("raw_prompt", str c.prompt)
    ∷ ("attachments", attachments_value c.attachments)
    ∷ [])

-- `if session.cancel_requested: session.clear_cancel_requested()`
abbrev pub without_cancel : (now : ℕ) → Session → Session
without_cancel now s = if s.cancel_requested then clear_cancel_requested now s else s

module _ (py : Language) where
  unfoldable pub same_prompt : Message → (prompt : String) → Bool
  unfolding Dict.lookup starts_with
  same_prompt m prompt =
      let existing_text = py.runtime.str_of (get "text" (str "") m.content) in
      let raw = py.runtime.str_of (get "raw_prompt" (str existing_text) m.content) in
      raw == prompt || existing_text == prompt || starts_with (prompt <> "\n\n[") existing_text

  unfoldable pub validate_duplicate_payload :
      Message → RunQueryCommand → Result QueryError (Unit {0})
  unfolding Dict.lookup
  validate_duplicate_payload m c =
      let existing = get "attachments" (arr no_items) m.content in
      if not (same_prompt m c.prompt) || not (py.same existing (attachments_value c.attachments))
      then err id_conflict
      else ok tt

  abbrev pub validate_at : Option Message → RunQueryCommand → Result QueryError (Unit {0})
  validate_at none c = ok tt
  validate_at (some m) c = validate_duplicate_payload m c

  abbrev acknowledge_at : Option ℕ → List Message → RunQueryCommand → Result QueryError Bool
  acknowledge_at none messages c = ok false
  acknowledge_at (some i) messages c = do
    validate_at (get_elem? messages i) c
    ok (answered (drop (suc i) messages))

  -- Whether the request was answered before. If it was, the engine says so and does nothing else.
  unfoldable pub acknowledge_terminal_duplicate :
      Option Session → RunQueryCommand → Result QueryError Bool
  acknowledge_terminal_duplicate found c =
      if is_empty c.client_message_id then ok false else elim found [
        | none ↦ err not_found
        | some s ↦
            acknowledge_at (find_user_message_index s.messages c.client_message_id) s.messages c
      ]

  abbrev with_message :
      (now : ℕ) (message_id run_id actual_prompt : String)
      → RunQueryCommand
      → Option ℕ
      → Session
      → Result QueryError Session
  with_message now message_id run_id actual_prompt c none s =
      embed (add_message (some (user_message now message_id run_id actual_prompt c)) s)
  with_message now message_id run_id actual_prompt c (some i) s = do
    validate_at (get_elem? s.messages i) c
    ok s

  -- `run_id` and `uuid` are what `uuid4` gives, the first two clocks those of the two calls.
  unfoldable pub prepare_query :
      (now message_now : ℕ) (run_id uuid : String)
      → Option Session
      → RunQueryCommand
      → Result QueryError QueryContext
  unfolding start_query add_message clear_cancel_requested create_message
  prepare_query now message_now run_id uuid none c = err not_found
  prepare_query now message_now run_id uuid (some found) c = do
    actual_prompt ← composed (compose_prompt py c)
    started ← embed (start_query (without_cancel now found))
    let message_id = or_text c.client_message_id uuid
    session ←
        with_message message_now message_id run_id actual_prompt c
          (find_user_message_index started.messages message_id) started
    ok (record {
      session = session;
      command = c;
      run_id = run_id;
      actual_prompt = actual_prompt;
      message_id = message_id;
      cancelled_during_stream = false;
    })
