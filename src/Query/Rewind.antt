-- ===== src/Query/Rewind.antt =====
-- `cancel_query`, `rewind_to_message_id` and `rewind_to_message` of
-- backend/application/session/session_query_engine.py, from the point where the session is loaded.
-- What the agent's gateway answers and whether the saves go through are arguments.
pub mod Synced
use velpos.Prelude.{
  ℕ, zero, suc, ◌+◌, String, Bool, true, false, Option, none, some, List, [], ◌∷◌, ◌&&◌, not, drop,
  is_empty, or_else, if◌then◌else◌,
}
use velpos.Prelude.Result.{Result, ok, err, ◌>>=◌}
use velpos.Prelude.Dict
use velpos.Values.{Value, str, Runtime, truthy, ℤ, pos, negsuc}
use velpos.Session.Messages.{Message, is_user, text_of}
use velpos.Session.{Session, SessionError, cancel_query as cancel_session, rewind_to}
use velpos.Query.Command.{get}
use velpos.Query.Prepare.{
  QueryError, not_found, refused, recorder_failed, failed, find_user_message_index,
}
use velpos.Query.Binding.{accept_or_reject_sdk_session_id}

-- One `/rewind` sent to the agent: the conversations that its messages name, and whether it raises.
pub record RewindReply : Type 0 where
  pub sdk_session_ids : List String
  pub breaks : Bool

-- The last conversation that is named.
abbrev pub last_named : List String → String → String
last_named [] sid = sid
last_named (s ∷ rest) sid = last_named rest (if is_empty s then sid else s)

-- The loop `for _ in range(rewind_count)`: how many were sent, and the conversation named last.
unfoldable pub send_rewinds : (left : ℕ) → (ℕ → RewindReply) → String → ℕ × String
send_rewinds zero replies sid = (0, sid)
send_rewinds (suc n) replies sid =
    let named = last_named (replies n).sdk_session_ids sid in
    let (sent, last) = send_rewinds n replies named in
    if (replies n).breaks then (1, named) else (suc sent, last)

-- `message.content.get(key, "")` of the last user message, if there is one
unfoldable pub last_user_content : String → List Message → Option Value
unfolding Dict.lookup
last_user_content key [] = none
last_user_content key (m ∷ ms) =
    let rest = last_user_content key ms in
    elim rest [
      | some v ↦ some v
      | none ↦ if is_user m.message_type then some (get key (str "") m.content) else none
    ]

abbrev pub last_user_value : String → List Message → Value
last_user_value key messages = or_else (last_user_content key messages) (str "")

abbrev pub count_users : List Message → ℕ
count_users [] = 0
count_users (m ∷ ms) = if is_user m.message_type then suc (count_users ms) else count_users ms

-- What a rewind leaves: the session, the text for the input field, the number of `/rewind`s that were
-- sent, and the checkpoint that the files are taken back to.
pub record Rewound : Type 0 where
  pub session : Session
  pub prompt : Value
  pub sent : ℕ
  pub files_to : Option Value

abbrev pub users_from : ℤ → List Message → ℕ
users_from (pos i) messages = count_users (drop i messages)
users_from (negsuc i) messages = 0

module _ (py : Runtime) (owner : String → Option String) where
  abbrev pub bind_named : String → Session → Session
  bind_named sid s = if is_empty sid then s else (accept_or_reject_sdk_session_id owner sid s).0

  abbrev checkpoint : List Message → Option Value
  checkpoint messages =
      let uuid = last_user_value "sdk_user_message_uuid" messages in
      if truthy py uuid then some uuid else none

  abbrev pub after_rewind :
      (connected : Bool) → (ℕ → RewindReply) → (rewind_count : ℕ) → Value × Session → Rewound
  after_rewind false replies n (prompt, s) = record {
    session = s;
    prompt = prompt;
    sent = 0;
    files_to = none;
  }
  after_rewind true replies n (prompt, s) =
      let (sent, sid) = send_rewinds n replies "" in
      let bound = bind_named sid s in
      record { session = bound; prompt = prompt; sent = sent; files_to = checkpoint bound.messages }

  abbrev pub saved_rewind :
      (saved connected : Bool)
      → (ℕ → RewindReply)
      → (rewind_count : ℕ) → Result SessionError (Value × Session)
      → Result QueryError Rewound
  saved_rewind saved connected replies n (err e) = err (refused e)
  saved_rewind saved connected replies n (ok r) =
      if saved then ok (after_rewind connected replies n r) else err recorder_failed

  -- A negative index is refused by `rewind_to` before its count is used.
  unfoldable pub rewind_to_message :
      (now : ℕ) (saved connected : Bool)
      → (ℕ → RewindReply)
      → Option Session
      → (message_index : ℤ) → Result QueryError Rewound
  rewind_to_message now saved connected replies none i = err not_found
  rewind_to_message now saved connected replies (some s) i =
      saved_rewind saved connected replies (users_from i s.messages) (rewind_to now i s)

  abbrev rewind_found :
      (now : ℕ) (saved connected : Bool)
      → (ℕ → RewindReply)
      → Session
      → Option ℕ
      → Result QueryError Rewound
  rewind_found now saved connected replies s none = err (failed "User message not found")
  rewind_found now saved connected replies s (some i) =
      rewind_to_message now saved connected replies (some s) (pos i)

  -- The session is loaded twice; nothing stands between the two loads.
  unfoldable pub rewind_to_message_id :
      (now : ℕ) (saved connected : Bool)
      → (ℕ → RewindReply)
      → Option Session
      → (message_id : String) → Result QueryError Rewound
  rewind_to_message_id now saved connected replies none id = err not_found
  rewind_to_message_id now saved connected replies (some s) id =
      rewind_found now saved connected replies s (find_user_message_index s.messages id)

  abbrev pub rebound :
      (sid : String) (connected : Bool) → Value × Session → Value × Session × Option Value
  rebound sid connected (prompt, s) =
      let bound = bind_named sid s in
      (prompt, bound, if connected then checkpoint bound.messages else none)

  abbrev cancelled :
      (saved : Bool) (sid : String) (connected : Bool)
      → Session
      → Result SessionError (Value × Session)
      → Result QueryError (Value × Session × Option Value)
  cancelled saved sid connected s (ok r) =
      if saved then ok (rebound sid connected r) else err recorder_failed
  cancelled saved sid connected s (err e) =
      ok (rebound sid connected (last_user_value "text" s.messages, s))

  -- One `/rewind` was sent before, where the agent is connected; `sid` is the conversation it named.
  -- The prompt, the session and the checkpoint of the files.
  unfoldable pub cancel_loaded :
      (now : ℕ) (saved : Bool) (sid : String) (connected : Bool)
      → Session
      → Result QueryError (Value × Session × Option Value)
  unfolding last_user_content
  cancel_loaded now saved sid connected s = cancelled saved sid connected s (cancel_session now s)
