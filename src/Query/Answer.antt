-- ===== src/Query/Answer.antt =====
-- What the engine reads out of a session's messages: `assistant_text_of` and
-- `extract_assistant_text` of backend/domain/session/service/message_conversion_service.py, and
-- `_build_stream_end_result` and `_result_failure_reason` of
-- backend/application/session/session_query_engine.py. `none` is a `TypeError`.
pub mod Synthetic
use velpos.Prelude.{
  ℕ, zero, suc, String, Bool, true, false, Option, none, some, List, [], ◌∷◌, ◌++◌, ◌&&◌, not, ◌==◌,
  text_eq, is_empty, ◌<>◌, join_texts, if◌then◌else◌,
}
use velpos.Prelude.Dict
use velpos.Prelude.Dict.{Dict}
use velpos.Values.{
  Value, null, bool, int, float, str, arr, obj, Items, no_items, item, to_dict, of_dict, pos,
}
use velpos.Session.Messages.{Message, MessageType, assistant, result, create}
use velpos.Session.{Session}
use velpos.Query.Command.{Language, get}
use velpos.Query.Prepare.{is_result}

abbrev is_assistant : MessageType → Bool
is_assistant assistant = true
is_assistant _ = false

abbrev is_text_block : Dict Value → Bool
is_text_block block = elim (Dict.lookup "type" block) [
  | none ↦ false
  | some v ↦ elim v [ str s ↦ s == "text" | other ↦ false ]
]

-- One more text to join: only texts can be joined.
abbrev add_text : Value → Option (List String) → Option (List String)
add_text (str s) (some rest) = some (s ∷ rest)
add_text (str s) none = none
add_text v rest = none

abbrev add_block : Value → Option (List String) → Option (List String)
add_block (obj fs) rest =
    if is_text_block (to_dict fs) then add_text (get "text" (str "") (to_dict fs)) rest else rest
add_block v rest = rest

-- The comprehension over `blocks`
unfoldable pub block_texts : Items → Option (List String)
unfolding Dict.lookup
block_texts no_items = some []
block_texts (item v rest) = add_block v (block_texts rest)

-- A text and a dictionary can be gone through too, and hold no dictionary.
abbrev texts_of : Value → Option (List String)
texts_of (arr items) = block_texts items
texts_of (str s) = some []
texts_of (obj fs) = some []
texts_of v = none

abbrev is_true : Option Value → Bool
is_true (some (bool true)) = true
is_true v = false

abbrev pub no_output : String
no_output = "Agent stream ended without a successful result."

module _ (py : Language) where
  abbrev joined : Option (List String) → Option String
  joined none = none
  joined (some texts) = some (py.strip (join_texts "" texts))

  unfoldable pub assistant_text_of : Message → Option String
  unfolding block_texts Dict.lookup join_texts
  assistant_text_of m =
      if not (is_assistant m.message_type)
      then some ""
      else joined (texts_of (get "blocks" (arr no_items) m.content))

  abbrev or_earlier : Option String → Option String → Option String
  or_earlier none earlier = none
  or_earlier (some t) earlier = if is_empty t then earlier else some t

  -- The loop over `reversed(messages)`
  unfoldable pub extract_assistant_text : List Message → Option String
  unfolding assistant_text_of
  extract_assistant_text [] = some ""
  extract_assistant_text (m ∷ ms) = or_earlier (extract_assistant_text ms) (assistant_text_of m)

  abbrev stop_reason : (output : String) → (auto_continue_count : ℕ) → String
  stop_reason output count =
      if not (is_empty output)
      then "stream_ended_after_output"
      else elim count [ zero ↦ "stream_ended" | suc n ↦ "auto_continue_exhausted" ]

  abbrev pub end_message :
      (now : ℕ) → Session → (auto_continue_count : ℕ) → (output : String) → Message
  end_message now s count output = create now result (
      ("text", str (if not (is_empty output) then output else no_output))
      ∷ ("duration_ms", int (pos 0))
      ∷ ("duration_api_ms", int (pos 0))
      ∷ ("num_turns", int (pos 0))
      ∷ ("is_error", bool (is_empty output))
      ∷ ("total_cost_usd", int (pos 0))
      ∷ ("stop_reason", str (stop_reason output count))
      ∷ (
        "usage",
        obj (
            of_dict (
              ("input_tokens", int (pos s.usage.input_tokens))
              ∷ ("output_tokens", int (pos s.usage.output_tokens))
              ∷ [])),
      )
      ∷ [])

  unfoldable pub build_stream_end_result :
      (now : ℕ) → Session → (auto_continue_count : ℕ) → Option Message
  unfolding extract_assistant_text create
  build_stream_end_result now s count = elim (extract_assistant_text s.messages) [
    | none ↦ none
    | some text ↦ some (end_message now s count (py.strip text))
  ]

  abbrev reason_text : Option Value → String
  reason_text (some (str s)) =
      if is_empty (py.strip s) then "Agent returned an unsuccessful result" else py.strip s
  reason_text v = "Agent returned an unsuccessful result"

  abbrev reason_of : Message → String
  reason_of m =
      if not (is_true (Dict.lookup "is_error" m.content))
      then ""
      else reason_text (Dict.lookup "text" m.content)

  -- The loop over `reversed(messages)`: `none` where there is no result.
  unfoldable pub last_reason : List Message → Option String
  unfolding Dict.lookup
  last_reason [] = none
  last_reason (m ∷ ms) =
      let rest = last_reason ms in
      elim rest [
        | some t ↦ some t
        | none ↦ if is_result m.message_type then some (reason_of m) else none
      ]

  unfoldable pub result_failure_reason : Session → String
  unfolding last_reason
  result_failure_reason s = elim (last_reason s.messages) [
    | none ↦ "Agent stream ended without a result"
    | some t ↦ t
  ]
