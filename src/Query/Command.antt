-- ===== src/Query/Command.antt =====
-- `RunQueryCommand` of backend/application/session/command/run_query_command.py, and the prompt that
-- the query engine (backend/application/session/session_query_engine.py) composes from it. A missing
-- key of an attachment and a value of another type than the writers use are read as the code does.
use velpos.Prelude.{
  zero, suc, String, Bool, true, false, Option, none, some, List, [], ◌∷◌, ◌&&◌, not, any, ◌==◌,
  text_eq, ◌≡◌, is_empty, or_else, ◌<>◌, starts_with, has_text, join_texts, if◌then◌else◌,
}
use velpos.Prelude.Result.{Result, ok, err, ◌>>=◌}
use velpos.Prelude.Dict
use velpos.Prelude.Dict.{Dict}
use velpos.Values.{Value, null, int, str, arr, obj, Runtime, truthy, ℤ, pos, negsuc}

-- What else the interpreter gives: `s.strip()`, `s.casefold()`, `int(v)`, which may raise, and `==`
-- of two values.
pub record Language : Type 0 where
  pub runtime : Runtime
  pub strip : String → String
  pub casefold : String → String
  pub int_of : Value → Option ℤ
  pub same : Value → Value → Bool

-- Any value but a NaN equals itself, and a list or dictionary read from JSON holds none.
pub record IsLanguage (py : Language) : Type 0 where
  pub same_refl : (v : Value) → py.same v v ≡ true
  pub str_of_str : (s : String) → py.runtime.str_of (str s) ≡ s

pub record RunQueryCommand : Type 0 where
  pub session_id : String
  pub prompt : String
  pub client_message_id : String
  pub image_paths : List String
  pub attachments : List (Dict Value)

abbrev pub is_nil {ℓ} : {A : Type ℓ} → List A → Bool
is_nil [] = true
is_nil (x ∷ l) = false

-- `validate_query_content`: `false` where it raises.
unfoldable pub validate_query_content : RunQueryCommand → Bool
validate_query_content c = not (is_empty c.prompt && is_nil c.image_paths && is_nil c.attachments)

-- What composing a prompt may raise: `int` of the duration, the hash of the path.
pub data PromptError : Type 0 where
  bad_duration unhashable : PromptError

abbrev pub get : String → Value → Dict Value → Value
get key default d = or_else (Dict.lookup key d) default

-- `attachment.get(key) or default`
abbrev pub get_truthy : Runtime → String → Value → Dict Value → Value
get_truthy py key default d = let v = get key null d in if truthy py v then v else default

-- `path in image_paths`, a set of texts
unfoldable pub in_set : Value → List String → Result PromptError Bool
in_set (str s) paths = ok (any (λ p. p == s) paths)
in_set (arr xs) paths = err unhashable
in_set (obj fs) paths = err unhashable
in_set v paths = ok false

module _ (py : Language) where
  abbrev text : Value → String
  text v = py.runtime.str_of v

  abbrev pub is_image : (mime_type : String) → Value → List String → Result PromptError Bool
  is_image mime_type path image_paths =
      if starts_with "image/" mime_type then ok true else in_set path image_paths

  abbrev duration_part : Option ℤ → Result PromptError String
  duration_part none = err bad_duration
  duration_part (some (pos zero)) = ok ""
  duration_part (some (pos (suc n))) = ok (" duration=" <> text (int (pos (suc n))) <> "s")
  duration_part (some (negsuc n)) = ok ""

  abbrev transcript_part : String → (prompt : String) → String
  transcript_part transcript prompt =
      if not (is_empty transcript) && not (has_text transcript prompt)
      then " transcript=\"" <> transcript <> "\""
      else ""

  unfoldable pub voice_reference :
      Dict Value → (path filename : Value) → (prompt : String) → Result PromptError String
  voice_reference attachment path filename prompt = do
    duration ←
        duration_part (py.int_of (get_truthy py.runtime "duration" (int (pos zero)) attachment))
    let transcript = py.strip (text (get_truthy py.runtime "transcript" (str "") attachment))
    ok (
        "[Voice: "
        <> text filename
        <> " path="
        <> text path
        <> duration
        <> transcript_part transcript prompt
        <> "]")

  abbrev pub reference_as :
      (image : Bool) (mime_type : String)
      → Dict Value
      → (path filename : Value) → (prompt : String) → Result PromptError String
  reference_as true mime_type attachment path filename prompt = ok ("[Image: " <> text path <> "]")
  reference_as false mime_type attachment path filename prompt =
      if not (starts_with "audio/" mime_type)
      then ok ("[Attachment: " <> text filename <> " path=" <> text path <> "]")
      else voice_reference attachment path filename prompt

  unfoldable pub attachment_reference :
      Dict Value → List String → (prompt : String) → Result PromptError String
  attachment_reference attachment image_paths prompt =
      let path = get "path" (str "") attachment in
      let filename = get "filename" (str "attachment") attachment in
      let mime_type = text (get_truthy py.runtime "mime_type" (str "") attachment) in
      if not (truthy py.runtime path)
      then ok ""
      else (is_image mime_type path image_paths >>= λ image.
          reference_as image mime_type attachment path filename prompt)

  -- The comprehension: an empty reference is left out.
  unfoldable pub attachment_refs :
      List (Dict Value) → List String → (prompt : String) → Result PromptError (List String)
  unfolding attachment_reference
  attachment_refs [] image_paths prompt = ok []
  attachment_refs (a ∷ rest) image_paths prompt = do
    reference ← attachment_reference a image_paths prompt
    refs ← attachment_refs rest image_paths prompt
    ok (if is_empty reference then refs else reference ∷ refs)

  abbrev pub with_refs : (prompt : String) → List String → String
  with_refs prompt [] = prompt
  with_refs prompt (r ∷ rs) =
      let references = join_texts "\n" (r ∷ rs) in
      if is_empty prompt then references else prompt <> "\n\n" <> references

  unfoldable pub compose_prompt : RunQueryCommand → Result PromptError String
  unfolding attachment_refs join_texts
  compose_prompt c = do
    refs ← attachment_refs c.attachments c.image_paths c.prompt
    ok (with_refs c.prompt refs)
