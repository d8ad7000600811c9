-- ===== src/Query/Queue/Replay.antt =====
-- A steered message that its sender sends again (`steer_queued_message`, `_compose_prompt` and
-- `_validate_duplicate_payload` of backend/application/session/session_query_engine.py).
use velpos.Prelude.{
  ℕ, zero, suc, String, Bool, true, false, List, [], ◌∷◌, ◌&&◌, ◌||◌, not, All, ◌==◌, text_eq,
  text_eq_iff, ◌≡◌, refl, subst, ◌∙◌, is_empty, ◌<>◌, starts_with, join_texts, arith, Bool-cases,
  Option-cases, inl, inr, if◌then◌else◌,
}
use velpos.Prelude.Result.{Result, ok, err, Result-cases}
use velpos.Prelude.Dict
use velpos.Prelude.Dict.{Dict}
use velpos.Values.{str, int, pos, negsuc, Value, truthy}
use velpos.Session.Messages.{create}
use velpos.Query.Command.{
  Language, IsLanguage, RunQueryCommand, PromptError, attachment_reference, attachment_refs,
  with_refs, is_nil, voice_reference, reference_as, get_truthy, get, is_image,
}
use velpos.Query.Prepare.{id_conflict, same_prompt, validate_duplicate_payload, attachments_value}
use velpos.Query.Queue.{steered_message}
use text.Mathlib.TextLemmas.{cons-append, nil-append}

starts_with-same : (p q s : String) → starts_with (p <> q) (p <> s) ≡ starts_with q s
unfolding starts_with
starts_with-same String.[] q s = rw (nil-append q, nil-append s) refl
starts_with-same (String.◌∷◌ c p) q s =
    rw (cons-append c p q, cons-append c p s) (ground (arith, starts_with-same p q s))

abbrev is_bracketed : String → Bool
is_bracketed s = starts_with "[" s

not_blank : (s : String) → is_bracketed s ≡ true → is_empty s ≡ false
unfolding starts_with
not_blank String.[] h = absurd (ground arith)
not_blank (String.◌∷◌ c s) h = refl

no_blank_line : (s : String) → is_bracketed s ≡ true → starts_with "\n\n[" s ≡ false
unfolding starts_with
no_blank_line String.[] h = refl
no_blank_line (String.◌∷◌ c s) h = ground arith

bracketed-append : (s t : String) → is_bracketed s ≡ true → is_bracketed (s <> t) ≡ true
unfolding starts_with
bracketed-append String.[] t h = absurd (ground arith)
bracketed-append (String.◌∷◌ c s) t h = rw (cons-append c s t) (ground arith)

bracketed-join :
    (r : String) (rs : List String)
    → is_bracketed r ≡ true
    → is_bracketed (join_texts "\n" (r ∷ rs)) ≡ true
unfolding join_texts
bracketed-join r [] h = h
bracketed-join r (s ∷ rs) h = bracketed-append r _ h

module _ (py : Language) where
  bracketed-ok :
      (s t : String) {r : String}
      → is_bracketed s ≡ true
      → ◌≡◌ {A = Result PromptError String} (ok (s <> t)) (ok r)
      → is_bracketed r ≡ true
  bracketed-ok s t {r} h e =
      let d : s <> t ≡ r = ground (arith, e) in rw (← d) (bracketed-append s t h)

  bracketed-none :
      {r : String}
      → ◌≡◌ {A = Result PromptError String} (ok "") (ok r)
      → is_empty r ≡ false
      → is_bracketed r ≡ true
  bracketed-none {r} e n =
      let d : "" ≡ r = ground (arith, e) in
      let z : is_empty r ≡ true = rw (← d) refl in absurd (ground (arith, z, n))

  bracketed-raise :
      (x : PromptError) {r : String}
      → ◌≡◌ {A = Result PromptError String} (err x) (ok r)
      → is_bracketed r ≡ true
  bracketed-raise x e = absurd (ground (arith, e))

  voice_reference-bracketed :
      (a : Dict Value) (path filename : Value) (prompt : String) {r : String}
      → voice_reference py a path filename prompt ≡ ok r
      → is_bracketed r ≡ true
  unfolding voice_reference starts_with
  voice_reference-bracketed a path filename prompt {r} h =
      elim (Option-cases (py.int_of (get_truthy py.runtime "duration" (int (pos zero)) a))) [
        | inl n ↦ absurd (ground (arith, n))
        | inr (pos zero, n) ↦ bracketed-ok "[Voice: " _ refl (rw n at h)
        | inr (pos (suc k), n) ↦ bracketed-ok "[Voice: " _ refl (rw n at h)
        | inr (negsuc k, n) ↦ bracketed-ok "[Voice: " _ refl (rw n at h)
      ]

  reference_as-bracketed :
      (image : Bool) (mime_type : String) (a : Dict Value) (path filename : Value) (prompt : String)
      {r : String}
      → reference_as py image mime_type a path filename prompt ≡ ok r
      → is_bracketed r ≡ true
  unfolding starts_with
  reference_as-bracketed true mime_type a path filename prompt h = bracketed-ok "[Image: " _ refl h
  reference_as-bracketed false mime_type a path filename prompt h =
      elim (Bool-cases (starts_with "audio/" mime_type)) [
        | inl e ↦ voice_reference-bracketed a path filename prompt (rw e at h)
        | inr e ↦ bracketed-ok "[Attachment: " _ refl (rw e at h)
      ]

  abbrev mime_of : Dict Value → String
  mime_of a = py.runtime.str_of (get_truthy py.runtime "mime_type" (str "") a)

  attachment_reference-bracketed :
      (a : Dict Value) (paths : List String) (prompt : String) {r : String}
      → attachment_reference py a paths prompt ≡ ok r
      → is_empty r ≡ false
      → is_bracketed r ≡ true
  unfolding attachment_reference
  attachment_reference-bracketed a paths prompt {r} h n =
      elim (Bool-cases (truthy py.runtime (get "path" (str "") a))) [
        | inr e ↦ bracketed-none (rw e at h) n
        | inl e ↦ elim (Result-cases (is_image py (mime_of a) (get "path" (str "") a) paths)) [
          | inl (x, k) ↦ bracketed-raise x (rw (e, k) at h)
          | inr (image, k) ↦
              reference_as-bracketed image (mime_of a) a (get "path" (str "") a)
                (get "filename" (str "attachment") a) prompt (rw (e, k) at h)
        ]
      ]

  attachment_refs-bracketed :
      (l : List (Dict Value)) (paths : List String) (prompt : String) {refs : List String}
      → attachment_refs py l paths prompt ≡ ok refs
      → All (λ r. is_bracketed r ≡ true) refs
  unfolding attachment_refs
  attachment_refs-bracketed [] paths prompt {refs} h =
      let d : [] ≡ refs = ground (arith, h) in subst (All (λ r. is_bracketed r ≡ true)) d tt
  attachment_refs-bracketed (a ∷ l) paths prompt {refs} h =
      elim (Result-cases (attachment_reference py a paths prompt)) [
        | inl (x, k) ↦ absurd (ground (arith, h, k))
        | inr (r, k) ↦ elim (Result-cases (attachment_refs py l paths prompt)) [
          | inl (x, j) ↦ absurd (ground (arith, h, k, j))
          | inr (rs, j) ↦ elim (Bool-cases (is_empty r)) [
            | inl n ↦
                let d : rs ≡ refs = ground (arith, h, k, j, n) in
                subst (All (λ r. is_bracketed r ≡ true)) d
                  (attachment_refs-bracketed l paths prompt j)
            | inr n ↦
                let d : r ∷ rs ≡ refs = ground (arith, h, k, j, n) in
                subst (All (λ r. is_bracketed r ≡ true)) d (
                  attachment_reference-bracketed a paths prompt k n,
                  attachment_refs-bracketed l paths prompt j,
                )
          ]
        ]
      ]

  same_attachments :
      IsLanguage py
      → (c : RunQueryCommand)
      → py.same (attachments_value c.attachments) (attachments_value c.attachments) ≡ true
  same_attachments law c = law.same_refl (attachments_value c.attachments)

  abbrev fits : (text prompt : String) → Bool
  fits text prompt = text == prompt || starts_with (prompt <> "\n\n[") text

  joined_later :
      (p j : String) → is_bracketed j ≡ true → starts_with (p <> "\n\n[") (p <> "\n\n" <> j) ≡ true
  joined_later p j h = starts_with-same p "\n\n[" ("\n\n" <> j) ∙ starts_with-same "\n\n" "[" j ∙ h

  not_itself : (j : String) → is_bracketed j ≡ true → (j == "") ≡ false
  not_itself j h = elim (Bool-cases (j == "")) [
    | inl e ↦
        let z : is_empty j ≡ true = rw ((text_eq_iff j "").0 e) refl in
        absurd (ground (arith, z, not_blank j h))
    | inr e ↦ e
  ]

  fits-with_refs :
      (p : String) (refs : List String)
      → All (λ r. is_bracketed r ≡ true) refs
      → fits (with_refs py p refs) p ≡ not (is_empty p && not (is_nil refs))
  fits-with_refs p [] h = ground (arith, text_eq_iff p p)
  fits-with_refs String.[] (r ∷ rs) (h, hs) =
      let j = bracketed-join r rs h in
      let text = join_texts "\n" (r ∷ rs) in
      rw (not_itself text j, nil-append "\n\n[", no_blank_line text j) refl
  fits-with_refs (String.◌∷◌ c p) (r ∷ rs) (h, hs) =
      let j = bracketed-join r rs h in
      ground (arith, joined_later (String.◌∷◌ c p) (join_texts "\n" (r ∷ rs)) j)

  -- A command with the given references was steered into a run, and its sender sends it again. Then
  -- the check takes it for the same request, except if it has no text of its own and some reference:
  -- such a request is refused as a conflict with itself.
  pub steered_message-validate_duplicate_payload :
      (now : ℕ) (uuid run_id : String) (c : RunQueryCommand) {refs : List String}
      → IsLanguage py
      → attachment_refs py c.attachments c.image_paths c.prompt ≡ ok refs
      → validate_duplicate_payload py
          (steered_message now uuid run_id (with_refs py c.prompt refs) c)
          c
        ≡ (if is_empty c.prompt && not (is_nil refs) then err id_conflict else ok tt)
  unfolding validate_duplicate_payload same_prompt create Dict.lookup
  steered_message-validate_duplicate_payload now uuid run_id c {refs} law h =
      let text = with_refs py c.prompt refs in
      let f : (text == c.prompt || starts_with (c.prompt <> "\n\n[") text)
          ≡ not (is_empty c.prompt && not (is_nil refs)) =
        fits-with_refs c.prompt refs
          (attachment_refs-bracketed c.attachments c.image_paths c.prompt h) in
      rw (law.str_of_str text, law.str_of_str text, same_attachments law c) (ground (arith, f))
