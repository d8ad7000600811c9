-- ===== src/Query/Answer/Synthetic.antt =====
-- The result that the engine makes up where the stream ended without one, in
-- backend/application/session/session_query_engine.py.
use velpos.Prelude.{
  ℕ, String, true, some, List, [], ◌∷◌, ◌++◌, ◌≡◌, refl, is_empty, arith, Bool-cases, inl, inr,
  if◌then◌else◌,
}
use velpos.Prelude.Result.{ok}
use velpos.Prelude.Dict
use velpos.Session.Messages.{Message, create}
use velpos.Session.{Session}
use velpos.Session.Operations.{add_message}
use velpos.Query.Command.{Language}
use velpos.Query.Prepare.{is_result}
use velpos.Query.Answer.{
  extract_assistant_text, build_stream_end_result, last_reason, result_failure_reason, no_output,
  end_message, reason_of,
}

module _ (py : Language) where
  last_reason-append :
      (ms : List Message) (m : Message)
      → is_result m.message_type ≡ true
      → last_reason py (ms ++ m ∷ []) ≡ some (reason_of py m)
  unfolding last_reason
  last_reason-append [] m h = rw h refl
  last_reason-append (x ∷ ms) m h = rw (last_reason-append ms m h) refl

  reason_of-end :
      (now : ℕ) (s : Session) (count : ℕ) (output : String)
      → py.strip no_output ≡ no_output
      → reason_of py (end_message py now s count output)
        ≡ (if is_empty output then no_output else "")
  unfolding create Dict.lookup
  reason_of-end now s count output h = elim (Bool-cases (is_empty output)) [
    | inl e ↦ rw (e, h) refl
    | inr e ↦ rw e refl
  ]

  -- After the made-up result is added, the run counts as successful exactly when the agent's last
  -- text is not blank; otherwise the reason is that the stream ended without a result.
  pub result_failure_reason-build_stream_end_result :
      (now : ℕ) (s : Session) (count : ℕ) {text : String} {s' : Session}
      → py.strip no_output ≡ no_output
      → extract_assistant_text py s.messages ≡ some text
      → add_message (build_stream_end_result py now s count) s ≡ ok s'
      → result_failure_reason py s' ≡ (if is_empty (py.strip text) then no_output else "")
  unfolding build_stream_end_result add_message result_failure_reason create
  result_failure_reason-build_stream_end_result now s count {text} {s'} h x a =
      let m = end_message py now s count (py.strip text) in
      let e : s'.messages ≡ s.messages ++ m ∷ [] = ground (arith, x) in
      let l : last_reason py s'.messages ≡ some (reason_of py m) =
        rw e (last_reason-append s.messages m refl) in
      rw (result_failure_reason, l) (reason_of-end now s count (py.strip text) h)
