-- ===== src/Query/Run.antt =====
-- The run of a query: `_execute_streaming` with its three loops, and `run_claude_query` from the
-- prepared request on, in backend/application/session/session_query_engine.py; and
-- `_refresh_context_usage` of session_application_service.py. What the gateway, the recorders and a
-- cancel do is an argument of each step.
pub mod Ends
pub mod Same
use velpos.Prelude.{
  ℕ, zero, suc, ◌+◌, String, Bool, true, false, Option, none, some, List, [], ◌∷◌, ◌&&◌, ◌||◌, not,
  any, leb, has_text, is_empty, if◌then◌else◌,
}
use velpos.Prelude.Result.{Result, ok, err}
use velpos.Values.{ℤ, pos, negsuc, Runtime}
use velpos.Session.{Session, SessionError}
use velpos.Session.Operations.{add_message, update_last_input_tokens}
use velpos.Query.Command.{Language}
use velpos.Query.Prepare.{
  QueryError, QueryContext, failed, type_error, stream_failed, recorder_failed,
}
use velpos.Query.Answer.{build_stream_end_result, result_failure_reason}
use velpos.Query.Binding.{resolve_for_resume}
use velpos.Query.Stream.{Arrival, consume}
use velpos.Query.Finish.{Surroundings, Handled, settle}

-- One send: what its stream gives, and whether the consumer's recorder goes through.
pub record Attempt : Type 0 where
  pub arrivals : List Arrival
  pub recorded : Bool

-- One round of `_retry_transient_result`: the two looks at `cancelled_sessions`, the recorders.
pub record Retry : Type 0 where
  pub cancelled_before : Bool
  pub recorded : Bool
  pub cancelled_after : Bool
  pub attempt : Attempt

-- One round of `_auto_continue_loop`.
pub record Continue : Type 0 where
  pub cancelled : Bool
  pub connected : Bool
  pub recorded : Bool
  pub attempt : Attempt

-- What a run meets. `is_connected` is after a changed model has closed the connection, `sends` says
-- that `send_query` raises nothing, `recovered` that the recorders and the gateway raise nothing
-- after a broken stream. The rounds of a loop are numbered by how many are left.
pub record Encounter : Type 0 where
  pub directory_missing : Bool
  pub started : Bool
  pub is_connected : Bool
  pub sends : Bool
  pub first : Attempt
  pub cancelled : Bool
  pub recovered : Bool
  pub second : Attempt
  pub max_retries : ℕ
  pub retries : ℕ → Retry
  pub max_auto_continues : ℕ
  pub continues : ℕ → Continue
  pub result_now : ℕ
  pub announced : Bool
  pub context_now : ℕ
  pub context_tokens : Option (Option ℤ)

abbrev transient_markers : List String
transient_markers =
    "channel_unavailable" ∷ "service temporarily unavailable" ∷ "service_unavailable"
    ∷ "upstream returned http 502" ∷ "upstream returned http 503" ∷ "upstream returned http 504"
    ∷ []

-- A step of the run: the session, and what the step gives or raises.
abbrev pub Outcome : Type 0 → Type 0
Outcome A = Session × Result QueryError A

unfoldable pub then_do : {A B : Type 0} → Outcome A → (Session → A → Outcome B) → Outcome B
then_do (s, ok a) f = f s a
then_do (s, err e) f = (s, err e)

-- The tokens that the gateway reports: `none` where it raises, `some none` where it has none.
unfoldable pub refresh_context_usage : (now : ℕ) → Option (Option ℤ) → Session → Outcome (Unit {0})
unfolding update_last_input_tokens
refresh_context_usage now tokens s = elim s.messages [
  | [] ↦ (s, ok tt)
  | m ∷ ms ↦ elim tokens [
    | none ↦ (s, err stream_failed)
    | some t ↦ elim t [
      | none ↦ (s, ok tt)
      | some n ↦ elim n [
        | negsuc k ↦ (s, ok tt)
        | pos k ↦ elim k [
          | zero ↦ (s, ok tt)
          | suc j ↦ (update_last_input_tokens now (pos (suc j)) s, ok tt)
        ]
      ]
    ]
  ]
]

abbrev with_result : Session → Result SessionError Session → Session
with_result s (ok s') = s'
with_result s (err e) = s

module _ (py : Language) (owner : String → Option String) (limit : ℕ) where
  unfoldable pub is_transient_result_error : (reason : String) → Bool
  unfolding has_text
  is_transient_result_error reason =
      any (λ marker. has_text marker (py.casefold reason)) transient_markers

  abbrev pub consume_attempt : Attempt → Session → Outcome Bool
  consume_attempt a s = consume py.runtime owner limit a.recorded a.arrivals s

  -- `_resolve_resume_sdk_session_id`, before `connect`
  abbrev pub resuming : Session → Session
  resuming s = (resolve_for_resume owner s).1

  -- `_establish_stream`: the session that the first stream is opened for, or the exception of the
  -- save and the broadcast. A failed `send_query` falls back to `connect`.
  unfoldable pub establish_stream : Encounter → Session → Outcome (Unit {0})
  unfolding resolve_for_resume
  establish_stream w s =
      if not w.started
      then (s, err recorder_failed)
      else if w.is_connected && w.sends
      then (s, ok tt)
      else (resuming s, ok tt)

  abbrev pub reconnect : Encounter → Session → Outcome (Option Bool)
  reconnect w s =
      if not w.recovered
      then (s, err recorder_failed)
      else then_do (consume_attempt w.second (resuming s)) (λ s' b. (s', ok (some b)))

  -- `none` where the stream broke because the query was cancelled.
  abbrev pub after_stream : Encounter → Outcome Bool → Outcome (Option Bool)
  after_stream w (s, ok b) = (s, ok (some b))
  after_stream w (s, err e) =
      if w.cancelled
      then (s, if w.recovered then ok none else err recorder_failed)
      else if w.is_connected
      then reconnect w s
      else (s, err e)

  unfoldable pub consume_stream_with_retry : Encounter → Session → Outcome (Option Bool)
  unfolding consume then_do
  consume_stream_with_retry w s = after_stream w (consume_attempt w.first s)

  -- `retry_from n` has `n` rounds left; it is entered with a result.
  unfoldable pub retry_from : (left : ℕ) → (ℕ → Retry) → Session → Outcome Bool
  unfolding is_transient_result_error result_failure_reason consume then_do
  retry_from zero retries s = (s, ok true)
  retry_from (suc n) retries s =
      let r = retries n in
      let again = λ (s' : Session). retry_from n retries s' in
      if not (is_transient_result_error (result_failure_reason py s)) || r.cancelled_before
      then (s, ok true)
      else if not r.recorded
      then (s, err recorder_failed)
      else if r.cancelled_after
      then (s, ok true)
      else then_do (consume_attempt r.attempt s) (λ s' b. if b then again s' else (s', ok false))

  unfoldable pub retry_transient_result :
      (max_retries : ℕ) → (ℕ → Retry) → (got_result : Bool) → Session → Outcome Bool
  unfolding retry_from
  retry_transient_result max_retries retries got_result s =
      if not got_result then (s, ok false) else retry_from max_retries retries s

  -- An exception of the stream ends the loop, one of the recorders the run.
  abbrev pub continued :
      (count : ℕ) → (Session → Bool → Outcome (Bool × ℕ)) → Outcome Bool → Outcome (Bool × ℕ)
  continued count again (s, ok b) = again s b
  continued count again (s, err e) = (s, ok (false, count))

  unfoldable pub auto_continue_from :
      (left : ℕ) → (ℕ → Continue) → (count : ℕ) (got_result : Bool) → Session → Outcome (Bool × ℕ)
  unfolding consume
  auto_continue_from zero continues count got_result s = (s, ok (got_result, count))
  auto_continue_from (suc n) continues count got_result s =
      let c = continues n in
      let again = λ (s' : Session) (b : Bool). auto_continue_from n continues (count + 1) b s' in
      if got_result || c.cancelled || not c.connected
      then (s, ok (got_result, count))
      else if not c.recorded
      then (s, err recorder_failed)
      else continued (count + 1) again (consume_attempt c.attempt s)

  unfoldable pub emit_synthetic_result :
      (now : ℕ) (announced : Bool) (auto_continue_count : ℕ) → Session → Outcome (Unit {0})
  unfolding build_stream_end_result add_message
  emit_synthetic_result now announced count s = elim (build_stream_end_result py now s count) [
    | none ↦ (s, err type_error)
    | some m ↦
        (with_result s (add_message (some m) s), if announced then ok tt else err recorder_failed)
  ]

  -- The end of `_execute_streaming`, from the answer of the first stream.
  abbrev pub finish_streaming : Encounter → Session → (got_result : Bool) → Outcome Bool
  finish_streaming w s got_result =
      then_do (retry_transient_result w.max_retries w.retries got_result s) (λ s₁ got.
        then_do (auto_continue_from w.max_auto_continues w.continues 0 got s₁) (λ s₂ r.
          then_do
            (if r.0 then (s₂, ok tt) else emit_synthetic_result w.result_now w.announced r.1 s₂)
            (λ s₃ u.
              then_do (refresh_context_usage w.context_now w.context_tokens s₃)
                (λ s₄ v. (s₄, ok false)))))

  abbrev pub after_first : Encounter → Session → Option Bool → Outcome Bool
  after_first w s none = (s, ok true)
  after_first w s (some got) = finish_streaming w s got

  abbrev pub after_established : Encounter → Session → Unit {0} → Outcome Bool
  after_established w s u = then_do (consume_stream_with_retry w s) (after_first w)

  -- What it gives says whether the stream was cancelled.
  unfoldable pub execute_streaming : Encounter → Session → Outcome Bool
  execute_streaming w s =
      if w.directory_missing
      then (s, err (failed "Project directory no longer exists"))
      else then_do (establish_stream w s) (after_established w)

  abbrev pub settled_as : Surroundings → Outcome Bool → Handled
  settled_as v (s, ok cancelled) = settle py v cancelled s none
  settled_as v (s, err e) = settle py v false s (some e)

  -- `run_claude_query` after `_prepare_query`, up to the finalizer.
  unfoldable pub run_prepared : Encounter → Surroundings → QueryContext → Handled
  unfolding execute_streaming settle
  run_prepared w v ctx = settled_as v (execute_streaming w ctx.session)
