-- ===== src/Query/Run/Same.antt =====
-- The steps of `_execute_streaming` and the status of the session
-- (backend/application/session/session_query_engine.py).
use velpos.Prelude.{
  ℕ, zero, suc, ◌+◌, String, Bool, true, false, Option, none, some, ◌||◌, not, ◌≡◌, refl, ◌∙◌,
  arith, Bool-cases, Option-cases, inl, inr, if◌then◌else◌,
}
use velpos.Prelude.Result.{ok, err}
use velpos.Values.{ℤ}
use velpos.Session.{Session}
use velpos.Session.Operations.{add_message, update_last_input_tokens, update_sdk_session_id}
use velpos.Query.Command.{Language}
use velpos.Query.Answer.{build_stream_end_result, result_failure_reason}
use velpos.Query.Binding.{resolve_for_resume}
use velpos.Query.Stream.Results.{consume-messages}
use velpos.Query.Run.{
  Attempt, Retry, Continue, Encounter, Outcome, then_do, refresh_context_usage, consume_attempt,
  resuming, establish_stream, reconnect, after_stream, consume_stream_with_retry, retry_from,
  retry_transient_result, continued, auto_continue_from, emit_synthetic_result, finish_streaming,
  after_first, after_established, execute_streaming, is_transient_result_error,
}

abbrev pub IsSame : {A : Type 0} → Session → Outcome A → Type 0
IsSame s o = o.0.status ≡ s.status

then_do-IsSame :
    {A B : Type 0} (s : Session) (o : Outcome A) (f : Session → A → Outcome B)
    → IsSame s o
    → ((t : Session) (a : A) → IsSame t (f t a))
    → IsSame s (then_do o f)
unfolding then_do
then_do-IsSame s (t, ok a) f h k = k t a ∙ h
then_do-IsSame s (t, err e) f h k = h

if-IsSame :
    {A : Type 0} (b : Bool) (s : Session) (x y : Outcome A)
    → IsSame s x
    → IsSame s y
    → IsSame s (if b then x else y)
if-IsSame true s x y h k = h
if-IsSame false s x y h k = k

refresh_context_usage-IsSame :
    (now : ℕ) (tokens : Option (Option ℤ)) (s : Session)
    → IsSame s (refresh_context_usage now tokens s)
unfolding refresh_context_usage update_last_input_tokens
refresh_context_usage-IsSame now tokens s = ground arith

module _ (py : Language) (owner : String → Option String) (limit : ℕ) where
  consume_attempt-IsSame :
      (a : Attempt) (s : Session) → IsSame s (consume_attempt py owner limit a s)
  consume_attempt-IsSame a s = (consume-messages py.runtime owner limit a.recorded a.arrivals s).0

  resuming-status : (s : Session) → (resuming py owner limit s).status ≡ s.status
  unfolding resolve_for_resume update_sdk_session_id
  resuming-status s = elim (Option-cases (owner s.sdk_session_id)) [
    | inl n ↦ ground (arith, n)
    | inr (o, n) ↦ ground (arith, n)
  ]

  establish_stream-IsSame :
      (w : Encounter) (s : Session) → IsSame s (establish_stream py owner limit w s)
  unfolding establish_stream
  establish_stream-IsSame w s = ground (arith, resuming-status s)

  reconnect-IsSame : (w : Encounter) (s : Session) → IsSame s (reconnect py owner limit w s)
  reconnect-IsSame w s = elim (Bool-cases w.recovered) [
    | inl e ↦ rw e (
        then_do-IsSame (resuming py owner limit s) _ _
          (consume_attempt-IsSame w.second (resuming py owner limit s)) (λ t b. refl)
        ∙ resuming-status s)
    | inr e ↦ rw e refl
  ]

  after_stream-IsSame :
      (w : Encounter) (s : Session) (o : Outcome Bool)
      → IsSame s o
      → IsSame s (after_stream py owner limit w o)
  after_stream-IsSame w s (t, ok b) h = h
  after_stream-IsSame w s (t, err e) h = elim (Bool-cases w.cancelled) [
    | inl c ↦ rw c h
    | inr c ↦ elim (Bool-cases w.is_connected) [
      | inl k ↦ rw (c, k) (reconnect-IsSame w t ∙ h)
      | inr k ↦ rw (c, k) h
    ]
  ]

  consume_stream_with_retry-IsSame :
      (w : Encounter) (s : Session) → IsSame s (consume_stream_with_retry py owner limit w s)
  unfolding consume_stream_with_retry
  consume_stream_with_retry-IsSame w s =
      after_stream-IsSame w s (consume_attempt py owner limit w.first s)
        (consume_attempt-IsSame w.first s)

  retry_from-IsSame :
      (n : ℕ) (retries : ℕ → Retry) (s : Session) → IsSame s (retry_from py owner limit n retries s)
  unfolding retry_from
  retry_from-IsSame zero retries s = refl
  retry_from-IsSame (suc n) retries s =
      let r = retries n in
      let rounds = λ (s' : Session). retry_from py owner limit n retries s' in
      let next = λ (t : Session) (b : Bool). if b then rounds t else (t, ok false) in
      let step =
        then_do-IsSame s (consume_attempt py owner limit r.attempt s) next
          (consume_attempt-IsSame r.attempt s)
          (λ t b. if-IsSame b t _ _ (retry_from-IsSame n retries t) refl) in
      elim (Bool-cases (
        not (is_transient_result_error py owner limit (result_failure_reason py s))
        || r.cancelled_before)) [
          | inl a ↦ rw (retry_from, a) refl
          | inr a ↦ elim (Bool-cases r.recorded) [
            | inr b ↦ rw (retry_from, a, b) refl
            | inl b ↦ elim (Bool-cases r.cancelled_after) [
              | inl c ↦ rw (retry_from, a, b, c) refl
              | inr c ↦ rw (retry_from, a, b, c) step
            ]
          ]
        ]

  retry_transient_result-IsSame :
      (n : ℕ) (retries : ℕ → Retry) (got : Bool) (s : Session)
      → IsSame s (retry_transient_result py owner limit n retries got s)
  unfolding retry_transient_result
  retry_transient_result-IsSame n retries true s = retry_from-IsSame n retries s
  retry_transient_result-IsSame n retries false s = refl

  continued-IsSame :
      (count : ℕ) (again : Session → Bool → Outcome (Bool × ℕ)) (s : Session) (o : Outcome Bool)
      → IsSame s o
      → ((t : Session) (b : Bool) → IsSame t (again t b))
      → IsSame s (continued py owner limit count again o)
  continued-IsSame count again s (t, ok b) h k = k t b ∙ h
  continued-IsSame count again s (t, err e) h k = h

  auto_continue_from-IsSame :
      (n : ℕ) (continues : ℕ → Continue) (count : ℕ) (got : Bool) (s : Session)
      → IsSame s (auto_continue_from py owner limit n continues count got s)
  unfolding auto_continue_from
  auto_continue_from-IsSame zero continues count got s = refl
  auto_continue_from-IsSame (suc n) continues count got s =
      let c = continues n in
      let again =
        λ (t : Session) (b : Bool). auto_continue_from py owner limit n continues (count + 1) b t in
      let step =
        continued-IsSame (count + 1) again s (consume_attempt py owner limit c.attempt s)
          (consume_attempt-IsSame c.attempt s)
          (λ t b. auto_continue_from-IsSame n continues (count + 1) b t) in
      if-IsSame (got || c.cancelled || not c.connected) s _ _ refl
        (if-IsSame (not c.recorded) s _ _ refl step)

  emit_synthetic_result-IsSame :
      (now : ℕ) (announced : Bool) (count : ℕ) (s : Session)
      → IsSame s (emit_synthetic_result py owner limit now announced count s)
  unfolding emit_synthetic_result add_message
  emit_synthetic_result-IsSame now announced count s =
      elim (Option-cases (build_stream_end_result py now s count)) [
        | inl n ↦ rw (emit_synthetic_result, n) refl
        | inr (m, n) ↦ rw (emit_synthetic_result, n) refl
      ]

  finish_streaming-IsSame :
      (w : Encounter) (s : Session) (got : Bool)
      → IsSame s (finish_streaming py owner limit w s got)
  finish_streaming-IsSame w s got =
      then_do-IsSame s _ _ (retry_transient_result-IsSame w.max_retries w.retries got s) (λ s₁ g.
        then_do-IsSame s₁ _ _ (auto_continue_from-IsSame w.max_auto_continues w.continues 0 g s₁)
          (λ s₂ r.
            then_do-IsSame s₂ _ _
              (if-IsSame r.0 s₂ _ _ refl
                (emit_synthetic_result-IsSame w.result_now w.announced r.1 s₂))
              (λ s₃ u.
                then_do-IsSame s₃ _ _
                  (refresh_context_usage-IsSame w.context_now w.context_tokens s₃) (λ s₄ v. refl))))

  after_first-IsSame :
      (w : Encounter) (s : Session) (r : Option Bool) → IsSame s (after_first py owner limit w s r)
  after_first-IsSame w s none = refl
  after_first-IsSame w s (some got) = finish_streaming-IsSame w s got

  after_established-IsSame :
      (w : Encounter) (s : Session) (u : Unit {0})
      → IsSame s (after_established py owner limit w s u)
  after_established-IsSame w s u =
      then_do-IsSame s (consume_stream_with_retry py owner limit w s) (after_first py owner limit w)
        (consume_stream_with_retry-IsSame w s) (after_first-IsSame w)

  pub execute_streaming-IsSame :
      (w : Encounter) (s : Session) → IsSame s (execute_streaming py owner limit w s)
  unfolding execute_streaming
  execute_streaming-IsSame w s = if-IsSame w.directory_missing s _ _ refl (
      then_do-IsSame s (establish_stream py owner limit w s) (after_established py owner limit w)
        (establish_stream-IsSame w s) (after_established-IsSame w))
