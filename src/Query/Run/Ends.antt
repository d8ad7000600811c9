-- ===== src/Query/Run/Ends.antt =====
-- How a run of `run_claude_query` leaves the status of its session
-- (backend/application/session/session_query_engine.py).
use velpos.Prelude.{
  ℕ, String, Bool, true, false, Option, none, some, ◌≡◌, refl, ◌∙◌, arith, is_empty, Bool-cases,
  inl, inr, if◌then◌else◌,
}
use velpos.Prelude.Result.{ok, err, Result-cases}
use velpos.Session.{Session, idle, error, running}
use velpos.Query.Command.{Language, RunQueryCommand}
use velpos.Query.Prepare.{QueryContext, prepare_query}
use velpos.Query.Answer.{result_failure_reason}
use velpos.Query.Finish.{Surroundings}
use velpos.Query.Finish.Settled.{settle-status}
use velpos.Query.Run.Same.{IsSame, execute_streaming-IsSame}
use velpos.Query.Prepare.Running.{prepare_query-running}
use velpos.Query.Run.{
  Encounter, Outcome, then_do, refresh_context_usage, consume_attempt, resuming, establish_stream,
  reconnect, after_stream, consume_stream_with_retry, finish_streaming, after_first,
  after_established, execute_streaming, settled_as, run_prepared,
}

module _ (py : Language) (owner : String → Option String) (limit : ℕ) where
  -- What a step gives, where it gives something, is not `true`.
  abbrev NeverTrue : Outcome Bool → Type 0
  NeverTrue o = (b : Bool) → o.1 ≡ ok b → b ≡ false

  if-NeverTrue :
      (b : Bool) (x y : Outcome Bool) → NeverTrue x → NeverTrue y → NeverTrue (if b then x else y)
  if-NeverTrue true x y h k = h
  if-NeverTrue false x y h k = k

  then_do-NeverTrue :
      {A : Type 0} (o : Outcome A) (f : Session → A → Outcome Bool)
      → ((t : Session) (a : A) → o.1 ≡ ok a → NeverTrue (f t a))
      → NeverTrue (then_do o f)
  unfolding then_do
  then_do-NeverTrue (t, ok a) f k = k t a refl
  then_do-NeverTrue (t, err e) f k = λ b h. absurd (ground (arith, h))

  finish_streaming-NeverTrue :
      (w : Encounter) (s : Session) (got : Bool)
      → NeverTrue (finish_streaming py owner limit w s got)
  finish_streaming-NeverTrue w s got = then_do-NeverTrue _ _ (λ s₁ g e.
      then_do-NeverTrue _ _ (λ s₂ r f. then_do-NeverTrue _ _ (λ s₃ u g.
        then_do-NeverTrue (refresh_context_usage w.context_now w.context_tokens s₃)
          (λ s₄ v. (s₄, ok false)) (λ s₄ v h b k. ground (arith, k)))))

  reconnect-some : (w : Encounter) (s : Session) → (reconnect py owner limit w s).1 ≡ ok none → ⊥
  unfolding then_do
  reconnect-some w s h = elim (Bool-cases w.recovered) [
    | inr e ↦ absurd (ground (arith, e, h))
    | inl e ↦
        let x = consume_attempt py owner limit w.second (resuming py owner limit s) in
        elim (Result-cases x.1) [
          | inl (d, k) ↦ absurd (ground (arith, e, k, h))
          | inr (b, k) ↦ absurd (ground (arith, e, k, h))
        ]
  ]

  after_stream-some :
      (w : Encounter) (o : Outcome Bool)
      → w.cancelled ≡ false
      → (after_stream py owner limit w o).1 ≡ ok none
      → ⊥
  after_stream-some w (t, ok b) c h = absurd (ground (arith, h))
  after_stream-some w (t, err e) c h = elim (Bool-cases w.is_connected) [
    | inl k ↦ reconnect-some w t (rw (c, k) at h)
    | inr k ↦ absurd (ground (arith, c, k, h))
  ]

  after_first-NeverTrue :
      (w : Encounter) (s t : Session) (r : Option Bool)
      → w.cancelled ≡ false
      → (consume_stream_with_retry py owner limit w s).1 ≡ ok r
      → NeverTrue (after_first py owner limit w t r)
  unfolding consume_stream_with_retry
  after_first-NeverTrue w s t none c h =
      absurd (after_stream-some w (consume_attempt py owner limit w.first s) c h)
  after_first-NeverTrue w s t (some got) c h = finish_streaming-NeverTrue w t got

  execute_streaming-NeverTrue :
      (w : Encounter) (s : Session)
      → w.cancelled ≡ false
      → NeverTrue (execute_streaming py owner limit w s)
  unfolding execute_streaming
  execute_streaming-NeverTrue w s c =
      if-NeverTrue w.directory_missing _ _ (λ b h. absurd (ground (arith, h)))
        (then_do-NeverTrue (establish_stream py owner limit w s)
          (after_established py owner limit w)
          (λ s₁ u x.
            then_do-NeverTrue (consume_stream_with_retry py owner limit w s₁)
              (after_first py owner limit w) (λ t r y. after_first-NeverTrue w s₁ t r c y)))

  -- Whether a run ended well: nothing was raised, and the last result is no failure.
  abbrev pub ended_well : Outcome Bool → Bool
  ended_well (s, ok b) = is_empty (result_failure_reason py s)
  ended_well (s, err e) = false

  settled_as-status :
      (v : Surroundings) (s : Session) (o : Outcome Bool)
      → IsSame s o
      → NeverTrue o
      → s.status ≡ running
      → v.cancelled_at_result ≡ false
      → v.cancelled_at_error ≡ false
      → (settled_as py owner limit v o).session.status ≡ (if ended_well o then idle else error)
  settled_as-status v s (t, err e) h k r a b = settle-status py v t (some e) (h ∙ r) a b
  settled_as-status v s (t, ok true) h k r a b = absurd (ground (arith, k true refl))
  settled_as-status v s (t, ok false) h k r a b = settle-status py v t none (h ∙ r) a b

  -- A request is prepared and run, and nobody cancels it. Then, whatever the gateway, the recorders
  -- and the callback do, and however often the loops go round, the session does not stay running: it
  -- is idle if streaming raised nothing and the last result is no failure, and in error otherwise.
  pub run_prepared-status :
      (now message_now : ℕ) (run_id uuid : String) (found : Option Session) (c : RunQueryCommand)
      (w : Encounter) (v : Surroundings) {ctx : QueryContext}
      → prepare_query py now message_now run_id uuid found c ≡ ok ctx
      → w.cancelled ≡ false
      → v.cancelled_at_result ≡ false
      → v.cancelled_at_error ≡ false
      → (run_prepared py owner limit w v ctx).session.status
        ≡ (if ended_well (execute_streaming py owner limit w ctx.session) then idle else error)
  unfolding run_prepared
  run_prepared-status now message_now run_id uuid found c w v {ctx} e k a b =
      settled_as-status v ctx.session (execute_streaming py owner limit w ctx.session)
        (execute_streaming-IsSame py owner limit w ctx.session)
        (execute_streaming-NeverTrue w ctx.session k)
        (prepare_query-running py now message_now run_id uuid found c e) a b
