-- ===== src/Query/Queue/Rest.antt =====
-- A waiting message and the run that is to hand it over
-- (backend/application/session/session_query_engine.py).
use velpos.Prelude.{
  ◌+◌, String, Bool, true, false, none, some, [], ◌∷◌, ◌||◌, ◌≡◌, refl, arith, Option-cases, inl,
  inr,
}
use velpos.Prelude.Result.{ok, Result-cases}
use velpos.Query.Command.{Language, RunQueryCommand, compose_prompt}
use velpos.Query.Prepare.{QueryContext}
use velpos.Query.Queue.{
  State, fresh, is_some, activate, queue_message, clear_queued_message, claim_queued_message, sent,
  no_run, client_error, settle_steer, cleanup_session_state, deactivate, drain_queue, abandon, Step,
  begin, queue, clear, claim, steer, clean, end, drain, give_up, Reachable, start, then_step,
}
use velpos.Query.Queue.Conserved.{count, Reachable-Conserved}

-- A run is active or a finalizer is under way.
abbrev pub is_attended : State → Bool
is_attended s = is_some s.active || s.finalizing

abbrev pub IsAttended : State → Type 0
IsAttended s = is_some s.queued ≡ true → is_attended s ≡ true

module _ (py : Language) where
  -- A step that does not come too late: a command is given back while the run or its finalizer is
  -- there, and a finalizer that gives up leaves no message behind.
  abbrev pub Timely : {s t : State} → Step py s t → Type 0
  Timely {s} (steer no_run c before after e) = is_attended s ≡ true
  Timely {s} (give_up f) = s.queued ≡ none
  Timely m = Unit

  pub data TimelyReachable : State → Type 0 where
    fresh_state : TimelyReachable fresh
    then_timely :
        {s t : State} → TimelyReachable s → (m : Step py s t) → Timely m → TimelyReachable t

  pub reachable : {s : State} → TimelyReachable s → Reachable py s
  reachable fresh_state = start
  reachable (then_timely r m l) = then_step (reachable r) m

  claim-IsAttended :
      (streaming : Bool) (c : RunQueryCommand) (prompt : String) (s t : State)
      → claim_queued_message py streaming s ≡ ok (c, prompt, t)
      → IsAttended t
  unfolding claim_queued_message
  claim-IsAttended streaming c prompt s t e = elim (Option-cases s.queued) [
    | inl n ↦ absurd (ground (arith, n))
    | inr (d, n) ↦ elim (Result-cases (compose_prompt py d)) [
      | inl (x, k) ↦ absurd (ground (arith, n, k))
      | inr (text, k) ↦ λ q. ground (arith, n, k, q)
    ]
  ]

  Step-IsAttended : {s t : State} (m : Step py s t) → Timely m → IsAttended s → IsAttended t
  unfolding activate deactivate abandon queue_message clear_queued_message drain_queue settle_steer
      cleanup_session_state
  Step-IsAttended (begin ctx a d f) l h = λ q. ground arith
  Step-IsAttended {s} (queue c) l h = λ q. ground arith
  Step-IsAttended {s} clear l h = λ q. ground arith
  Step-IsAttended {s} {t} (claim streaming c prompt e) l h =
      claim-IsAttended streaming c prompt s t e
  Step-IsAttended {s} (steer sent c before after e) l h = λ q. ground arith
  Step-IsAttended {s} (steer no_run c before after e) l h = λ q. ground arith
  Step-IsAttended {s} (steer client_error c before after e) l h = λ q. ground arith
  Step-IsAttended {s} clean l h = λ q. ground arith
  Step-IsAttended (end a) l h = λ q. ground arith
  Step-IsAttended {s} (drain true f) l h = λ q. ground arith
  Step-IsAttended {s} (drain false f) l h = λ q. ground arith
  Step-IsAttended (give_up f) l h = λ q. ground arith

  TimelyReachable-IsAttended : {s : State} → TimelyReachable s → IsAttended s
  TimelyReachable-IsAttended fresh_state = λ q. ground arith
  TimelyReachable-IsAttended (then_timely r m l) =
      Step-IsAttended m l (TimelyReachable-IsAttended r)

  none-unattended :
      (s : State) → IsAttended s → s.active ≡ none → s.finalizing ≡ false → s.queued ≡ none
  none-unattended s h a f = elim (Option-cases s.queued) [
    | inl n ↦ n
    | inr (c, n) ↦
        let q : is_attended s ≡ true = h (ground (arith, n)) in absurd (ground (arith, a, f, q))
  ]

  -- In every interleaving without such late steps, when no run is active and no finalizer under way
  -- no message waits: each one that was taken was started, steered into a run, is held by a steer
  -- under way, or was dropped (for a later message, by a clear, with the session,
  -- or by an error).
  pub TimelyReachable-rest :
      {s : State}
      → TimelyReachable s
      → s.active ≡ none
      → s.finalizing ≡ false
      → (s.queued ≡ none)
        × ((p : RunQueryCommand → Bool)
            → count p s.accepted
              ≡ count p s.held + count p s.started + count p s.steered + count p s.dropped)
  TimelyReachable-rest {s} r a f =
      let n = none-unattended s (TimelyReachable-IsAttended r) a f in
      (n, λ p. ground (arith, n, Reachable-Conserved p py (reachable r)))

  -- No run is under way, with or without its entry, and no finalizer.
  abbrev pub IsOver : State → Type 0
  IsOver s = (s.active ≡ none) × (s.detached ≡ false) × (s.finalizing ≡ false)

  -- A message that waits although no run will hand it over.
  abbrev pub IsStranded : RunQueryCommand → State → Type 0
  IsStranded c s = (s.queued ≡ some c) × IsOver s

  abbrev running_with : QueryContext → RunQueryCommand → State
  running_with ctx c = (queue_message c (activate ctx fresh)).1

  queued_run : (ctx : QueryContext) (c : RunQueryCommand) → Reachable py (running_with ctx c)
  queued_run ctx c = then_step (then_step start (begin ctx refl refl refl)) (queue c)

  -- The late steps do happen, and leave a message with no run to hand it over. Any message whose
  -- prompt can be composed may be held by a steer although the run it is for is over and the queue
  -- is empty, and when the gateway refuses that steer the message is left waiting. A finalizer that
  -- gives up leaves any waiting message so.
  pub Reachable-IsStranded :
      (ctx : QueryContext) (c : RunQueryCommand) {prompt : String}
      → compose_prompt py c ≡ ok prompt
      → ((s : State) × (s.held ≡ c ∷ [])
          × (s.queued ≡ none)
          × IsOver s
          × Reachable py s
          × Reachable py (settle_steer no_run c [] [] s)
          × IsStranded c (settle_steer no_run c [] [] s))
        × ((s : State) × (s.finalizing ≡ true)
            × Reachable py (abandon s)
            × IsStranded c (abandon s))
  unfolding activate deactivate abandon queue_message drain_queue settle_steer claim_queued_message
  Reachable-IsStranded ctx c {prompt} k =
      let s = running_with ctx c in
      let t = record s { queued = none; held = c ∷ [] } in
      let claimed = then_step (queued_run ctx c) (claim {t = t} true c prompt (rw k refl)) in
      let ended = then_step claimed (end refl) in
      let drained = then_step ended (drain true refl) in
      (
        (
          drain_queue true (deactivate t),
          refl,
          refl,
          (refl, refl, refl),
          drained,
          then_step drained (steer no_run c [] [] refl),
          (refl, (refl, refl, refl)),
        ),
        (
          deactivate s,
          refl,
          then_step (then_step (queued_run ctx c) (end refl)) (give_up refl),
          (refl, (refl, refl, refl)),
        ),
      )
