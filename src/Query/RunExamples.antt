-- ===== src/Query/RunExamples.antt =====
-- Runs of the query engine, their queue and their streams, at concrete inputs.
use velpos.Prelude.{
  ℕ, ◌+◌, String, Bool, true, false, Option, none, some, List, [], ◌∷◌, Memᴰ, mem-cons_cases, ◌==◌,
  text_eq, text_eq_iff, ◌≡◌, refl, subst, sym, ◌∙◌, ap, ◌⊎◌, inl, inr, arith, if◌then◌else◌,
}
use velpos.Prelude.Result.{ok}
use velpos.Values.{pos}
use velpos.Session.Messages.{assistant, result, user, create}
use velpos.Session.{Session, idle, running, error}
use velpos.Query.Command.{RunQueryCommand, compose_prompt, attachment_refs}
use velpos.Query.Prepare.{QueryError}
use velpos.Query.Examples.{plain, fresh, ask, context, prepared}
use velpos.Query.Finish.{Surroundings, settle, finalize_query}
use velpos.Query.Finish.Settled.{settle-finalize_query, settle-unsaved}
use velpos.Query.Queue.{
  State, fresh as empty_state, activate, queue_message, deactivate, drain_queue, begin, queue, end,
  drain, Reachable, start, then_step, abandon, queued, run_immediately, no_run, settle_steer,
}
use velpos.Query.Queue.Conserved.{count, placed, Reachable-Conserved}
use velpos.Query.Queue.Rest.{
  TimelyReachable, fresh_state, then_timely, TimelyReachable-rest, IsOver, IsStranded,
  Reachable-IsStranded,
}
use velpos.Query.Queue.Mailbox.{
  History, begins, queues, opened, put, mailbox_after, History-refines,
}
use velpos.Query.Binding.{try_bind}
use velpos.Query.Binding.Unique.{IsUnique, IsOwner, store, owner_in, try_bind-IsUnique}
use velpos.Query.Stream.{StreamMessage, Arrival, message, consume}
use velpos.Query.Stream.Outcome.{types}
use velpos.Query.Stream.Results.{consume-messages}
use velpos.Query.LockPool.{KeyedLockPool, empty_pool, acquire}
use velpos.Query.LockPool.Shared.{acquired, new_pool, takers_share}
use velpos.Query.Run.{Attempt, Encounter, execute_streaming, run_prepared}
use velpos.Query.Run.Ends.{ended_well, run_prepared-status}

abbrev calm : Surroundings
calm = record {
  result_now = 8;
  error_now = 9;
  cancelled_at_result = false;
  cancelled_at_error = false;
  has_callback = true;
  result_recorded = true;
  error_recorded = true;
}

abbrev settled : Session
settled = (settle plain calm false context.session none).session

settle-finalize_query_example :
    ((finalize_query false false true true true settled (some ask)).queued ≡ none)
    × ((finalize_query false false true true true settled (some ask)).started ≡ some ask)
settle-finalize_query_example =
    settle-finalize_query plain calm context.session none false true true true (some ask) refl refl
      refl

settle-unsaved_example :
    ((finalize_query false false false true true settled (some ask)).notified ≡ false)
    × ((e : QueryError) × ((finalize_query false false false true true settled (some ask)).raised
          ≡ some e))
settle-unsaved_example =
    settle-unsaved plain calm context.session none true true (some ask) refl refl refl

abbrev first_words : State
first_words = (queue_message ask (activate context empty_state)).1

started_run : Reachable plain first_words
unfolding activate
started_run = then_step (then_step start (begin context refl refl refl)) (queue ask)

abbrev asks_why : RunQueryCommand → Bool
asks_why c = c.prompt == "why?"

Reachable-Conserved_example : count asks_why first_words.accepted ≡ placed asks_why first_words
Reachable-Conserved_example = Reachable-Conserved asks_why plain started_run

abbrev at_rest : State
at_rest = drain_queue true (deactivate first_words)

timely_run : TimelyReachable plain at_rest
unfolding activate queue_message deactivate
timely_run =
    then_timely
      (then_timely
        (then_timely (then_timely fresh_state (begin context refl refl refl) tt) (queue ask) tt)
        (end refl) tt)
      (drain true refl) tt

TimelyReachable-rest_example :
    (at_rest.queued ≡ none)
    × ((p : RunQueryCommand → Bool)
        → count p at_rest.accepted
          ≡ count p at_rest.held
            + count p at_rest.started
            + count p at_rest.steered
            + count p at_rest.dropped)
unfolding activate queue_message deactivate drain_queue
TimelyReachable-rest_example = TimelyReachable-rest plain timely_run refl refl

composed : compose_prompt plain ask ≡ ok "why?"
unfolding compose_prompt attachment_refs
composed = refl

Reachable-IsStranded_example :
    ((s : State) × (s.held ≡ ask ∷ [])
      × (s.queued ≡ none)
      × IsOver plain s
      × Reachable plain s
      × Reachable plain (settle_steer no_run ask [] [] s)
      × IsStranded plain ask (settle_steer no_run ask [] [] s))
    × ((s : State) × (s.finalizing ≡ true)
        × Reachable plain (abandon s)
        × IsStranded plain ask (abandon s))
Reachable-IsStranded_example = Reachable-IsStranded plain context ask composed

short_history : History first_words (put ask ∷ opened ∷ [])
short_history = queues ask (begins context History.fresh_state refl refl)

History-refines_example :
    ((queue_message ask first_words).0
      ≡ (if (mailbox_after (put ask ∷ opened ∷ [])).is_open then queued else run_immediately))
    × ((mailbox_after (put ask ∷ opened ∷ [])).waiting ≡ some ask)
    × ((mailbox_after (put ask ∷ opened ∷ [])).delivered ≡ [])
unfolding activate queue_message
History-refines_example = History-refines short_history ask

abbrev other : Session
other = record fresh { session_id = "s2"; sdk_session_id = "taken" }

abbrev rows : List Session
rows = fresh ∷ other ∷ []

row : {s : Session} → Memᴰ s rows → (s ≡ fresh) ⊎ (s ≡ other)
row m = elim (mem-cons_cases m) [
  | inl e ↦ inl e
  | inr n ↦ elim (mem-cons_cases n) [ inl e ↦ inr e | inr k ↦ elim k [ ] ]
]

fresh-IsOwner : IsOwner fresh rows
fresh-IsOwner r m e (x, f) = absurd (ground (arith, x))

other-IsOwner : IsOwner other rows
other-IsOwner r m e x = elim (row m) [
  | inl p ↦
      let q : ◌≡◌ {A = String} "" "taken" = ap (λ (t : Session). t.sdk_session_id) (sym p) ∙ e in
      absurd (ground (arith, text_eq_iff "" "taken", q))
  | inr p ↦ ap (λ (t : Session). t.session_id) p
]

rows-IsUnique : IsUnique rows
rows-IsUnique s m = elim (row m) [
  | inl p ↦ subst (λ t. IsOwner t rows) (sym p) fresh-IsOwner
  | inr p ↦ subst (λ t. IsOwner t rows) (sym p) other-IsOwner
]

-- The offer of a conversation that another session has.
try_bind-IsUnique_example : IsUnique (store (try_bind (owner_in rows) "taken" fresh).1 rows)
try_bind-IsUnique_example = try_bind-IsUnique rows rows-IsUnique fresh "taken" fresh-IsOwner

abbrev says : String → StreamMessage
says type = record {
  message_type = type;
  content = [];
  resume_failed = false;
  sdk_user_message_uuid = "";
  context_input_tokens = none;
  tokens = some (pos 7, pos 2);
  num_turns = pos 1;
  sdk_session_id = "sdk1";
}

abbrev heard : List Arrival
heard =
    message 4 true true (says "assistant")
    ∷ message 5 true true (says "noise")
    ∷ message 6 true true (says "result")
    ∷ []

abbrev nobody : String → Option String
nobody sdk = none

consume-messages_example :
    ((consume plain.runtime nobody 0 true heard context.session).0.status ≡ running)
    × ((b : Bool)
        → (consume plain.runtime nobody 0 true heard context.session).1 ≡ ok b
        → (types (consume plain.runtime nobody 0 true heard context.session).0.messages
            ≡ user ∷ assistant ∷ result ∷ [])
          × (b ≡ true))
unfolding create
consume-messages_example = consume-messages plain.runtime nobody 0 true heard context.session

abbrev first_try : Attempt
first_try = record { arrivals = heard; recorded = true }

abbrev smooth : Encounter
smooth = record {
  directory_missing = false;
  started = true;
  is_connected = true;
  sends = true;
  first = first_try;
  cancelled = false;
  recovered = true;
  second = first_try;
  max_retries = 2;
  retries = λ n. record {
    cancelled_before = false;
    recorded = true;
    cancelled_after = false;
    attempt = first_try;
  };
  max_auto_continues = 10;
  continues =
      λ n. record { cancelled = false; connected = true; recorded = true; attempt = first_try };
  result_now = 7;
  announced = true;
  context_now = 7;
  context_tokens = some none;
}

run_prepared-status_example : (run_prepared plain nobody 0 smooth calm context).session.status ≡ (
    if ended_well plain nobody 0 (execute_streaming plain nobody 0 smooth context.session)
    then idle
    else error)
run_prepared-status_example =
    run_prepared-status plain nobody 0 2 3 "r1" "u1" (some fresh) ask smooth calm {ctx = context}
      prepared refl refl refl

-- Two requests of one session, and the lock that each of them gets from a pool of one place.
abbrev unlocked : ℕ → Bool
unlocked l = false

abbrev one_taken : ℕ × KeyedLockPool
one_taken = acquire unlocked 1 "s1" empty_pool

abbrev two_taken : ℕ × KeyedLockPool
two_taken = acquire unlocked 1 "s1" one_taken.1

takers_share_example : two_taken.0 ≡ one_taken.0
takers_share_example =
    takers_share (acquired unlocked "s1" (acquired unlocked "s1" new_pool)) "s1" two_taken.0
      one_taken.0 (Memᴰ.head refl) (Memᴰ.tail (Memᴰ.head refl))
