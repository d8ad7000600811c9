-- ===== src/Session/Diagram.antt =====
-- The status diagram of a session (session.py).
use velpos.Prelude.{ℕ, ◌≡◌, refl, String, Bool, true, false, Option, some, [], ◌∷◌, ◌++◌, arith}
use velpos.Prelude.Result.{Result, ok, ◌>>=◌}
use velpos.Values.{Value, ℤ}
use velpos.Session.Messages.{Message, Usage}
use velpos.Session.{
  Session, SessionStatus, idle, running, error, compacting, SessionError, start_query,
  complete_query, cancel_query, rewind_to, fail_query,
}
use velpos.Session.Operations.{
  add_message, update_usage, clear_context, rename, initialize_usage, start_compact,
  complete_compact, fail_compact, compact_marker,
}

-- The methods that may raise, and the ones that report on the run.
pub data SessionOp : Type 0 where
  start complete cancel fail : SessionOp
  rewind : ℤ → SessionOp
  clear begin_compact abort_compact : SessionOp
  end_compact : Option Usage → SessionOp
  append : Option Message → SessionOp
  report initialize : ℤ → ℤ → SessionOp
  name : String → SessionOp

abbrev second_of : Value × Session → Result SessionError Session
second_of (p, s) = ok s

-- One method call at time `now`, its result left out.
unfoldable pub run : (now : ℕ) → SessionOp → Session → Result SessionError Session
unfolding start_query complete_query cancel_query fail_query rewind_to clear_context start_compact
    fail_compact complete_compact add_message update_usage initialize_usage rename
run now start s = start_query s
run now complete s = complete_query now s
run now cancel s = cancel_query now s >>= second_of
run now fail s = fail_query s
run now (rewind i) s = rewind_to now i s >>= second_of
run now clear s = clear_context now s
run now begin_compact s = start_compact s
run now abort_compact s = fail_compact s
run now (end_compact u) s = complete_compact now now u s
run now (append m) s = add_message m s
run now (report i o) s = update_usage i o s
run now (initialize i o) s = initialize_usage i o s
run now (name n) s = ok (rename now n s)

infix 40 ◌⟶◌
pub data ◌⟶◌ : SessionStatus → SessionStatus → Type 0 where
  stay : {a : SessionStatus} → a ⟶ a
  query : idle ⟶ running
  retry : error ⟶ running
  finish : running ⟶ idle
  break : running ⟶ error
  recover : error ⟶ idle
  compact : idle ⟶ compacting
  compacted : compacting ⟶ idle

abbrev edge : SessionStatus → SessionStatus → Bool
edge idle error = false
edge compacting running = false
edge compacting error = false
edge running compacting = false
edge error compacting = false
edge a b = true

edge-⟶ : (a b : SessionStatus) → edge a b ≡ true → a ⟶ b
edge-⟶ idle idle h = stay
edge-⟶ idle running h = query
edge-⟶ idle error h = absurd (ground arith)
edge-⟶ idle compacting h = compact
edge-⟶ running idle h = finish
edge-⟶ running running h = stay
edge-⟶ running error h = break
edge-⟶ running compacting h = absurd (ground arith)
edge-⟶ error idle h = recover
edge-⟶ error running h = retry
edge-⟶ error error h = stay
edge-⟶ error compacting h = absurd (ground arith)
edge-⟶ compacting idle h = compacted
edge-⟶ compacting running h = absurd (ground arith)
edge-⟶ compacting error h = absurd (ground arith)
edge-⟶ compacting compacting h = stay

run-edge :
    (now : ℕ) (op : SessionOp) (s : Session) {s' : Session}
    → run now op s ≡ ok s'
    → edge s.status s'.status ≡ true
unfolding run
run-edge now start s h = ground arith
run-edge now _ s h = ground arith

-- An accepted call follows an edge of the diagram or keeps the status.
pub run-IsEdge :
    (now : ℕ) (op : SessionOp) (s : Session) {s' : Session}
    → run now op s ≡ ok s'
    → s.status ⟶ s'.status
run-IsEdge now op s {s'} h = edge-⟶ s.status s'.status (run-edge now op s h)

-- A compaction keeps the history: from an idle session, begin and end leave the messages with one
-- marker more, the given usage, and the session idle; begin and abort leave the session as it was.
pub compaction_keeps_history :
    (now : ℕ) (u : Usage) (s : Session)
    → s.status ≡ idle
    → (s' : Session) × ((start_compact s >>= complete_compact now now (some u)) ≡ ok s')
      × (s'.messages ≡ s.messages ++ compact_marker now ∷ [])
      × (s'.usage ≡ u)
      × (s'.status ≡ idle)
      × ((start_compact s >>= fail_compact) ≡ ok s)
unfolding start_compact complete_compact fail_compact
compaction_keeps_history now u s rest = (
  record s {
    messages = s.messages ++ compact_marker now ∷ [];
    usage = u;
    continue_conversation = true;
    status = idle;
    updated_time = some now;
  },
  ground arith,
  refl,
  refl,
  refl,
  ground arith,
)
