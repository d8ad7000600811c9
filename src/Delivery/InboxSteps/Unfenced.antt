-- ===== src/Delivery/InboxSteps/Unfenced.antt =====
-- Where the lease check does not protect: after a manual requeue, and against a worker that never
-- reports.
use velpos.Prelude.{
  ℕ, zero, suc, ◌+◌, ◌≡◌, refl, String, Bool, true, false, none, some, arith, [], ◌∷◌, nat_eq,
  text_eq, text_eq_iff,
}
use velpos.Prelude.Result.{ok}
use velpos.Values.{Runtime}
use velpos.Delivery.Inbox
use velpos.Delivery.Inbox.{ImInboxEvent, ImInboxStatus, seconds}
use velpos.Delivery.Policy.{ImDeliveryPolicy}
use velpos.Delivery.InboxTable
use velpos.Delivery.InboxTable.{
  InboxRow, InboxTable, is_processing, is_dead, apply, write, update_row, save, locked_owned_model,
  claim_next, to_domain, select_next, earliest, inbox_route, with_route, is_expired, claimable,
}
use velpos.Binding.Route.{ChannelRoute}
use velpos.Delivery.InboxWorker.{InboxOutcome, settle}
use velpos.Delivery.InboxSteps.Fencing.{settle_fields}
use velpos.Delivery.InboxSteps.{InboxStep, InboxSteps, here, next, claiming, IsHeld}

abbrev pub nobody : ℕ → Bool
nobody i = false

abbrev pub single : InboxRow → InboxTable
single row = record { rows = row ∷ []; next_id = suc row.id }

-- The row of a claim of `row` itself.
abbrev pub claimed_row : (claim_now lease_seconds : ℕ) → InboxRow → InboxRow
claimed_row claim_now lease_seconds row = record row {
  status = ImInboxStatus.processing;
  attempt_count = row.attempt_count + 1;
  lease_until = some (claim_now + seconds lease_seconds);
  updated_at = claim_now;
}

single_decoded :
    (py : Runtime) (row : InboxRow) {r : ChannelRoute}
    → inbox_route py row ≡ some r
    → to_domain py row ≡ ok (with_route py row r)
unfolding to_domain
single_decoded py row route = rw (route, to_domain)

-- The only row of a table is claimed if it can be.
claim-single :
    (py : Runtime) (now lease_seconds claim_now : ℕ) (row : InboxRow) {r : ChannelRoute}
    → claimable nobody now (row ∷ []) row ≡ true
    → inbox_route py row ≡ some r
    → claim_next py nobody now lease_seconds claim_now (single row)
      ≡ ok (
        some (Inbox.claim claim_now lease_seconds (with_route py row r)),
        single (claimed_row claim_now lease_seconds row),
      )
unfolding claim_next apply update_row Inbox.claim with_route
claim-single py now lease_seconds claim_now row can route =
    ground (arith, single_decoded py row route)

-- A claimed row whose worker is gone: its lease ran out at some time.
record IsAbandoned (py : Runtime) (row : InboxRow) : Type 0 where
  busy : is_processing row.status ≡ true
  late : ℕ
  expired : is_expired late row.lease_until ≡ true
  route : ChannelRoute
  decoded : inbox_route py row ≡ some route

reclaim :
    (py : Runtime) (policy : ImDeliveryPolicy) (row : InboxRow)
    → IsAbandoned py row
    → (row' : InboxRow) × InboxStep py policy (single row) (single row')
      × IsAbandoned py row'
      × (row'.attempt_count ≡ row.attempt_count + 1)
unfolding inbox_route
reclaim py policy row h =
    let row' = claimed_row h.late policy.lease_seconds row in
    let busy = h.busy in
    let expired = h.expired in
    let step = claim-single py h.late policy.lease_seconds h.late row (ground arith) h.decoded in
    (
      row',
      claiming nobody h.late h.late step,
      record {
        busy = refl;
        late = h.late + seconds policy.lease_seconds;
        expired = ground arith;
        route = h.route;
        decoded = h.decoded;
      },
      refl,
    )

-- Steps of `n` workers that claim the row and never report.
reclaims :
    (py : Runtime) (policy : ImDeliveryPolicy) (row : InboxRow) (n : ℕ)
    → IsAbandoned py row
    → (row' : InboxRow) × InboxSteps py policy (single row) (single row')
      × IsAbandoned py row'
      × (row'.attempt_count ≡ row.attempt_count + n)
reclaims py policy row zero h = (row, here, h, omega arith)
reclaims py policy row (suc n) h =
    let (u, r, g, c) = reclaims py policy row n h in
    let (v, st, k, d) = reclaim py policy u g in (v, next r st, k, omega arith)

-- `max_attempts` does not bound the attempts of an event whose workers die without a report. From
-- a table with one event under way, whose lease has run out and whose route can be read, every
-- further attempt is reached, under any policy, with the event still being processed.
pub crashes_never_dead_letter :
    (py : Runtime) (policy : ImDeliveryPolicy) (row : InboxRow) (late n : ℕ) {r : ChannelRoute}
    → is_processing row.status ≡ true
    → is_expired late row.lease_until ≡ true
    → inbox_route py row ≡ some r
    → (row' : InboxRow) × InboxSteps py policy (single row) (single row')
      × (row'.attempt_count ≡ row.attempt_count + n)
      × (is_processing row'.status ≡ true)
crashes_never_dead_letter py policy row late n {r} busy expired route =
    let h : IsAbandoned py row = record {
      busy = busy;
      late = late;
      expired = expired;
      route = r;
      decoded = route;
    } in
    let (u, steps, g, c) = reclaims py policy row n h in (u, steps, c, g.busy)

-- The row of a requeue of `row` itself.
abbrev pub requeued_row : (now : ℕ) → InboxRow → InboxRow
requeued_row now row = record row {
  status = ImInboxStatus.retry;
  attempt_count = 0;
  next_attempt_at = now;
  lease_until = none;
  updated_at = now;
}

requeue-single :
    (py : Runtime) (now : ℕ) (row : InboxRow) {r : ChannelRoute}
    → is_dead row.status ≡ true
    → inbox_route py row ≡ some r
    → InboxTable.requeue py row.id row.session_id now (single row)
      ≡ ok (some (Inbox.requeued now (with_route py row r)), single (requeued_row now row))
unfolding InboxTable.requeue apply update_row with_route
requeue-single py now row dead route =
    ground (arith, single_decoded py row route, text_eq_iff row.session_id row.session_id)

-- A manual requeue defeats the lease check. Let a worker hold the first attempt of the event, and
-- let the event be a dead letter meanwhile (its route can be read). After a requeue and the claim
-- of another worker, the first one's write passes the check, for whatever outcome, although the
-- lease is the other's.
pub requeue_revives_stale_lease :
    (py : Runtime) (row : InboxRow) (e : ImInboxEvent) (now lease_seconds : ℕ) {r : ChannelRoute}
    (randbelow : ℕ → ℕ) (policy : ImDeliveryPolicy) (later : ℕ) (outcome : InboxOutcome)
    (message : String)
    → IsHeld e
    → e.attempt_count ≡ 1
    → e.id ≡ row.id
    → is_dead row.status ≡ true
    → inbox_route py row ≡ some r
    → (t' t'' : InboxTable) × (InboxTable.requeue py row.id row.session_id now (single row)
        ≡ ok (some (Inbox.requeued now (with_route py row r)), t'))
      × (claim_next py nobody now lease_seconds now t'
          ≡ ok (some (Inbox.claim now lease_seconds (with_route py (requeued_row now row) r)), t''))
      × (save (settle randbelow policy later outcome message e) t''
          ≡ ok (write (settle randbelow policy later outcome message e) t''))
unfolding inbox_route save locked_owned_model
requeue_revives_stale_lease py row e now lease_seconds randbelow policy later outcome message held
      first same dead route =
    let s = settle randbelow policy later outcome message e in
    let (i, l, _, _, _) = settle_fields randbelow policy later outcome message e in
    let snap = held.snapshot in
    (
      single (requeued_row now row),
      single (claimed_row now lease_seconds (requeued_row now row)),
      requeue-single py now row dead route,
      claim-single py now lease_seconds now (requeued_row now row) (ground arith) route,
      ground arith,
    )
