-- ===== src/Delivery/InboxSteps/Fencing.antt =====
-- The attempts of one event under the steps of the workers.
use velpos.Prelude.{
  ℕ, ◌+◌, ◌≡◌, ◌≤◌, ◌<◌, refl, sym, ap, subst, inl, inr, String, Bool, true, false, Option, List,
  Memᴰ, arith, ◌==◌, nat_eq, text_eq, Bool-cases, mem-append_one, if◌then◌else◌, mem-map_inv,
}
use velpos.Prelude.Result.{ok, Result-cases}
use velpos.Values.{Runtime}
use velpos.Delivery.Inbox
use velpos.Delivery.Inbox.{ImInboxEvent, ImInboxStatus}
use velpos.Delivery.Policy.{ImDeliveryPolicy}
use velpos.Delivery.InboxTable.{
  InboxRow, InboxTable, is_processing, expected_attempt, save, renew_lease, apply, update_row,
  accept, to_model, release_row, is_deferred, release_pending_retries,
}
use velpos.Delivery.InboxTable.Rows.{mem-update_row}
use velpos.Delivery.InboxTable.Owned.{owned-cases, save-ok, renew_lease-ok, leased}
use velpos.Delivery.InboxTable.Once.{accept-cases}
use velpos.Delivery.InboxTable.Claim.{IsClaim, claim_next-IsClaim, claimed_fields}
use velpos.Delivery.InboxWorker.{InboxOutcome, Notification, settle, finish_inbox}
use velpos.Delivery.InboxSteps.{
  IsHeld, InboxStep, InboxSteps, accepting, claiming, renewing, finishing, releasing, here, next,
}

-- Every row of the event has reached attempt `k`.
pub record HasReached (i k : ℕ) (t : InboxTable) : Type 0 where
  pub old : i < t.next_id
  pub reached : (r : InboxRow) → Memᴰ r t.rows → r.id ≡ i → k ≤ r.attempt_count

-- Attempt `k` of the event is over: any attempt under way is a later one.
pub record IsOver (i k : ℕ) (t : InboxTable) : Type 0 where
  pub old : i < t.next_id
  pub reached : (r : InboxRow) → Memᴰ r t.rows → r.id ≡ i → k ≤ r.attempt_count
  pub passed :
      (r : InboxRow)
      → Memᴰ r t.rows
      → r.id ≡ i
      → is_processing r.status ≡ true
      → k < r.attempt_count

-- What is known of the row of an update: it is an old row, changed if it has the identifier.
module _ {i k : ℕ} {t : InboxTable} (h : IsOver i k t) where
  -- An update that ends no attempt below `k` and starts none keeps attempt `k` over.
  update-IsOver :
      (j : ℕ) (f : InboxRow → InboxRow)
      → ((r : InboxRow) → (f r).id ≡ r.id)
      → ((r : InboxRow)
          → Memᴰ r t.rows
          → r.id ≡ i
          → j ≡ i
          → (k ≤ (f r).attempt_count)
            × (is_processing (f r).status ≡ true → k < (f r).attempt_count))
      → IsOver i k (record t { rows = update_row j f t.rows })
  update-IsOver j f keeps good = record {
    old = h.old;
    reached = λ r m e. (both r m e).0;
    passed = λ r m e. (both r m e).1;
  }
    where
      changed :
          (r y : InboxRow)
          → Memᴰ y t.rows
          → r ≡ (if y.id == j then f y else y)
          → r.id ≡ i
          → (k ≤ r.attempt_count) × (is_processing r.status ≡ true → k < r.attempt_count)
      changed r y m q e = elim (Bool-cases (y.id == j)) [
        | inl same ↦
            let d : r ≡ f y = ground arith in
            let (lo, hi) = good y m (ground (arith, keeps y)) (ground (arith, keeps y)) in
            (rw d lo, rw d hi)
        | inr other ↦
            let d : r ≡ y = ground arith in
            (rw d (h.reached y m (ground arith)), rw d (h.passed y m (ground arith)))
      ]

      both :
          (r : InboxRow)
          → Memᴰ r (update_row j f t.rows)
          → r.id ≡ i
          → (k ≤ r.attempt_count) × (is_processing r.status ≡ true → k < r.attempt_count)
      both r m e = let (y, n, q) = mem-update_row j f t.rows m in changed r y n q e

pub accept-IsOver :
    (py : Runtime) (i k : ℕ) (seen t : InboxTable) (e : ImInboxEvent)
    → IsOver i k t
    → IsOver i k (accept py seen t e).1
accept-IsOver py i k seen t e h = elim (accept-cases py seen t e) [
  | inl same ↦ rw same h
  | inr new ↦ rw new (record {
    old = omega (arith, h.old);
    reached = λ r m q. elim (mem-append_one t.rows (record (to_model py e) { id = t.next_id }) m) [
      | inl n ↦ h.reached r n q
      | inr d ↦ absurd (fresh r d q)
    ];
    passed = λ r m q. elim (mem-append_one t.rows (record (to_model py e) { id = t.next_id }) m) [
      | inl n ↦ h.passed r n q
      | inr d ↦ absurd (fresh r d q)
    ];
  })
]
  where
    fresh : (r : InboxRow) → r ≡ record (to_model py e) { id = t.next_id } → r.id ≡ i → ⊥
    fresh r d q = let old = h.old in ground arith

pub claim-IsOver :
    {py : Runtime} {locked : ℕ → Bool} {now lease_seconds claim_now i k : ℕ} {t : InboxTable}
    {e : ImInboxEvent} {t' : InboxTable} {row : InboxRow}
    → IsClaim py locked now lease_seconds claim_now t e t' row
    → IsOver i k t
    → IsOver i k t'
unfolding apply
claim-IsOver {i} {k} {t} {e} {row} c h =
    let (same, count, _, _, _) = claimed_fields c in
    rw c.written (
      update-IsOver h e.id (apply e) (λ r. refl)
        (λ r m q j.
          let lo = h.reached row c.present (ground arith) in (omega arith, λ _. omega arith)))

pub expected_of_lease :
    (e : ImInboxEvent) → 0 < e.lease_attempt_count → expected_attempt e ≡ e.lease_attempt_count
expected_of_lease e h = ground arith

-- what a worker writes at the end is no attempt under way, and gives back one attempt at most
pub settle_fields :
    (randbelow : ℕ → ℕ) (policy : ImDeliveryPolicy) (now : ℕ) (outcome : InboxOutcome)
    (message : String) (e : ImInboxEvent)
    → let s = settle randbelow policy now outcome message e in
      (s.id ≡ e.id)
      × (s.lease_attempt_count ≡ e.lease_attempt_count)
      × (e.attempt_count ≤ s.attempt_count + 1)
      × (is_processing s.status ≡ false)
      × (s.session_id ≡ e.session_id)
unfolding settle
settle_fields randbelow policy now InboxOutcome.processed message e = ground arith
settle_fields randbelow policy now InboxOutcome.retry message e = ground arith
settle_fields randbelow policy now InboxOutcome.deferred message e = ground arith
settle_fields randbelow policy now InboxOutcome.dead_letter message e = ground arith

-- an event's update is refused unless the row is under way at the event's own attempt
pub finish-IsOver :
    (i k : ℕ) (randbelow : ℕ → ℕ) (policy : ImDeliveryPolicy) (now : ℕ) (outcome : InboxOutcome)
    (message : String) (e : ImInboxEvent) (t : InboxTable) {t' : InboxTable}
    → IsHeld e
    → IsOver i k t
    → save (settle randbelow policy now outcome message e) t ≡ ok t'
    → IsOver i k t'
unfolding apply
finish-IsOver i k randbelow policy now outcome message e t held h saved =
    let s = settle randbelow policy now outcome message e in
    let (same, lease, count, idle, _) = settle_fields randbelow policy now outcome message e in
    let (row, found, written) = save-ok s t saved in
    let (m, j, busy, n) = owned-cases s t found in
    let expected = expected_of_lease s (omega (arith, lease, held.snapshot, held.attempted)) in
    rw written (
      update-IsOver h s.id (apply s) (λ r. refl)
        (λ r m' q q'.
          let after = h.passed row m (ground arith) busy in
          (omega (arith, expected, lease, held.snapshot), λ bad. cc)))

pub renew-IsOver :
    (i k : ℕ) (e : ImInboxEvent) (t : InboxTable) {t' : InboxTable}
    → IsOver i k t
    → renew_lease e t ≡ ok t'
    → IsOver i k t'
renew-IsOver i k e t h renewed =
    let (row, found, written) = renew_lease-ok e t renewed in
    rw written
      (update-IsOver h e.id (leased e) (λ r. refl) (λ r m q q'. (h.reached r m q, h.passed r m q)))

pub release_row_fields :
    (session_id : String) (now : ℕ) (r y : InboxRow)
    → r ≡ release_row session_id now y
    → (r.id ≡ y.id) × (r.attempt_count ≡ y.attempt_count) × (r.status ≡ y.status)
release_row_fields session_id now r y d = elim (Bool-cases (is_deferred session_id now y)) [
  | inl e ↦ (ground arith, ground arith, ground arith)
  | inr e ↦ (ground arith, ground arith, ground arith)
]

pub release-IsOver :
    (i k : ℕ) (session_id : String) (now : ℕ) (t : InboxTable)
    → IsOver i k t
    → IsOver i k (release_pending_retries session_id now t).1
unfolding release_pending_retries
release-IsOver i k session_id now t h = record {
  old = h.old;
  reached = λ r m q.
      let (y, n, d) = mem-map_inv (release_row session_id now) t.rows m in
      let (a, b, c) = release_row_fields session_id now r y d in
      rw b (h.reached y n (ground arith));
  passed = λ r m q busy.
      let (y, n, d) = mem-map_inv (release_row session_id now) t.rows m in
      let (a, b, c) = release_row_fields session_id now r y d in
      rw b (h.passed y n (ground arith) (ground arith));
}

pub finish_inbox-ok :
    (randbelow : ℕ → ℕ) (policy : ImDeliveryPolicy) (now : ℕ) (outcome : InboxOutcome)
    (message : String) (e : ImInboxEvent) (t : InboxTable) {t' : InboxTable}
    {sent : List Notification}
    → finish_inbox randbelow policy now outcome message e t ≡ ok (t', sent)
    → (u : InboxTable) × (save (settle randbelow policy now outcome message e) t ≡ ok u) × (t' ≡ u)
unfolding finish_inbox
finish_inbox-ok randbelow policy now outcome message e t q =
    elim (Result-cases (save (settle randbelow policy now outcome message e) t)) [
      | inl (x, f) ↦ absurd (ground arith)
      | inr (u, f) ↦ (u, f, ground arith)
    ]

-- Every step of the other workers leaves a finished attempt finished.
pub InboxStep-IsOver :
    {py : Runtime} {policy : ImDeliveryPolicy} {t t' : InboxTable} (i k : ℕ)
    → InboxStep py policy t t'
    → IsOver i k t
    → IsOver i k t'
InboxStep-IsOver {py} {t} i k (accepting seen e _ q) h =
    let same = ap (λ (p : Option ImInboxEvent × InboxTable). p.1) q in
    subst (IsOver i k) same (accept-IsOver py i k seen t e h)
InboxStep-IsOver i k (claiming locked now claim_now q) h =
    claim-IsOver (claim_next-IsClaim _ locked now _ claim_now _ q).1 h
InboxStep-IsOver {policy} {t} i k (renewing now e q) h =
    renew-IsOver i k (Inbox.renew_lease now policy.lease_seconds e) t h q
InboxStep-IsOver {policy} {t} i k (finishing randbelow now outcome message e held q) h =
    let (t'', saved, same) = finish_inbox-ok randbelow policy now outcome message e t q in
    subst (IsOver i k) (sym same)
      (finish-IsOver i k randbelow policy now outcome message e t held h saved)
InboxStep-IsOver {t} i k (releasing session_id now q) h =
    let same = ap (λ (p : ℕ × InboxTable). p.1) q in
    subst (IsOver i k) same (release-IsOver i k session_id now t h)

pub InboxSteps-IsOver :
    {py : Runtime} {policy : ImDeliveryPolicy} {t t' : InboxTable} (i k : ℕ)
    → InboxSteps py policy t t'
    → IsOver i k t
    → IsOver i k t'
InboxSteps-IsOver i k here h = h
InboxSteps-IsOver i k (next r st) h = InboxStep-IsOver i k st (InboxSteps-IsOver i k r h)
