-- ===== src/Delivery/InboxSteps/Stale.antt =====
-- Late writes of a worker whose event another worker claimed (im_delivery_repository_impl.py).
use velpos.Prelude.{
  ℕ, ◌≡◌, ◌<◌, ◌≢◌, sym, subst, inl, inr, String, Bool, some, Memᴰ, arith, ◌==◌, nat_eq, text_eq,
  Bool-cases, if◌then◌else◌,
}
use velpos.Prelude.Result.{ok}
use velpos.Values.{Runtime}
use velpos.Delivery.Inbox
use velpos.Delivery.Inbox.{ImInboxEvent, ImInboxStatus}
use velpos.Delivery.Policy.{ImDeliveryPolicy}
use velpos.Delivery.InboxTable.{
  InboxRow, InboxTable, expected_attempt, locked_owned_model, save, renew_lease, write, apply,
  claim_next,
}
use velpos.Delivery.InboxTable.Rows.{mem-update_row}
use velpos.Delivery.InboxTable.Owned.{owned-cases, save-ok, renew_lease-ok}
use velpos.Delivery.InboxTable.Claim.{IsClaim, claim_next-IsClaim, claimed_fields}
use velpos.Delivery.InboxWorker.{InboxOutcome, settle}
use velpos.Delivery.InboxSteps.{IsHeld, InboxSteps}
use velpos.Delivery.InboxSteps.Fencing.{
  HasReached, IsOver, settle_fields, expected_of_lease, InboxSteps-IsOver,
}

-- Another claim of the event ends the attempt that its rows had reached.
takeover-IsOver :
    {py : Runtime} {locked : ℕ → Bool} {now lease_seconds claim_now k : ℕ} {t : InboxTable}
    {e : ImInboxEvent} {t' : InboxTable} {row : InboxRow}
    → IsClaim py locked now lease_seconds claim_now t e t' row
    → HasReached e.id k t
    → IsOver e.id k t'
unfolding apply
takeover-IsOver {k} {t} {e} {row} c h =
    let (same, count, _, _, _) = claimed_fields c in
    let lo = h.reached row c.present (sym same) in
    let later = λ (r : InboxRow) (m : Memᴰ r (write e t).rows) (q : r.id ≡ e.id).
      let (y, n, d) = mem-update_row e.id (apply e) t.rows m in rewritten r y d q (omega arith) in
    rw c.written (record {
      old = h.old;
      reached = λ r m q. omega (arith, later r m q);
      passed = λ r m q busy. later r m q;
    })
  where
    rewritten :
        (r y : InboxRow)
        → r ≡ (if y.id == e.id then apply e y else y)
        → r.id ≡ e.id
        → k < e.attempt_count
        → k < r.attempt_count
    rewritten r y d q lt = elim (Bool-cases (y.id == e.id)) [
      | inl a ↦ let x : r ≡ apply e y = ground arith in rw x lt
      | inr a ↦ let x : r ≡ y = ground arith in absurd (ground arith)
    ]

-- A finished attempt owns no row.
IsOver-not_owned :
    (e : ImInboxEvent) (t : InboxTable) {row : InboxRow}
    → IsOver e.id (expected_attempt e) t
    → locked_owned_model e t ≡ ok row
    → ⊥
IsOver-not_owned e t {row} h found =
    let (m, same, busy, n) = owned-cases e t found in
    let lt = h.passed row m same busy in omega arith

-- Lease fencing. A worker holds the event `e` (its rows have reached the attempt of its lease), a
-- second claim takes the event over, and then any steps of any workers follow, without a requeue.
-- Then the first worker can write no outcome of `e` and cannot renew its lease.
pub stale_worker_refused :
    (py : Runtime) (policy : ImDeliveryPolicy) (locked : ℕ → Bool) (now claim_now : ℕ)
    {t t' t'' : InboxTable} {e' : ImInboxEvent} (e : ImInboxEvent)
    → IsHeld e
    → HasReached e.id e.attempt_count t
    → claim_next py locked now policy.lease_seconds claim_now t ≡ ok (some e', t')
    → e'.id ≡ e.id
    → InboxSteps py policy t' t''
    → ((randbelow : ℕ → ℕ) (later : ℕ) (outcome : InboxOutcome) (message : String) (u : InboxTable)
        → save (settle randbelow policy later outcome message e) t'' ≢ ok u)
      × ((later : ℕ) (u : InboxTable)
          → renew_lease (Inbox.renew_lease later policy.lease_seconds e) t'' ≢ ok u)
unfolding Inbox.renew_lease
stale_worker_refused py policy locked now claim_now {t} {t'} {t''} {e'} e held h q same steps =
    let k = e.attempt_count in
    let (row, c) = claim_next-IsClaim _ _ _ _ _ _ q in
    let over : IsOver e.id k t'' = InboxSteps-IsOver e.id k steps (
      subst (λ i. IsOver i k t') same
        (takeover-IsOver c (subst (λ i. HasReached i k t) (sym same) h))) in
    (
      λ randbelow later outcome message u saved.
          let s = settle randbelow policy later outcome message e in
          let (id, lease, _, _, _) = settle_fields randbelow policy later outcome message e in
          let (r, found, _) = save-ok s t'' saved in
          let x : expected_attempt s ≡ k = omega (
            arith,
            expected_of_lease s (omega (arith, lease, held.snapshot, held.attempted)),
            lease,
            held.snapshot,
          ) in
          IsOver-not_owned s t''
            (subst (λ i. IsOver i (expected_attempt s) t'') (sym id) (rw x over)) found,
      λ later u renewed.
          let s = Inbox.renew_lease later policy.lease_seconds e in
          let (r, found, _) = renew_lease-ok s t'' renewed in
          let x : expected_attempt s ≡ k = omega (
            arith,
            expected_of_lease s (omega (arith, held.snapshot, held.attempted)),
            held.snapshot,
          ) in
          IsOver-not_owned s t'' (rw x over) found,
    )
