-- ===== src/Delivery/OutboxTable/Claim.antt =====
-- Which row `claim_next` of the outbox takes, and what it leaves.
use velpos.Prelude.{
  ℕ, ◌≡◌, refl, sym, inl, inr, Bool, true, some, arith, List, [], ◌∷◌, Memᴰ, nat_eq, Bool-cases,
  Option-cases, filter, ltb, mem-filter_left,
}
use velpos.Prelude.Result.{ok, Result-cases}
use velpos.Prelude.Keyed.{find_at, find_at-mem, find_at-update_at}
use velpos.Values.{Runtime}
use velpos.Delivery.Outbox
use velpos.Delivery.Outbox.{ImOutboxMessage}
use velpos.Delivery.OutboxTable.{
  OutboxRow, OutboxTable, is_sending, row_id, apply, write, to_domain,
}
use velpos.Delivery.OutboxTable.Once.{decoded-fields}
use velpos.Delivery.OutboxTable.Queue.{claimable, lowest, select_next, claim_next}

-- The row of the message is as its claim left it: the holder's check passes.
pub record IsOwn (m : ImOutboxMessage) (t : OutboxTable) : Type 0 where
  pub row : OutboxRow
  pub found : find_at row_id m.id t.rows ≡ some row
  pub busy : is_sending row.status ≡ true
  pub attempt : row.attempt_count ≡ m.attempt_count

lowest-mem : (rows : List OutboxRow) {r : OutboxRow} → lowest rows ≡ some r → Memᴰ r rows
unfolding lowest
lowest-mem [] h = absurd (ground arith)
lowest-mem (x ∷ xs) {r} h = elim (Option-cases (lowest xs)) [
  | inl e ↦ Memᴰ.head (ground arith)
  | inr (s, e) ↦ elim (Bool-cases (ltb s.id x.id)) [
    | inl b ↦ Memᴰ.tail (lowest-mem xs (ground arith))
    | inr b ↦ Memᴰ.head (ground arith)
  ]
]

select_next-claimable :
    (locked : ℕ → Bool) (now : ℕ) (rows : List OutboxRow) {row : OutboxRow}
    → select_next locked now rows ≡ some row
    → Memᴰ row rows × (claimable locked now rows row ≡ true)
unfolding select_next
select_next-claimable locked now rows h =
    let p = claimable locked now rows in mem-filter_left p rows (lowest-mem (filter p rows) h)

-- A successful claim took a row that could be claimed (due or abandoned, the first open message of
-- its session, locked by nobody) and left the message the worker's own, its attempt counted.
pub claim_next-IsOwn :
    (py : Runtime) (locked : ℕ → Bool) (now lease_seconds claim_now : ℕ) (t : OutboxTable)
    {m : ImOutboxMessage} {t' : OutboxTable}
    → claim_next py locked now lease_seconds claim_now t ≡ ok (some m, t')
    → IsOwn m t'
      × (row : OutboxRow) × Memᴰ row t.rows
      × (row.id ≡ m.id)
      × (claimable locked now t.rows row ≡ true)
unfolding claim_next Outbox.claim apply
claim_next-IsOwn py locked now lease_seconds claim_now t {m} {t'} h =
    elim (Option-cases (select_next locked now t.rows)) [
      | inl e ↦ absurd (ground arith)
      | inr (row, e) ↦ elim (Result-cases (to_domain py row)) [
        | inl (x, q) ↦ absurd (ground arith)
        | inr (d, q) ↦
            let (mem, can) = select_next-claimable locked now t.rows e in
            let (i, _) = decoded-fields py row q in
            let c : ImOutboxMessage = Outbox.claim claim_now lease_seconds d in
            let (old, found) = find_at-mem row_id c.id t.rows mem (sym i) in
            let claimed : m ≡ c = ground arith in
            let wrote : t' ≡ write c t = ground arith in
            rw (claimed, wrote)
              (
                record {
                  row = apply c old;
                  found = find_at-update_at row_id c.id (apply c) t.rows (λ x. refl) found;
                  busy = refl;
                  attempt = refl;
                },
                row,
                mem,
                sym i,
                can,
              )
      ]
    ]
