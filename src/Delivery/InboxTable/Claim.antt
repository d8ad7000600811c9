-- ===== src/Delivery/InboxTable/Claim.antt =====
-- Which row `claim_next` takes.
use velpos.Prelude.{
  ◌+◌, ℕ, ◌≡◌, refl, sym, ◌⊎◌, inl, inr, Bool, true, false, none, some, List, [], ◌∷◌, arith,
  nat_eq, text_eq, any, filter, Memᴰ, Bool-cases, Option-cases, mem-filter_left, mem-filter_right,
  mem-cons_cases,
}
use velpos.Prelude.Result.{ok, err}
use velpos.Values.{Runtime}
use velpos.Delivery.Inbox
use velpos.Delivery.Inbox.{ImInboxEvent}
use velpos.Delivery.InboxTable.{
  is_processing, InboxRow, InboxTable, bad_route, to_domain, inbox_route, with_route, write,
  processable, holds_back, claimable, comes_before, earliest, select_next, claim_next,
}

earliest-mem : (rows : List InboxRow) {r : InboxRow} → earliest rows ≡ some r → Memᴰ r rows
unfolding earliest
earliest-mem [] h = absurd (ground arith)
earliest-mem (x ∷ xs) {r} h = elim (Option-cases (earliest xs)) [
  | inl e ↦ Memᴰ.head (ground arith)
  | inr (s, e) ↦ elim (Bool-cases (comes_before s x)) [
    | inl b ↦ Memᴰ.tail (earliest-mem xs (ground arith))
    | inr b ↦ Memᴰ.head (ground arith)
  ]
]

comes_before_irrefl : (a : InboxRow) → comes_before a a ≡ false
comes_before_irrefl a = ground arith

comes_before-asymm : (a b : InboxRow) → comes_before a b ≡ true → comes_before b a ≡ false
comes_before-asymm a b h = ground arith

comes_before-not_trans :
    (a b c : InboxRow)
    → comes_before a b ≡ false
    → comes_before b c ≡ false
    → comes_before a c ≡ false
comes_before-not_trans a b c h k = ground arith

earliest-none : {s : InboxRow} (rows : List InboxRow) → earliest rows ≡ none → Memᴰ s rows → ⊥
unfolding earliest
earliest-none [] h m = elim m [ ]
earliest-none (x ∷ xs) h m = elim (Option-cases (earliest xs)) [
  | inl e ↦ cc
  | inr (s, e) ↦ ground arith
]

first_self : (a b c : InboxRow) → a ≡ c → b ≡ c → comes_before a b ≡ false
first_self a b c p q = rw (p, q) (comes_before_irrefl c)

first_head :
    (a b c d : InboxRow) → a ≡ c → b ≡ d → comes_before c d ≡ false → comes_before a b ≡ false
first_head a b c d p q k = rw (p, q) k

-- No row comes before the earliest one.
earliest-first :
    (rows : List InboxRow) (r s : InboxRow)
    → earliest rows ≡ some r
    → Memᴰ s rows
    → comes_before s r ≡ false
unfolding earliest
earliest-first [] r s h m = elim m [ ]
earliest-first (x ∷ xs) r s h m = elim (Option-cases (earliest xs)) [
  | inl e ↦ elim (mem-cons_cases m) [
    | inl d ↦ first_self s r x d (ground arith)
    | inr n ↦ absurd (earliest-none xs e n)
  ]
  | inr (t, e) ↦ elim (Bool-cases (comes_before t x)) [
    | inl b ↦ elim (mem-cons_cases m) [
      | inl d ↦ first_head s r x t d (ground arith) (comes_before-asymm t x b)
      | inr n ↦ earliest-first xs r s (ground arith) n
    ]
    | inr b ↦ elim (mem-cons_cases m) [
      | inl d ↦ first_self s r x d (ground arith)
      | inr n ↦
          first_head s r s x refl (ground arith)
            (comes_before-not_trans s t x (earliest-first xs t s e n) b)
    ]
  ]
]

-- The lemma of the selection: what is selected can be claimed, and nothing that can comes before.
select_next-some :
    (locked : ℕ → Bool) (now : ℕ) (rows : List InboxRow) {row : InboxRow}
    → select_next locked now rows ≡ some row
    → Memᴰ row rows
      × (claimable locked now rows row ≡ true)
      × ((r : InboxRow)
          → Memᴰ r rows
          → claimable locked now rows r ≡ true
          → comes_before r row ≡ false)
unfolding select_next
select_next-some locked now rows {row} h =
    let p = claimable locked now rows in
    let (m, c) = mem-filter_left p rows (earliest-mem (filter p rows) h) in
    (m, c, λ r n d. earliest-first (filter p rows) row r h (mem-filter_right p rows n d))

select_next-none :
    (locked : ℕ → Bool) (now : ℕ) (rows : List InboxRow) {r : InboxRow}
    → select_next locked now rows ≡ none
    → Memᴰ r rows
    → claimable locked now rows r ≡ false
unfolding select_next
select_next-none locked now rows {r} h m = elim (Bool-cases (claimable locked now rows r)) [
  | inl c ↦ absurd (
      earliest-none (filter (claimable locked now rows) rows) h
        (mem-filter_right (claimable locked now rows) rows m c))
  | inr c ↦ c
]

-- What is known of a claimed row: it is due or its lease ran out, it is the first open row of its
-- session, no other transaction has it locked, no row that could be claimed is older, and the
-- claim is the event of the row, written back.
pub record IsClaim (py : Runtime) (locked : ℕ → Bool) (now lease_seconds claim_now : ℕ)
    (t : InboxTable) (e : ImInboxEvent) (t' : InboxTable) (row : InboxRow) : Type 0 where
  pub present : Memᴰ row t.rows
  pub due : processable now row ≡ true
  pub head_of_session : any (holds_back row) t.rows ≡ false
  pub unlocked : locked row.id ≡ false
  pub oldest :
      (r : InboxRow)
      → Memᴰ r t.rows
      → claimable locked now t.rows r ≡ true
      → comes_before r row ≡ false
  pub decoded :
      (d : ImInboxEvent) × (to_domain py row ≡ ok d) × (e ≡ Inbox.claim claim_now lease_seconds d)
  pub written : t' ≡ write e t

decode-cases :
    (py : Runtime) (row : InboxRow)
    → (to_domain py row ≡ err bad_route) ⊎ ((d : ImInboxEvent) × (to_domain py row ≡ ok d))
unfolding to_domain
decode-cases py row = elim (Option-cases (inbox_route py row)) [
  | inl e ↦ inl (rw (e, to_domain))
  | inr (r, e) ↦ inr (with_route py row r, rw (e, to_domain))
]

-- A successful claim is a claim of such a row.
pub claim_next-IsClaim :
    (py : Runtime) (locked : ℕ → Bool) (now lease_seconds claim_now : ℕ) (t : InboxTable)
    {e : ImInboxEvent} {t' : InboxTable}
    → claim_next py locked now lease_seconds claim_now t ≡ ok (some e, t')
    → (row : InboxRow) × IsClaim py locked now lease_seconds claim_now t e t' row
unfolding claim_next
claim_next-IsClaim py locked now lease_seconds claim_now t {e} {t'} h =
    elim (Option-cases (select_next locked now t.rows)) [
      | inl s ↦ absurd (ground arith)
      | inr (row, s) ↦ elim (decode-cases py row) [
        | inl d ↦ absurd (ground arith)
        | inr (d, q) ↦
            let (m, c, first) = select_next-some locked now t.rows s in
            let taken : Inbox.claim claim_now lease_seconds d ≡ e = ground arith in
            (
              row,
              record {
                present = m;
                due = ground arith;
                head_of_session = ground arith;
                unlocked = ground arith;
                oldest = first;
                decoded = (d, q, sym taken);
                written = ground arith;
              },
            )
      ]
    ]

-- `claim_next` comes back empty only if no row can be claimed, and it then changes nothing.
pub claim_next-none :
    (py : Runtime) (locked : ℕ → Bool) (now lease_seconds claim_now : ℕ) (t : InboxTable)
    {t' : InboxTable}
    → claim_next py locked now lease_seconds claim_now t ≡ ok (none, t')
    → (t' ≡ t) × ((r : InboxRow) → Memᴰ r t.rows → claimable locked now t.rows r ≡ false)
unfolding claim_next
claim_next-none py locked now lease_seconds claim_now t {t'} h =
    elim (Option-cases (select_next locked now t.rows)) [
      | inl s ↦ (ground arith, λ r m. select_next-none locked now t.rows s m)
      | inr (row, s) ↦ elim (decode-cases py row) [
        | inl d ↦ absurd (ground arith)
        | inr (d, q) ↦ absurd (ground arith)
      ]
    ]

decoded_fields :
    (py : Runtime) (row : InboxRow) (d : ImInboxEvent)
    → to_domain py row ≡ ok d
    → (d.id ≡ row.id) × (d.attempt_count ≡ row.attempt_count) × (d.session_id ≡ row.session_id)
unfolding to_domain
decoded_fields py row d p = elim (Option-cases (inbox_route py row)) [
  | inl e ↦ absurd (ground arith)
  | inr (r, e) ↦ (ground arith, ground arith, ground arith)
]

-- What a claim leaves on the event: the row's identity, one attempt more, and the lease's snapshot.
module _ {py : Runtime} {locked : ℕ → Bool} {now lease_seconds claim_now : ℕ} {t : InboxTable}
    {e : ImInboxEvent} {t' : InboxTable} {row : InboxRow}
    (c : IsClaim py locked now lease_seconds claim_now t e t' row) where
  pub claimed_fields :
      (e.id ≡ row.id)
      × (e.attempt_count ≡ row.attempt_count + 1)
      × (e.lease_attempt_count ≡ e.attempt_count)
      × (is_processing e.status ≡ true)
      × (e.session_id ≡ row.session_id)
  unfolding Inbox.claim
  claimed_fields =
      let (d, p, q) = c.decoded in
      let (same, count, session) = decoded_fields py row d p in
      (rw q same, rw q (omega arith), rw q refl, rw q refl, rw q session)
