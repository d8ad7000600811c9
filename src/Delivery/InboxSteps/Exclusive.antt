-- ===== src/Delivery/InboxSteps/Exclusive.antt =====
-- The order of a session's events in the inbox table, and the steps that could change it.
use velpos.Prelude.{
  ℕ, ◌≡◌, ◌≤◌, ◌<◌, refl, sym, ◌∙◌, inl, inr, String, Bool, true, Memᴰ, arith, ◌==◌, nat_eq,
  text_eq, Bool-cases, if◌then◌else◌, any-false-mem, mem-map_inv, text_eq_iff,
}
use velpos.Prelude.Result.{ok}
use velpos.Values.{Runtime}
use velpos.Delivery.Inbox.{ImInboxEvent}
use velpos.Delivery.Policy.{ImDeliveryPolicy}
use velpos.Delivery.InboxTable.{
  InboxRow, InboxTable, is_processing, is_open, holds_back, apply, save, renew_lease, update_row,
  release_row, release_pending_retries,
}
use velpos.Delivery.InboxTable.Rows.{mem-update_row}
use velpos.Delivery.InboxTable.Owned.{owned-cases, save-ok, renew_lease-ok, leased}
use velpos.Delivery.InboxTable.Claim.{IsClaim, claimed_fields}
use velpos.Delivery.InboxWorker.{InboxOutcome, settle}
use velpos.Delivery.InboxSteps.Fencing.{settle_fields}

-- Identifiers are below the next one and determine the session, and an event under way is the
-- first open one of its session.
pub record IsExclusive (t : InboxTable) : Type 0 where
  pub below : (r : InboxRow) → Memᴰ r t.rows → r.id < t.next_id
  pub keyed :
      (a b : InboxRow) → Memᴰ a t.rows → Memᴰ b t.rows → a.id ≡ b.id → a.session_id ≡ b.session_id
  pub first :
      (a b : InboxRow)
      → Memᴰ a t.rows
      → Memᴰ b t.rows
      → is_processing a.status ≡ true
      → is_open b.status ≡ true
      → a.session_id ≡ b.session_id
      → a.id ≤ b.id

-- In such a table two events of one session that are under way are one event.
pub IsExclusive-one :
    {t : InboxTable} (a b : InboxRow)
    → IsExclusive t
    → Memᴰ a t.rows
    → Memᴰ b t.rows
    → is_processing a.status ≡ true
    → is_processing b.status ≡ true
    → a.session_id ≡ b.session_id
    → a.id ≡ b.id
IsExclusive-one a b h m n p q s =
    let x = h.first a b m n p (ground arith) s in
    let y = h.first b a n m q (ground arith) (sym s) in omega arith

-- A change of the rows one by one, which keeps their identity.
pub record Changed (t : InboxTable) (f : InboxRow → InboxRow) (t' : InboxTable) : Type 0 where
  pub room : t.next_id ≤ t'.next_id
  pub origin : (r : InboxRow) → Memᴰ r t'.rows → (y : InboxRow) × Memᴰ y t.rows × (r ≡ f y)

pub change-IsExclusive :
    {t : InboxTable} (f : InboxRow → InboxRow) {t' : InboxTable}
    → ((r : InboxRow) → ((f r).id ≡ r.id) × ((f r).session_id ≡ r.session_id))
    → ((a b : InboxRow)
        → Memᴰ a t.rows
        → Memᴰ b t.rows
        → is_processing (f a).status ≡ true
        → is_open (f b).status ≡ true
        → a.session_id ≡ b.session_id
        → a.id ≤ b.id)
    → Changed t f t'
    → IsExclusive t
    → IsExclusive t'
change-IsExclusive {t} f {t'} keeps good change h = record {
  below = λ r m.
      let (y, n, d) = change.origin r m in
      let (i, s) = keeps y in rw (d, i) (omega (arith, h.below y n, change.room));
  keyed = λ a b m n q.
      let (y, k, d) = change.origin a m in
      let (z, l, e) = change.origin b n in
      let (i, s) = keeps y in let (j, u) = keeps z in rw (d, e, s, u) (h.keyed y z k l (cc));
  first = λ a b m n p q s'.
      let (y, k, d) = change.origin a m in
      let (z, l, e) = change.origin b n in
      let (i, s) = keeps y in
      let (j, u) = keeps z in rw (d, e, i, j) (good y z k l (cc) (rw e at q) (cc));
}

abbrev pub at_id : ℕ → (InboxRow → InboxRow) → InboxRow → InboxRow
at_id j f y = if y.id == j then f y else y

pub update-Changed :
    (t : InboxTable) (j : ℕ) (f : InboxRow → InboxRow)
    → Changed t (at_id j f) (record t { rows = update_row j f t.rows })
update-Changed t j f = record { room = omega arith; origin = λ r m. mem-update_row j f t.rows m }

pub at_id_keeps :
    (j : ℕ) (f : InboxRow → InboxRow) (r : InboxRow)
    → (f r).id ≡ r.id
    → (f r).session_id ≡ r.session_id
    → ((at_id j f r).id ≡ r.id) × ((at_id j f r).session_id ≡ r.session_id)
at_id_keeps j f r p q = ground arith

pub release-IsExclusive :
    (session_id : String) (now : ℕ) (t : InboxTable)
    → IsExclusive t
    → IsExclusive (release_pending_retries session_id now t).1
unfolding release_pending_retries
release-IsExclusive session_id now t h =
    let f = release_row session_id now in
    change-IsExclusive f (λ r. ground arith)
      (λ a b m n p q s. h.first a b m n (ground arith) (ground arith) s)
      (record { room = omega arith; origin = λ r m. mem-map_inv f t.rows m }) h

pub renew-IsExclusive :
    (e : ImInboxEvent) (t : InboxTable) {t' : InboxTable}
    → IsExclusive t
    → renew_lease e t ≡ ok t'
    → IsExclusive t'
renew-IsExclusive e t h renewed =
    let (row, found, written) = renew_lease-ok e t renewed in
    rw written (
      change-IsExclusive (at_id e.id (leased e)) (λ r. at_id_keeps e.id (leased e) r refl refl)
        (λ a b m n p q s. h.first a b m n (ground arith) (ground arith) s)
        (update-Changed t e.id (leased e)) h)

-- the holder's write makes its row wait or end, and the row was open
pub finish-IsExclusive :
    (randbelow : ℕ → ℕ) (policy : ImDeliveryPolicy) (now : ℕ) (outcome : InboxOutcome)
    (message : String) (e : ImInboxEvent) (t : InboxTable) {t' : InboxTable}
    → IsExclusive t
    → save (settle randbelow policy now outcome message e) t ≡ ok t'
    → IsExclusive t'
unfolding apply
finish-IsExclusive randbelow policy now outcome message e t h saved =
    let s = settle randbelow policy now outcome message e in
    let (same, lease, count, idle, _) = settle_fields randbelow policy now outcome message e in
    let (row, found, written) = save-ok s t saved in
    let (k, j, busy, _) = owned-cases s t found in
    rw written (
      change-IsExclusive (at_id s.id (apply s)) (λ r. at_id_keeps s.id (apply s) r refl refl)
        (λ a b m n p q x. elim (Bool-cases (a.id == s.id)) [
          | inl y ↦ absurd (ground arith)
          | inr y ↦ elim (Bool-cases (b.id == s.id)) [
            | inl z ↦
                let r = h.keyed b row n k (ground arith) in
                let le = h.first a row m k (ground arith) (ground arith) (x ∙ r) in (ground arith)
            | inr z ↦ h.first a b m n (ground arith) (ground arith) x
          ]
        ])
        (update-Changed t s.id (apply s)) h)

pub claim-IsExclusive :
    {py : Runtime} {locked : ℕ → Bool} {now lease_seconds claim_now : ℕ} {t : InboxTable}
    {e : ImInboxEvent} {t' : InboxTable} {row : InboxRow}
    → IsClaim py locked now lease_seconds claim_now t e t' row
    → IsExclusive t
    → IsExclusive t'
unfolding apply
claim-IsExclusive {t} {e} {row} c h =
    let (same, count, _, busy, _) = claimed_fields c in
    let due = c.due in
    let was_open : is_open row.status ≡ true = ground arith in
    rw c.written (
      change-IsExclusive (at_id e.id (apply e)) (λ r. at_id_keeps e.id (apply e) r refl refl)
        (λ a b m n p q x. elim (Bool-cases (a.id == e.id)) [
          | inl y ↦ elim (Bool-cases (b.id == e.id)) [
            | inl z ↦ ground arith
            | inr z ↦
                let r = h.keyed a row m c.present (ground arith) in
                let held = any-false-mem (holds_back row) t.rows c.head_of_session n in
                (ground (arith, text_eq_iff b.session_id row.session_id))
          ]
          | inr y ↦ elim (Bool-cases (b.id == e.id)) [
            | inl z ↦
                let r = h.keyed b row n c.present (ground arith) in
                let le = h.first a row m c.present (ground arith) was_open (x ∙ r) in (ground arith)
            | inr z ↦ h.first a b m n (ground arith) (ground arith) x
          ]
        ])
        (update-Changed t e.id (apply e)) h)
