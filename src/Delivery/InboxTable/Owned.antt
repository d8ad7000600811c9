-- ===== src/Delivery/InboxTable/Owned.antt =====
-- The ownership check of `_locked_owned_model`, and what `save` and `renew_lease` write after it.
use velpos.Prelude.{◌≡◌, ◌⊎◌, inl, inr, true, Memᴰ, arith, ◌==◌, nat_eq, Option-cases, find-mem}
use velpos.Prelude.Result.{ok, err, Result-cases}
use velpos.Delivery.Inbox.{ImInboxEvent}
use velpos.Delivery.InboxTable.{
  InboxRow, InboxTable, DeliveryError, is_processing, expected_attempt, find_row,
  locked_owned_model, save, renew_lease, write, update_row,
}

-- a write of the lease's holder passed the check
pub owned-cases :
    (e : ImInboxEvent) (t : InboxTable) {row : InboxRow}
    → locked_owned_model e t ≡ ok row
    → Memᴰ row t.rows
      × (row.id ≡ e.id)
      × (is_processing row.status ≡ true)
      × (row.attempt_count ≡ expected_attempt e)
unfolding locked_owned_model
owned-cases e t {row} h = elim (Option-cases (find_row e.id t.rows)) [
  | inl n ↦ absurd (ground arith)
  | inr (r, f) ↦
      let (m, same) = find-mem (λ x. x.id == e.id) t.rows f in
      let d : r ≡ row = ground arith in rw (← d) (m, ground arith, ground arith, ground arith)
]

pub owner-cases :
    (e : ImInboxEvent) (t : InboxTable)
    → ((x : DeliveryError) × (locked_owned_model e t ≡ err x))
      ⊎ ((row : InboxRow) × (locked_owned_model e t ≡ ok row))
owner-cases e t = Result-cases (locked_owned_model e t)

pub save-ok :
    (e : ImInboxEvent) (t : InboxTable) {t' : InboxTable}
    → save e t ≡ ok t'
    → (row : InboxRow) × (locked_owned_model e t ≡ ok row) × (t' ≡ write e t)
unfolding save
save-ok e t h = elim (owner-cases e t) [
  | inl (x, f) ↦ absurd (ground arith)
  | inr (row, f) ↦ (row, f, ground arith)
]

abbrev pub leased : ImInboxEvent → InboxRow → InboxRow
leased e r = record r { lease_until = e.lease_until; updated_at = e.updated_at }

pub renew_lease-ok :
    (e : ImInboxEvent) (t : InboxTable) {t' : InboxTable}
    → renew_lease e t ≡ ok t'
    → (row : InboxRow) × (locked_owned_model e t ≡ ok row)
      × (t' ≡ record t { rows = update_row e.id (leased e) t.rows })
unfolding renew_lease
renew_lease-ok e t h = elim (owner-cases e t) [
  | inl (x, f) ↦ absurd (ground arith)
  | inr (row, f) ↦ (row, f, ground arith)
]
