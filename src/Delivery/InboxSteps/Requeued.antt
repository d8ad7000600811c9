-- ===== src/Delivery/InboxSteps/Requeued.antt =====
-- What the manual requeue of a dead event does to the order of its session
-- (`requeue` of backend/infr/repository/im_delivery_repository_impl.py).
use velpos.Prelude.{
  ℕ, ◌≡◌, ◌≤◌, refl, ◌∙◌, subst, ◌⊎◌, inl, inr, String, Bool, true, Option, Memᴰ, arith, ◌==◌, ◌&&◌,
  nat_eq, text_eq, text_eq_iff, find, Bool-cases, Option-cases, find-mem,
}
use velpos.Prelude.Result.{ok}
use velpos.Values.{Runtime}
use velpos.Delivery.Inbox
use velpos.Delivery.Inbox.{ImInboxEvent, ImInboxStatus}
use velpos.Delivery.InboxTable
use velpos.Delivery.InboxTable.{
  InboxRow, InboxTable, is_processing, is_open, is_dead, apply, write, to_domain, with_route,
  inbox_route,
}
use velpos.Delivery.InboxSteps.Exclusive.{
  IsExclusive, change-IsExclusive, at_id, at_id_keeps, update-Changed,
}

-- The row of an event of a session.
abbrev is_row : ℕ → String → InboxRow → Bool
is_row i session_id r = r.id == i && r.session_id == session_id

-- A requeue that does something puts a row of the session back to wait.
record IsRequeue (py : Runtime) (event_id : ℕ) (session_id : String) (t t' : InboxTable)
    : Type 0 where
  row : InboxRow
  present : Memᴰ row t.rows
  identifier : row.id ≡ event_id
  session : row.session_id ≡ session_id
  event : ImInboxEvent
  same : event.id ≡ row.id
  waits : event.status ≡ ImInboxStatus.retry
  written : t' ≡ write event t

requeue-cases :
    (py : Runtime) (event_id : ℕ) (session_id : String) (now : ℕ) (t : InboxTable)
    {fresh : Option ImInboxEvent} {t' : InboxTable}
    → InboxTable.requeue py event_id session_id now t ≡ ok (fresh, t')
    → (t ≡ t') ⊎ IsRequeue py event_id session_id t t'
unfolding InboxTable.requeue Inbox.requeue to_domain with_route
requeue-cases py event_id session_id now t {fresh} {t'} h =
    elim (Option-cases (find (is_row event_id session_id) t.rows)) [
      | inl e ↦ inl (ground arith)
      | inr (row, e) ↦ elim (Bool-cases (is_dead row.status)) [
        | inr d ↦ inl (ground arith)
        | inl d ↦ elim (Option-cases (inbox_route py row)) [
          | inl n ↦ absurd (ground (arith, e, d, n))
          | inr (r, n) ↦
              let (m, q) = find-mem (is_row event_id session_id) t.rows e in
              let event = Inbox.requeued now (with_route py row r) in
              inr (record {
                row = row;
                present = m;
                identifier = ground arith;
                session = ground (arith, text_eq_iff row.session_id session_id);
                event = event;
                same = refl;
                waits = refl;
                written = ground (arith, e, d, n);
              })
        ]
      ]
    ]

pub requeue-IsExclusive :
    (py : Runtime) (event_id : ℕ) (session_id : String) (now : ℕ) (t : InboxTable)
    {fresh : Option ImInboxEvent} {t' : InboxTable}
    → ((a : InboxRow)
        → Memᴰ a t.rows
        → is_processing a.status ≡ true
        → a.session_id ≡ session_id
        → a.id ≤ event_id)
    → InboxTable.requeue py event_id session_id now t ≡ ok (fresh, t')
    → IsExclusive t
    → IsExclusive t'
unfolding apply
requeue-IsExclusive py event_id session_id now t none_later q h =
    elim (requeue-cases py event_id session_id now t q) [
      | inl same ↦ subst IsExclusive same h
      | inr c ↦
          let e = c.event in
          let i = c.identifier in
          let j = c.same in
          let k = c.session in
          let waits = c.waits in
          rw c.written (
            change-IsExclusive (at_id e.id (apply e)) (λ r. at_id_keeps e.id (apply e) r refl refl)
              (λ a b m n p o x. elim (Bool-cases (a.id == e.id)) [
                | inl y ↦ absurd (ground arith)
                | inr y ↦ elim (Bool-cases (b.id == e.id)) [
                  | inl z ↦
                      let s = h.keyed b c.row n c.present (ground arith) in
                      let le = none_later a m (ground arith) (x ∙ s ∙ k) in ground arith
                  | inr z ↦ h.first a b m n (ground arith) (ground arith) x
                ]
              ])
              (update-Changed t e.id (apply e)) h)
    ]
