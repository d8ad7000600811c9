-- ===== src/Delivery/InboxSteps/OnePerSession.antt =====
-- The order of a session's events, from the empty table on.
use velpos.Prelude.{
  ℕ, ◌≡◌, ◌≤◌, sym, ap, subst, inl, inr, true, Option, [], Memᴰ, arith, nat_eq, text_eq,
  mem-append_one,
}
use velpos.Values.{Runtime}
use velpos.Delivery.Inbox
use velpos.Delivery.Inbox.{ImInboxEvent, ImInboxStatus, received}
use velpos.Delivery.Policy.{ImDeliveryPolicy}
use velpos.Delivery.InboxTable.{InboxRow, InboxTable, is_processing, is_open, to_model, accept}
use velpos.Delivery.InboxTable.Once.{accept-cases, appended}
use velpos.Delivery.InboxTable.Claim.{claim_next-IsClaim}
use velpos.Delivery.InboxSteps.{
  InboxStep, accepting, claiming, renewing, finishing, releasing, TableStep, working, requeueing,
}
use velpos.Delivery.InboxSteps.Fencing.{finish_inbox-ok}
use velpos.Delivery.InboxSteps.Requeued.{requeue-IsExclusive}
use velpos.Delivery.InboxSteps.Exclusive.{
  IsExclusive, IsExclusive-one, release-IsExclusive, renew-IsExclusive, finish-IsExclusive,
  claim-IsExclusive,
}

accept-IsExclusive :
    (py : Runtime) (seen t : InboxTable) (e : ImInboxEvent)
    → e.status ≡ received
    → IsExclusive t
    → IsExclusive (accept py seen t e).1
unfolding to_model
accept-IsExclusive py seen t e new h = elim (accept-cases py seen t e) [
  | inl same ↦ rw same h
  | inr more ↦
      let x = record (to_model py e) { id = t.next_id } in
      let old = λ (r : InboxRow) (m : Memᴰ r (appended t (to_model py e)).rows).
        mem-append_one t.rows x m in
      rw more (record {
        below = λ r m. elim (old r m) [ inl k ↦ omega (arith, h.below r k) | inr d ↦ ground arith ];
        keyed = λ a b m n q. elim (old a m) [
          | inl k ↦ elim (old b n) [
            | inl l ↦ h.keyed a b k l q
            | inr d ↦ let lt = h.below a k in absurd (ground arith)
          ]
          | inr c ↦ elim (old b n) [
            | inl l ↦ let lt = h.below b l in absurd (ground arith)
            | inr d ↦ ground arith
          ]
        ];
        first = λ a b m n p q s. elim (old a m) [
          | inl k ↦ elim (old b n) [
            | inl l ↦ h.first a b k l p q s
            | inr d ↦ let lt = h.below a k in (ground arith)
          ]
          | inr c ↦ absurd (ground arith)
        ];
      })
]

-- Every step keeps the table exclusive.
pub InboxStep-IsExclusive :
    {py : Runtime} {policy : ImDeliveryPolicy} {t t' : InboxTable}
    → InboxStep py policy t t'
    → IsExclusive t
    → IsExclusive t'
InboxStep-IsExclusive {py} {t} (accepting seen e new q) h =
    subst IsExclusive (ap (λ (p : Option ImInboxEvent × InboxTable). p.1) q)
      (accept-IsExclusive py seen t e new h)
InboxStep-IsExclusive (claiming locked now claim_now q) h =
    claim-IsExclusive (claim_next-IsClaim _ locked now _ claim_now _ q).1 h
InboxStep-IsExclusive {policy} {t} (renewing now e q) h =
    renew-IsExclusive (Inbox.renew_lease now policy.lease_seconds e) t h q
InboxStep-IsExclusive {policy} {t} (finishing randbelow now outcome message e held q) h =
    let (u, saved, same) = finish_inbox-ok randbelow policy now outcome message e t q in
    subst IsExclusive (sym same)
      (finish-IsExclusive randbelow policy now outcome message e t h saved)
InboxStep-IsExclusive {t} (releasing session_id now q) h =
    subst IsExclusive (ap (λ (p : ℕ × InboxTable). p.1) q) (release-IsExclusive session_id now t h)

abbrev pub empty_table : InboxTable
empty_table = record { rows = []; next_id = 1 }

empty-IsExclusive : IsExclusive empty_table
empty-IsExclusive = record {
  below = λ r m. elim m [ ];
  keyed = λ a b m n q. elim m [ ];
  first = λ a b m n p q s. elim m [ ];
}

module _ (py : Runtime) (policy : ImDeliveryPolicy) where
  -- A requeue is in order if no later event of the session is being processed.
  abbrev pub IsOrderly : {t t' : InboxTable} → TableStep py policy t t' → Type 0
  IsOrderly (working st) = Unit
  IsOrderly {t} (requeueing event_id session_id now q) =
      (a : InboxRow)
      → Memᴰ a t.rows
      → is_processing a.status ≡ true
      → a.session_id ≡ session_id
      → a.id ≤ event_id

  -- What any steps make of an empty table, each requeue among them in order.
  pub data OrderlyTable : InboxTable → Type 0 where
    created : OrderlyTable empty_table
    then_step :
        {t t' : InboxTable}
        → OrderlyTable t
        → (st : TableStep py policy t t') → IsOrderly st
        → OrderlyTable t'

  OrderlyTable-IsExclusive : {t : InboxTable} → OrderlyTable t → IsExclusive t
  OrderlyTable-IsExclusive created = empty-IsExclusive
  OrderlyTable-IsExclusive (then_step h (working st) o) =
      InboxStep-IsExclusive st (OrderlyTable-IsExclusive h)
  OrderlyTable-IsExclusive (then_step {t} h (requeueing event_id session_id now q) o) =
      requeue-IsExclusive py event_id session_id now t o q (OrderlyTable-IsExclusive h)

  -- From an empty table, after any steps of any number of workers, channels and sessions, and any
  -- manual requeues, each made while no later event of its session is being processed: two events
  -- of one session that are being processed are the same event.
  pub one_event_per_session :
      {t : InboxTable} (a b : InboxRow)
      → OrderlyTable t
      → Memᴰ a t.rows
      → Memᴰ b t.rows
      → is_processing a.status ≡ true
      → is_processing b.status ≡ true
      → a.session_id ≡ b.session_id
      → a.id ≡ b.id
  one_event_per_session a b h m n p q s = IsExclusive-one a b (OrderlyTable-IsExclusive h) m n p q s

  -- From an empty table, after any steps and any manual requeues, each made while no later event of
  -- its session is being processed: an event that is being processed is the first of its session
  -- that is open. An open one, waiting or under way, has no smaller identifier.
  pub processed_in_order :
      {t : InboxTable} (a b : InboxRow)
      → OrderlyTable t
      → Memᴰ a t.rows
      → Memᴰ b t.rows
      → is_processing a.status ≡ true
      → is_open b.status ≡ true
      → a.session_id ≡ b.session_id
      → a.id ≤ b.id
  processed_in_order a b h m n p q s = (OrderlyTable-IsExclusive h).first a b m n p q s
