-- ===== src/Delivery/InboxTable/Once.antt =====
-- `accept` against duplicates and concurrent inserts.
use velpos.Prelude.{
  ◌+◌, ◌⊎◌, ◌++◌, ℕ, ◌≡◌, refl, ◌∙◌, inl, inr, Bool, true, none, List, [], ◌∷◌, arith, nat_eq,
  text_eq, text_eq_iff, any, Bool-cases, any-append_one,
}
use velpos.Values.{Runtime}
use velpos.Delivery.Inbox.{ImInboxEvent}
use velpos.Delivery.InboxTable.{InboxRow, InboxTable, same_key, to_model, insert_row, accept}
use velpos.Delivery.InboxTable.Rows.{IsUnique, IsUnique-append_one}

-- Two rows hold the same message of the same channel.
abbrev pub stored : Runtime → ImInboxEvent → InboxTable → Bool
stored py e t = any (same_key (to_model py e)) t.rows

abbrev with_id : ℕ → InboxRow → InboxRow
with_id i row = record row { id = i }

abbrev pub appended : InboxTable → InboxRow → InboxTable
appended t row = record { rows = t.rows ++ with_id t.next_id row ∷ []; next_id = t.next_id + 1 }

-- The table after `accept`: as it was, or with the event's row under a new identifier.
pub accept-cases :
    (py : Runtime) (seen t : InboxTable) (e : ImInboxEvent)
    → ((accept py seen t e).1 ≡ t) ⊎ ((accept py seen t e).1 ≡ appended t (to_model py e))
unfolding accept insert_row
accept-cases py seen t e = elim (Bool-cases (stored py e seen)) [
  | inl d ↦ inl (rw d)
  | inr d ↦ elim (Bool-cases (stored py e t)) [ inl c ↦ inl (rw (d, c)) | inr c ↦ inr (rw (d, c)) ]
]

-- Whatever table the duplicate check saw, however stale, the constraint on the channel and the
-- external message holds after `accept` if it held before.
pub accept-IsUnique :
    (py : Runtime) (seen t : InboxTable) (e : ImInboxEvent)
    → IsUnique t.rows
    → IsUnique (accept py seen t e).1.rows
unfolding accept insert_row
accept-IsUnique py seen t e u = elim (Bool-cases (stored py e seen)) [
  | inl d ↦ rw d u
  | inr d ↦ elim (Bool-cases (stored py e t)) [
    | inl c ↦ rw (d, c) u
    | inr c ↦ rw (d, c) (IsUnique-append_one t.rows (with_id t.next_id (to_model py e)) u c)
  ]
]

-- A message of which the table holds one with the same channel and external identifier is refused,
-- and changes nothing.
accept-stored :
    (py : Runtime) (seen t : InboxTable) (e : ImInboxEvent)
    → stored py e t ≡ true
    → accept py seen t e ≡ (none, t)
unfolding accept insert_row
accept-stored py seen t e c = elim (Bool-cases (stored py e seen)) [
  | inl d ↦ rw d
  | inr d ↦ rw (d, c)
]

-- After one acceptance the table holds the message.
stored-accept :
    (py : Runtime) (seen t : InboxTable) (e : ImInboxEvent)
    → (stored py e seen ≡ true → stored py e t ≡ true)
    → stored py e (accept py seen t e).1 ≡ true
unfolding accept insert_row to_model
stored-accept py seen t e h = elim (Bool-cases (stored py e seen)) [
  | inl d ↦ rw d (h d)
  | inr d ↦ elim (Bool-cases (stored py e t)) [
    | inl c ↦ rw (d, c) c
    | inr c ↦
        rw (d, c)
          (ground (
            arith,
            any-append_one (same_key (to_model py e)) t.rows (with_id t.next_id (to_model py e)),
            text_eq_iff e.channel_id e.channel_id,
            text_eq_iff e.external_message_id e.external_message_id,
          ))
  ]
]

any-same_key :
    (a b : InboxRow) (rows : List InboxRow)
    → a.channel_id ≡ b.channel_id
    → a.external_message_id ≡ b.external_message_id
    → any (same_key a) rows ≡ any (same_key b) rows
any-same_key a b [] p q = refl
any-same_key a b (r ∷ rs) p q = rw (p, q, any-same_key a b rs p q)

same_stored :
    (py : Runtime) (e e' : ImInboxEvent) (t : InboxTable)
    → e'.channel_id ≡ e.channel_id
    → e'.external_message_id ≡ e.external_message_id
    → stored py e' t ≡ stored py e t
unfolding to_model
same_stored py e e' t p q = any-same_key (to_model py e') (to_model py e) t.rows p q

-- A redelivery is ignored: once an event went through `accept`, an event with the same channel and
-- external message gets nothing back and leaves the table as it is, whatever its duplicate check
-- saw. (The first check may have seen an older table, whose message is still stored.)
pub accept_redelivery :
    (py : Runtime) (seen seen' t : InboxTable) (e e' : ImInboxEvent)
    → (stored py e seen ≡ true → stored py e t ≡ true)
    → e'.channel_id ≡ e.channel_id
    → e'.external_message_id ≡ e.external_message_id
    → accept py seen' (accept py seen t e).1 e' ≡ (none, (accept py seen t e).1)
accept_redelivery py seen seen' t e e' h p q =
    accept-stored py seen' (accept py seen t e).1 e'
      (same_stored py e e' (accept py seen t e).1 p q ∙ stored-accept py seen t e h)
