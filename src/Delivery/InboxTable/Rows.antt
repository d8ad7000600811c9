-- ===== src/Delivery/InboxTable/Rows.antt =====
-- The table's rows under an update: which rows there are, and when the table is well-formed.
use velpos.Prelude.{
  ℕ, ◌≡◌, refl, inl, inr, Bool, false, List, [], ◌∷◌, ◌++◌, Memᴰ, arith, ◌==◌, nat_eq, text_eq,
  text_eq_iff, any, mem-cons_cases, any-append_one, if◌then◌else◌,
}
use velpos.Delivery.InboxTable.{InboxRow, update_row, same_key}

-- A row of the updated table is a row of the old one, changed if it has the identifier.
pub mem-update_row :
    {x : InboxRow} (i : ℕ) (f : InboxRow → InboxRow) (rows : List InboxRow)
    → Memᴰ x (update_row i f rows)
    → (y : InboxRow) × Memᴰ y rows × (x ≡ (if y.id == i then f y else y))
unfolding update_row
mem-update_row i f [] m = elim m [ ]
mem-update_row i f (r ∷ rs) m = elim (mem-cons_cases m) [
  | inl e ↦ (r, Memᴰ.head refl, e)
  | inr n ↦ let (y, k, e) = mem-update_row i f rs n in (y, Memᴰ.tail k, e)
]

-- An update that keeps what a test reads keeps the search.
pub any-update_row :
    (p : InboxRow → Bool) (i : ℕ) (f : InboxRow → InboxRow)
    → ((r : InboxRow) → p (f r) ≡ p r)
    → (rows : List InboxRow) → any p (update_row i f rows) ≡ any p rows
unfolding update_row
any-update_row p i f keep [] = refl
any-update_row p i f keep (r ∷ rs) = ground (arith, keep r, any-update_row p i f keep rs)

pub same_key-sym : (a b : InboxRow) → same_key a b ≡ same_key b a
same_key-sym a b = ground (
  arith,
  text_eq_iff a.channel_id b.channel_id,
  text_eq_iff b.channel_id a.channel_id,
  text_eq_iff a.external_message_id b.external_message_id,
  text_eq_iff b.external_message_id a.external_message_id,
)

-- No two rows have the same channel and external message.
abbrev pub IsUnique : List InboxRow → Type 0
IsUnique [] = Unit
IsUnique (r ∷ rs) = (any (same_key r) rs ≡ false) × IsUnique rs

pub IsUnique-append_one :
    (rows : List InboxRow) (x : InboxRow)
    → IsUnique rows
    → any (same_key x) rows ≡ false
    → IsUnique (rows ++ x ∷ [])
IsUnique-append_one [] x u h = (refl, tt)
IsUnique-append_one (r ∷ rs) x u h = (
  ground (arith, any-append_one (same_key r) rs x, same_key-sym x r, u.0),
  IsUnique-append_one rs x u.1 (ground arith),
)
