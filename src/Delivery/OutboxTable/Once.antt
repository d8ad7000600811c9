-- ===== src/Delivery/OutboxTable/Once.antt =====
-- `enqueue` against the deduplication key.
use velpos.Prelude.{
  ◌+◌, ◌≡◌, inl, inr, refl, true, false, none, some, List, [], ◌∷◌, ◌++◌, String, arith, nat_eq,
  text_eq, text_eq_iff, any, find, Bool-cases, Option-cases, ◌∙◌, any-append_one,
}
use velpos.Prelude.Result.{ok, err}
use velpos.Values.{Runtime}
use velpos.Delivery.Outbox.{ImOutboxMessage}
use velpos.Delivery.OutboxTable.{
  OutboxRow, OutboxTable, conflict, has_key, find_key, insert_row, to_model, to_domain,
  stored_route,
}
use velpos.Delivery.OutboxTable.Queue.{enqueue}

find_key-none :
    (key : String) (rows : List OutboxRow)
    → find (has_key key) rows ≡ none
    → any (has_key key) rows ≡ false
find_key-none key [] h = refl
find_key-none key (r ∷ rs) h = elim (Bool-cases (has_key key r)) [
  | inl e ↦ absurd (ground arith)
  | inr e ↦ rw e (find_key-none key rs (rw e at h))
]

find_key-append_one :
    (key : String) (rows : List OutboxRow) (x : OutboxRow)
    → find (has_key key) rows ≡ none
    → has_key key x ≡ true
    → find (has_key key) (rows ++ x ∷ []) ≡ some x
find_key-append_one key [] x h k = rw k
find_key-append_one key (r ∷ rs) x h k = elim (Bool-cases (has_key key r)) [
  | inl e ↦ absurd (ground arith)
  | inr e ↦ rw e (find_key-append_one key rs x (rw e at h) k)
]

pub decoded-fields :
    (py : Runtime) (row : OutboxRow) {d : ImOutboxMessage}
    → to_domain py row ≡ ok d
    → (d.id ≡ row.id) × (d.content ≡ row.content)
unfolding to_domain
decoded-fields py row h = elim (Option-cases (stored_route py row)) [
  | inl e ↦ absurd (ground arith)
  | inr (r, e) ↦ (ground arith, ground arith)
]

-- A key enqueued twice is one row: after an accepted message with a fresh key, a message with the
-- same key is given the stored one back, with the content and the identifier of the first, and the
-- table stays as the first left it. If the check of the second saw a table without the key, the
-- same holds where the SELECT after the conflict sees the row, and the conflict is raised where that
-- SELECT reads the old snapshot again. (The first's route must decode from the text it is stored
-- as.)
pub enqueue_again :
    (py : Runtime) (t stale : OutboxTable) (m again : ImOutboxMessage) {stored : ImOutboxMessage}
    → find_key m.deduplication_key t ≡ none
    → find_key m.deduplication_key stale ≡ none
    → again.deduplication_key ≡ m.deduplication_key
    → to_domain py (record (to_model py m) { id = t.next_id }) ≡ ok stored
    → (t' : OutboxTable) × (enqueue py t t t m ≡ ok (record m { id = t.next_id }, t'))
      × (enqueue py t' t' t' again ≡ ok (stored, t'))
      × (enqueue py stale t' t' again ≡ ok (stored, t'))
      × (enqueue py stale t' stale again ≡ err conflict)
      × (stored.id ≡ t.next_id)
      × (stored.content ≡ m.content)
unfolding enqueue insert_row to_model
enqueue_again py t stale m again {stored} fresh unseen same decodes =
    let row = record (to_model py m) { id = t.next_id } in
    let t' : OutboxTable = record t { rows = t.rows ++ row ∷ []; next_id = t.next_id + 1 } in
    let key : has_key m.deduplication_key row ≡ true =
      ground (arith, text_eq_iff m.deduplication_key m.deduplication_key) in
    let found : find_key again.deduplication_key t' ≡ some row =
      rw same (find_key-append_one m.deduplication_key t.rows row fresh key) in
    let none_yet = find_key-none m.deduplication_key t.rows fresh in
    let taken : any (has_key again.deduplication_key) t'.rows ≡ true =
      rw same (any-append_one (has_key m.deduplication_key) t.rows row ∙ rw (none_yet, key) refl) in
    let unseen_again : find_key again.deduplication_key stale ≡ none = rw same unseen in
    let (i, c) = decoded-fields py row decodes in
    (t', ground arith, ground arith, ground arith, ground arith, i, c)
