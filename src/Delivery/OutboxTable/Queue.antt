-- ===== src/Delivery/OutboxTable/Queue.antt =====
-- The methods of `ImOutboxRepositoryImpl` of
-- backend/infr/repository/im_delivery_repository_impl.py.
use velpos.Prelude.{
  ℕ, String, Bool, Option, none, some, List, [], ◌∷◌, ◌&&◌, ◌||◌, not, ◌==◌, nat_eq, text_eq, ltb,
  leb, any, filter, find, if◌then◌else◌,
}
use velpos.Prelude.Result.{Result, ok, err, ◌>>=◌}
use velpos.Prelude.Keyed.{find_at}
use velpos.Values.{Runtime}
use velpos.Delivery.Outbox
use velpos.Delivery.Outbox.{ImOutboxMessage}
use velpos.Delivery.InboxTable.{is_expired}
use velpos.Delivery.OutboxTable.{
  OutboxRow, OutboxTable, OutboxError, not_found, lease_lost, conflict, not_failed, is_sending,
  is_waiting, is_failed, is_open, find_key, row_id, insert_row, to_model, to_domain, write,
}

-- The row of the key as a message, or the conflict raised again.
abbrev pub decode_found : Runtime → Option OutboxRow → Result OutboxError ImOutboxMessage
decode_found py none = err conflict
decode_found py (some row) = to_domain py row

-- `seen` is the table of the first SELECT, `t` that of the INSERT, `reread` that of the SELECT after
-- a conflict.
unfoldable pub enqueue :
    Runtime
    → (seen t reread : OutboxTable) → ImOutboxMessage
    → Result OutboxError (ImOutboxMessage × OutboxTable)
unfolding insert_row to_model to_domain
enqueue py seen t reread message = elim (find_key message.deduplication_key seen) [
  | some row ↦ do m ← to_domain py row; ok (m, t)
  | none ↦ elim (insert_row (to_model py message) t) [
    | some (i, t') ↦ ok (record message { id = i }, t')
    | none ↦ do m ← decode_found py (find_key message.deduplication_key reread); ok (m, t)
  ]
]

abbrev pub processable : (now : ℕ) → OutboxRow → Bool
processable now r =
    is_waiting r.status && leb r.next_attempt_at now
    || is_sending r.status && is_expired now r.lease_until

-- The `EXISTS` over `earlier`.
abbrev pub holds_back : OutboxRow → OutboxRow → Bool
holds_back r e = e.session_id == r.session_id && ltb e.id r.id && is_open e.status

abbrev pub claimable : (locked : ℕ → Bool) (now : ℕ) → List OutboxRow → OutboxRow → Bool
claimable locked now rows r =
    processable now r && not (any (holds_back r) rows) && not (locked r.id)

-- ORDER BY id LIMIT 1
unfoldable pub lowest : List OutboxRow → Option OutboxRow
lowest [] = none
lowest (r ∷ rs) = elim (lowest rs) [
  | none ↦ some r
  | some s ↦ some (if ltb s.id r.id then s else r)
]

unfoldable pub select_next : (locked : ℕ → Bool) (now : ℕ) → List OutboxRow → Option OutboxRow
unfolding lowest
select_next locked now rows = lowest (filter (claimable locked now rows) rows)

unfoldable pub claim_next :
    Runtime
    → (locked : ℕ → Bool) → (now lease_seconds claim_now : ℕ) → OutboxTable
    → Result OutboxError (Option ImOutboxMessage × OutboxTable)
unfolding select_next
claim_next py locked now lease_seconds claim_now t = elim (select_next locked now t.rows) [
  | none ↦ ok (none, t)
  | some row ↦ do
    message ← to_domain py row
    let claimed = Outbox.claim claim_now lease_seconds message
    ok (some claimed, write claimed t)
]

abbrev pub check_owned : ImOutboxMessage → Option OutboxRow → Result OutboxError OutboxRow
check_owned m none = err (not_found m.id)
check_owned m (some row) =
    if is_sending row.status && row.attempt_count == m.attempt_count
    then ok row
    else err (lease_lost m.id m.attempt_count)

unfoldable pub save : ImOutboxMessage → OutboxTable → Result OutboxError OutboxTable
save m t = do row ← check_owned m (find_at row_id m.id t.rows); ok (write m t)

unfoldable pub has_processable : (now : ℕ) → OutboxTable → Bool
has_processable now t = any (processable now) t.rows

unfoldable pub requeue :
    Runtime
    → (message_id : ℕ) (session_id : String) (now : ℕ) → OutboxTable
    → Result OutboxError (Option ImOutboxMessage × OutboxTable)
unfolding Outbox.requeue
requeue py message_id session_id now t =
    elim (find (λ r. r.id == message_id && r.session_id == session_id) t.rows) [
      | none ↦ ok (none, t)
      | some row ↦ if not (is_failed row.status) then ok (none, t) else do
        message ← to_domain py row
        elim (Outbox.requeue now message) [
          | ok fresh ↦ ok (some fresh, write fresh t)
          | err (Outbox.NotRequeueable.not_failed s) ↦ err (not_failed s)
        ]
    ]
