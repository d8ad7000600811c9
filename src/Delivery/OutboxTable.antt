-- ===== src/Delivery/OutboxTable.antt =====
-- `ImOutboxRepositoryImpl` of backend/infr/repository/im_delivery_repository_impl.py over the table
-- of backend/infr/repository/im_delivery_model.py, in the way of the inbox: a method is one
-- transaction, and what other transactions made of the table is an argument.
pub mod Queue
pub mod Once
pub mod Claim
use velpos.Prelude.{
  ℕ, ◌+◌, String, Bool, true, false, Option, none, some, List, [], ◌∷◌, ◌++◌, ◌&&◌, ◌||◌, not, ◌==◌,
  nat_eq, text_eq, ltb, leb, any, filter, find, if◌then◌else◌,
}
use velpos.Prelude.Result.{Result, ok, err, ◌>>=◌}
use velpos.Prelude.Keyed.{update_at}
use velpos.Values.{Runtime, arr, no_items, obj, end, safe_json_loads, of_dict}
use velpos.Binding.Route
use velpos.Binding.Route.{ChannelRoute}
use velpos.Delivery.Outbox
use velpos.Delivery.Outbox.{
  ImOutboxMessage, ImOutboxStatus, pending, sending, retry, sent, cancelled, dead,
}
use velpos.Delivery.InboxTable.{is_expired}

-- `ImOutboxMessageModel`
pub record OutboxRow : Type 0 where
  pub id : ℕ
  pub session_id : String
  pub binding_id : String
  pub channel_id : String
  pub channel_type : String
  pub content : String
  pub deduplication_key : String
  pub attachments_json : String
  pub reply_context_json : String
  pub status : ImOutboxStatus
  pub attempt_count : ℕ
  pub next_attempt_at : ℕ
  pub lease_until : Option ℕ
  pub error_message : String
  pub external_message_id : String
  pub created_at : ℕ
  pub updated_at : ℕ

pub record OutboxTable : Type 0 where
  pub rows : List OutboxRow
  pub next_id : ℕ

-- `conflict` stands for the `IntegrityError` that `enqueue` raises again, `bad_route` for the
-- exception of decoding a stored route.
pub data OutboxError : Type 0 where
  not_found : ℕ → OutboxError
  lease_lost : ℕ → ℕ → OutboxError
  bad_route conflict : OutboxError
  not_failed : ImOutboxStatus → OutboxError

abbrev pub is_sending : ImOutboxStatus → Bool
is_sending sending = true
is_sending _ = false

-- PENDING or RETRY
abbrev pub is_waiting : ImOutboxStatus → Bool
is_waiting pending = true
is_waiting retry = true
is_waiting _ = false

-- DEAD or CANCELLED
abbrev pub is_failed : ImOutboxStatus → Bool
is_failed dead = true
is_failed cancelled = true
is_failed _ = false

abbrev pub is_open : ImOutboxStatus → Bool
is_open s = is_waiting s || is_sending s

abbrev pub has_key : String → OutboxRow → Bool
has_key key r = r.deduplication_key == key

abbrev pub find_key : String → OutboxTable → Option OutboxRow
find_key key t = find (has_key key) t.rows

-- An INSERT under the constraint on the deduplication key: `none` is `IntegrityError`.
unfoldable pub insert_row : OutboxRow → OutboxTable → Option (ℕ × OutboxTable)
insert_row row t =
    if any (has_key row.deduplication_key) t.rows
    then none
    else some (
      t.next_id,
      record t { rows = t.rows ++ record row { id = t.next_id } ∷ []; next_id = t.next_id + 1 },
    )

abbrev pub row_id : OutboxRow → ℕ
row_id r = r.id

unfoldable pub to_model : Runtime → ImOutboxMessage → OutboxRow
to_model py m = record {
  id = 0;
  session_id = m.session_id;
  binding_id = m.binding_id;
  channel_id = m.channel_id;
  channel_type = m.channel_type;
  content = m.content;
  deduplication_key = m.deduplication_key;
  attachments_json = py.dumps m.attachments;
  reply_context_json = py.dumps (obj (of_dict (Route.to_dict m.route)));
  status = m.status;
  attempt_count = m.attempt_count;
  next_attempt_at = m.next_attempt_at;
  lease_until = m.lease_until;
  error_message = m.error_message;
  external_message_id = m.external_message_id;
  created_at = m.created_at;
  updated_at = m.updated_at;
}

unfoldable pub with_route : Runtime → OutboxRow → ChannelRoute → ImOutboxMessage
with_route py row r = record {
  id = row.id;
  session_id = row.session_id;
  binding_id = row.binding_id;
  channel_id = row.channel_id;
  channel_type = row.channel_type;
  content = row.content;
  deduplication_key = row.deduplication_key;
  attachments = safe_json_loads py row.attachments_json (arr no_items);
  route = r;
  status = row.status;
  attempt_count = row.attempt_count;
  next_attempt_at = row.next_attempt_at;
  lease_until = row.lease_until;
  error_message = row.error_message;
  external_message_id = row.external_message_id;
  created_at = row.created_at;
  updated_at = row.updated_at;
}

unfoldable pub stored_route : Runtime → OutboxRow → Option ChannelRoute
unfolding safe_json_loads Route.from_dict
stored_route py row = Route.from_dict py (safe_json_loads py row.reply_context_json (obj end))

unfoldable pub to_domain : Runtime → OutboxRow → Result OutboxError ImOutboxMessage
unfolding with_route
to_domain py row = elim (stored_route py row) [
  | none ↦ err bad_route
  | some r ↦ ok (with_route py row r)
]

-- `_apply`
unfoldable pub apply : ImOutboxMessage → OutboxRow → OutboxRow
apply m row = record row {
  status = m.status;
  attempt_count = m.attempt_count;
  next_attempt_at = m.next_attempt_at;
  lease_until = m.lease_until;
  error_message = m.error_message;
  external_message_id = m.external_message_id;
  updated_at = m.updated_at;
}

abbrev pub write : ImOutboxMessage → OutboxTable → OutboxTable
write m t = record t { rows = update_at row_id m.id (apply m) t.rows }
