-- ===== src/Delivery/InboxTable.antt =====
-- `ImInboxRepositoryImpl` of backend/infr/repository/im_delivery_repository_impl.py over the table
-- of backend/infr/repository/im_delivery_model.py. Each method is one transaction on the table.
-- The status column is the enumeration that its text names. What another open transaction has
-- locked, and the table that a SELECT saw before another transaction committed, are arguments.
pub mod Rows
pub mod Once
pub mod Owned
pub mod Claim
use velpos.Prelude.{
  ℕ, ◌+◌, String, Bool, true, false, Option, none, some, List, [], ◌∷◌, ◌++◌, ◌&&◌, ◌||◌, not, ◌==◌,
  nat_eq, text_eq, ltb, leb, length, any, filter, find, if◌then◌else◌, map,
}
use velpos.Prelude.Result.{Result, ok, err, ◌>>=◌}
use velpos.Values.{Runtime, arr, no_items, obj, end, truthy, safe_json_loads, of_dict}
use velpos.Binding.Route
use velpos.Binding.Route.{ChannelRoute}
use velpos.Delivery.Inbox
use velpos.Delivery.Inbox.{
  ImInboxEvent, ImInboxStatus, received, processing, retry, processed, dead,
}

-- `ImInboxEventModel`
pub record InboxRow : Type 0 where
  pub id : ℕ
  pub channel_id : String
  pub channel_type : String
  pub binding_id : String
  pub session_id : String
  pub external_message_id : String
  pub content : String
  pub sender_id : String
  pub group_id : String
  pub route_json : String
  pub attachments_json : String
  pub status : ImInboxStatus
  pub attempt_count : ℕ
  pub next_attempt_at : ℕ
  pub lease_until : Option ℕ
  pub error_message : String
  pub created_at : ℕ
  pub updated_at : ℕ

-- The rows, oldest first, and the next value of the autoincrement key.
pub record InboxTable : Type 0 where
  pub rows : List InboxRow
  pub next_id : ℕ

-- `bad_route` stands for the exception of decoding a stored route.
pub data DeliveryError : Type 0 where
  not_found : ℕ → DeliveryError
  lease_lost : ℕ → ℕ → DeliveryError
  bad_route : DeliveryError
  not_dead : ImInboxStatus → DeliveryError

abbrev pub is_received : ImInboxStatus → Bool
is_received received = true
is_received _ = false

abbrev pub is_processing : ImInboxStatus → Bool
is_processing processing = true
is_processing _ = false

abbrev pub is_retry : ImInboxStatus → Bool
is_retry retry = true
is_retry _ = false

abbrev pub is_dead : ImInboxStatus → Bool
is_dead dead = true
is_dead _ = false

-- RECEIVED or RETRY
abbrev pub is_waiting : ImInboxStatus → Bool
is_waiting s = is_received s || is_retry s

-- RECEIVED, RETRY or PROCESSING: what holds back the later rows of its session
abbrev pub is_open : ImInboxStatus → Bool
is_open s = is_waiting s || is_processing s

-- `lease_until IS NOT NULL AND lease_until <= now`
abbrev pub is_expired : (now : ℕ) → Option ℕ → Bool
is_expired now none = false
is_expired now (some t) = leb t now

-- The unique constraint of the table.
abbrev pub same_key : InboxRow → InboxRow → Bool
same_key a b = a.channel_id == b.channel_id && a.external_message_id == b.external_message_id

-- An INSERT under the constraint: `none` is `IntegrityError`.
unfoldable pub insert_row : InboxRow → InboxTable → Option (ℕ × InboxTable)
insert_row row t =
    if any (same_key row) t.rows
    then none
    else some (
      t.next_id,
      record t { rows = t.rows ++ record row { id = t.next_id } ∷ []; next_id = t.next_id + 1 },
    )

-- UPDATE … WHERE id = i
unfoldable pub update_row : ℕ → (InboxRow → InboxRow) → List InboxRow → List InboxRow
update_row i f [] = []
update_row i f (r ∷ rs) = (if r.id == i then f r else r) ∷ update_row i f rs

abbrev pub find_row : ℕ → List InboxRow → Option InboxRow
find_row i = find (λ r. r.id == i)

module _ (py : Runtime) where
  unfoldable pub to_model : ImInboxEvent → InboxRow
  to_model e = record {
    id = 0;
    channel_id = e.channel_id;
    channel_type = e.channel_type;
    binding_id = e.binding_id;
    session_id = e.session_id;
    external_message_id = e.external_message_id;
    content = e.content;
    sender_id = e.route.sender_id;
    group_id = e.route.group_id;
    route_json = py.dumps (obj (of_dict (Route.to_dict e.route)));
    attachments_json = py.dumps e.attachments;
    status = e.status;
    attempt_count = e.attempt_count;
    next_attempt_at = e.next_attempt_at;
    lease_until = e.lease_until;
    error_message = e.error_message;
    created_at = e.created_at;
    updated_at = e.updated_at;
  }

  -- `_inbox_route`
  unfoldable pub inbox_route : InboxRow → Option ChannelRoute
  unfolding safe_json_loads truthy Route.from_dict Route.route
  inbox_route row =
      let stored = safe_json_loads py row.route_json (obj end) in
      if truthy py stored
      then Route.from_dict py stored
      else some (Route.route py row.sender_id row.group_id "" [])

  unfoldable pub with_route : InboxRow → ChannelRoute → ImInboxEvent
  with_route row r = record {
    id = row.id;
    channel_id = row.channel_id;
    channel_type = row.channel_type;
    binding_id = row.binding_id;
    session_id = row.session_id;
    external_message_id = row.external_message_id;
    content = row.content;
    route = r;
    attachments = safe_json_loads py row.attachments_json (arr no_items);
    status = row.status;
    attempt_count = row.attempt_count;
    next_attempt_at = row.next_attempt_at;
    lease_until = row.lease_until;
    error_message = row.error_message;
    created_at = row.created_at;
    updated_at = row.updated_at;
    lease_attempt_count = 0;
  }

  unfoldable pub to_domain : InboxRow → Result DeliveryError ImInboxEvent
  unfolding with_route
  to_domain row = elim (inbox_route row) [ none ↦ err bad_route | some r ↦ ok (with_route row r) ]

-- `_apply`
unfoldable pub apply : ImInboxEvent → InboxRow → InboxRow
apply e row = record row {
  status = e.status;
  attempt_count = e.attempt_count;
  next_attempt_at = e.next_attempt_at;
  lease_until = e.lease_until;
  error_message = e.error_message;
  updated_at = e.updated_at;
}

abbrev pub write : ImInboxEvent → InboxTable → InboxTable
write e t = record t { rows = update_row e.id (apply e) t.rows }

-- `seen` is the table of the SELECT, `t` that of the INSERT, which other workers may have changed.
unfoldable pub accept :
    Runtime → (seen t : InboxTable) → ImInboxEvent → Option ImInboxEvent × InboxTable
unfolding to_model
accept py seen t event =
    if any (same_key (to_model py event)) seen.rows
    then (none, t)
    else elim (insert_row (to_model py event) t) [
      | none ↦ (none, t)
      | some (i, t') ↦ (some (record event { id = i }), t')
    ]

abbrev pub processable : (now : ℕ) → InboxRow → Bool
processable now r =
    is_waiting r.status && leb r.next_attempt_at now
    || is_processing r.status && is_expired now r.lease_until

-- The `EXISTS` over `earlier`.
abbrev pub holds_back : InboxRow → InboxRow → Bool
holds_back r e = e.session_id == r.session_id && ltb e.id r.id && is_open e.status

abbrev pub claimable : (locked : ℕ → Bool) (now : ℕ) → List InboxRow → InboxRow → Bool
claimable locked now rows r =
    processable now r && not (any (holds_back r) rows) && not (locked r.id)

-- ORDER BY created_at, id
abbrev pub comes_before : InboxRow → InboxRow → Bool
comes_before a b = ltb a.created_at b.created_at || leb a.created_at b.created_at && ltb a.id b.id

-- LIMIT 1 of that order
unfoldable pub earliest : List InboxRow → Option InboxRow
earliest [] = none
earliest (r ∷ rs) = elim (earliest rs) [
  | none ↦ some r
  | some s ↦ some (if comes_before s r then s else r)
]

unfoldable pub select_next : (locked : ℕ → Bool) (now : ℕ) → List InboxRow → Option InboxRow
unfolding earliest
select_next locked now rows = earliest (filter (claimable locked now rows) rows)

-- `locked` are the rows that SKIP LOCKED skips; `claim_now` is the clock of `event.claim`.
unfoldable pub claim_next :
    Runtime
    → (locked : ℕ → Bool) → (now lease_seconds claim_now : ℕ) → InboxTable
    → Result DeliveryError (Option ImInboxEvent × InboxTable)
unfolding select_next
claim_next py locked now lease_seconds claim_now t = elim (select_next locked now t.rows) [
  | none ↦ ok (none, t)
  | some row ↦ do
    event ← to_domain py row
    let claimed = Inbox.claim claim_now lease_seconds event
    ok (some claimed, write claimed t)
]

-- The attempt that the worker's lease stands for.
abbrev pub expected_attempt : ImInboxEvent → ℕ
expected_attempt e = if e.lease_attempt_count == 0 then e.attempt_count else e.lease_attempt_count

abbrev pub check_owned : ImInboxEvent → Option InboxRow → Result DeliveryError InboxRow
check_owned e none = err (not_found e.id)
check_owned e (some row) =
    if is_processing row.status && row.attempt_count == expected_attempt e
    then ok row
    else err (lease_lost e.id (expected_attempt e))

unfoldable pub locked_owned_model : ImInboxEvent → InboxTable → Result DeliveryError InboxRow
locked_owned_model e t = check_owned e (find_row e.id t.rows)

unfoldable pub save : ImInboxEvent → InboxTable → Result DeliveryError InboxTable
unfolding locked_owned_model
save e t = do row ← locked_owned_model e t; ok (write e t)

-- `renew_lease` of the repository, which writes the event's lease alone.
unfoldable pub renew_lease : ImInboxEvent → InboxTable → Result DeliveryError InboxTable
unfolding locked_owned_model
renew_lease e t = do
  row ← locked_owned_model e t
  ok (record t {
    rows =
        update_row e.id (λ r. record r { lease_until = e.lease_until; updated_at = e.updated_at })
          t.rows;
  })

abbrev pub is_deferred : String → (now : ℕ) → InboxRow → Bool
is_deferred session_id now r =
    r.session_id == session_id && is_retry r.status && ltb now r.next_attempt_at

abbrev pub release_row : String → (now : ℕ) → InboxRow → InboxRow
release_row session_id now r =
    if is_deferred session_id now r then record r { next_attempt_at = now; updated_at = now } else r

-- One UPDATE; its result is `rowcount`.
unfoldable pub release_pending_retries : String → (now : ℕ) → InboxTable → ℕ × InboxTable
release_pending_retries session_id now t = (
  length (filter (is_deferred session_id now) t.rows),
  record t { rows = map (release_row session_id now) t.rows },
)

unfoldable pub has_processable : (now : ℕ) → InboxTable → Bool
has_processable now t = any (processable now) t.rows

-- `requeue` of the repository: `none` unless the session's row is dead.
unfoldable pub requeue :
    Runtime
    → (event_id : ℕ) (session_id : String) (now : ℕ) → InboxTable
    → Result DeliveryError (Option ImInboxEvent × InboxTable)
unfolding Inbox.requeue
requeue py event_id session_id now t =
    elim (find (λ r. r.id == event_id && r.session_id == session_id) t.rows) [
      | none ↦ ok (none, t)
      | some row ↦ if not (is_dead row.status) then ok (none, t) else do
        event ← to_domain py row
        elim (Inbox.requeue now event) [
          | ok fresh ↦ ok (some fresh, write fresh t)
          | err (Inbox.NotRequeueable.not_dead s) ↦ err (not_dead s)
        ]
    ]
