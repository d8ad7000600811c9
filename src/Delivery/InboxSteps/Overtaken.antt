-- ===== src/Delivery/InboxSteps/Overtaken.antt =====
-- A requeue of an earlier event of a session whose later event is being processed
-- (`requeue` and `claim_next` of backend/infr/repository/im_delivery_repository_impl.py).
use velpos.Prelude.{
  ℕ, suc, ◌≡◌, ◌<◌, refl, true, false, some, arith, [], ◌∷◌, ◌==◌, nat_eq, text_eq, text_eq_iff,
  sym, Memᴰ,
}
use velpos.Prelude.Result.{ok}
use velpos.Values.{Runtime}
use velpos.Binding.Route.{ChannelRoute}
use velpos.Delivery.Inbox
use velpos.Delivery.InboxTable
use velpos.Delivery.InboxTable.{
  InboxRow, InboxTable, is_processing, is_dead, apply, update_row, claim_next, to_domain,
  select_next, earliest, claimable, inbox_route, with_route,
}
use velpos.Delivery.Policy.{ImDeliveryPolicy}
use velpos.Delivery.InboxSteps.{InboxStep, claiming, TableStep, requeueing}
use velpos.Delivery.InboxSteps.Unfenced.{nobody, claimed_row, requeued_row}

-- A table with two events.
abbrev pub pair : InboxRow → InboxRow → InboxTable
pair a b = record { rows = a ∷ b ∷ []; next_id = suc b.id }

decoded :
    (py : Runtime) (row : InboxRow) {r : ChannelRoute}
    → inbox_route py row ≡ some r
    → to_domain py row ≡ ok (with_route py row r)
unfolding to_domain
decoded py row route = rw (route, to_domain)

module _ (py : Runtime) (a b : InboxRow) {r : ChannelRoute} (earlier : a.id < b.id)
    (same : b.session_id ≡ a.session_id) (route : inbox_route py a ≡ some r) where
  apart : (a.id == b.id) ≡ false
  apart = ground (arith, earlier)

  apart' : (b.id == a.id) ≡ false
  apart' = ground (arith, earlier)

  requeue-pair :
      (now : ℕ)
      → is_dead a.status ≡ true
      → InboxTable.requeue py a.id a.session_id now (pair a b)
        ≡ ok (some (Inbox.requeued now (with_route py a r)), pair (requeued_row now a) b)
  unfolding InboxTable.requeue Inbox.requeue apply update_row with_route
  requeue-pair now dead =
      ground (arith, apart', dead, decoded py a route, text_eq_iff a.session_id a.session_id)

  module _ (now : ℕ) where
    abbrev again : InboxRow
    again = requeued_row now a

    is_free : claimable nobody now (again ∷ b ∷ []) again ≡ true
    is_free = ground (arith, earlier)

    is_held : claimable nobody now (again ∷ b ∷ []) b ≡ false
    is_held = ground (arith, earlier, same, text_eq_iff a.session_id b.session_id)

    select-pair : select_next nobody now (again ∷ b ∷ []) ≡ some again
    unfolding select_next earliest
    select-pair = rw (is_free, is_held) refl

  again-route : (now : ℕ) → inbox_route py (requeued_row now a) ≡ some r
  unfolding inbox_route
  again-route now = route

  claim-pair :
      (now lease_seconds : ℕ)
      → claim_next py nobody now lease_seconds now (pair (requeued_row now a) b)
        ≡ ok (
          some (Inbox.claim now lease_seconds (with_route py (requeued_row now a) r)),
          pair (claimed_row now lease_seconds (requeued_row now a)) b,
        )
  unfolding claim_next apply update_row Inbox.claim with_route
  claim-pair now lease_seconds =
      ground
        (arith, select-pair now, decoded py (requeued_row now a) (again-route now), apart', apart)

-- A manual requeue breaks the order of a session. Let an event be a dead letter whose route can be
-- read, and a later event of its session be processed, and these be the whole table. Then a requeue
-- of the first and a claim follow, after which both are being processed, though the later one is not
-- the first open event of the session.
pub requeue_overtaken :
    (py : Runtime) (policy : ImDeliveryPolicy) (now : ℕ) (a b : InboxRow) {r : ChannelRoute}
    → a.id < b.id
    → b.session_id ≡ a.session_id
    → is_dead a.status ≡ true
    → is_processing b.status ≡ true
    → inbox_route py a ≡ some r
    → (t t' : InboxTable) × (a' : InboxRow) × TableStep py policy (pair a b) t
      × InboxStep py policy t t'
      × Memᴰ a' t'.rows
      × Memᴰ b t'.rows
      × (a'.id ≡ a.id)
      × (a'.session_id ≡ b.session_id)
      × (is_processing a'.status ≡ true)
requeue_overtaken py policy now a b earlier same dead busy route = (
  pair (requeued_row now a) b,
  pair (claimed_row now policy.lease_seconds (requeued_row now a)) b,
  claimed_row now policy.lease_seconds (requeued_row now a),
  requeueing a.id a.session_id now (requeue-pair py a b earlier same route now dead),
  claiming nobody now now (claim-pair py a b earlier same route now policy.lease_seconds),
  Memᴰ.head refl,
  Memᴰ.tail (Memᴰ.head refl),
  refl,
  sym same,
  refl,
)
