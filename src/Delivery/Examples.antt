-- ===== src/Delivery/Examples.antt =====
-- The queue's theorems at concrete tables, events and policies.
use velpos.Prelude.{
  ℕ, ◌+◌, ◌/◌, ◌*◌, min, ◌≡◌, ◌≤◌, ◌≢◌, refl, String, true, false, Option, none, some, arith, [],
  Memᴰ, max, ◌==◌, text_eq, if◌then◌else◌,
}
use velpos.Prelude.Result.{ok}
use velpos.Values.{Runtime, arr, no_items, ℤ, pos}
use velpos.Binding.Route.{ChannelRoute}
use velpos.Delivery.Inbox
use velpos.Delivery.Inbox.{ImInboxEvent, ImInboxStatus, seconds}
use velpos.Delivery.Policy.{default_policy, backoff, retry_delay}
use velpos.Delivery.Policy.Bounds.{retry_delay_bounds}
use velpos.Delivery.Policy.{from_env}
use velpos.Delivery.InboxTable.{
  InboxRow, InboxTable, accept, claim_next, save, renew_lease, requeue, write, is_processing,
  to_model, insert_row, to_domain, inbox_route, update_row, apply, with_route,
}
use velpos.Delivery.InboxTable.Once.{accept_redelivery}
use velpos.Delivery.InboxTable.Claim.{IsClaim, claim_next-IsClaim}
use velpos.Delivery.InboxWorker.{settle, finish_inbox, InboxOutcome}
use velpos.Delivery.InboxWorker.Budget.{failing_event_dies, failed_rounds}
use velpos.Delivery.InboxWorker.Finish.{undisturbed_finish}
use velpos.Delivery.InboxSteps.{InboxSteps, here, IsHeld}
use velpos.Delivery.InboxSteps.Fencing.{HasReached}
use velpos.Delivery.InboxSteps.Stale.{stale_worker_refused}
use velpos.Delivery.InboxSteps.OnePerSession.{empty_table}
use velpos.Delivery.InboxSteps.Unfenced.{
  nobody, single, requeued_row, crashes_never_dead_letter, requeue_revives_stale_lease,
}

-- A runtime that prints everything as the empty text, so that routes come from the plain columns.
abbrev pub plain : Runtime
plain = record { str_of = λ v. ""; float_truthy = λ t. false; dumps = λ v. ""; loads = λ s. none }

abbrev pub no_route : ChannelRoute
no_route = record { sender_id = "u"; group_id = ""; reply_to_message_id = ""; extras = [] }

abbrev pub hello : ImInboxEvent
hello = record {
  id = 0;
  channel_id = "c1";
  channel_type = "lark";
  binding_id = "b1";
  session_id = "s1";
  external_message_id = "m1";
  content = "hello";
  route = no_route;
  attachments = arr no_items;
  status = ImInboxStatus.received;
  attempt_count = 0;
  next_attempt_at = 5;
  lease_until = none;
  error_message = "";
  created_at = 5;
  updated_at = 5;
  lease_attempt_count = 0;
}

abbrev again : ImInboxEvent
again = record hello { external_message_id = "m2" }

accept_redelivery_example :
    accept plain empty_table (accept plain empty_table empty_table hello).1 hello
    ≡ (none, (accept plain empty_table empty_table hello).1)
accept_redelivery_example =
    accept_redelivery plain empty_table empty_table empty_table hello hello (λ h. h) refl refl

abbrev pub hello_row : InboxRow
hello_row = record {
  id = 1;
  channel_id = "c1";
  channel_type = "lark";
  binding_id = "b1";
  session_id = "s1";
  external_message_id = "m1";
  content = "hello";
  sender_id = "u";
  group_id = "";
  route_json = "";
  attachments_json = "";
  status = ImInboxStatus.received;
  attempt_count = 0;
  next_attempt_at = 5;
  lease_until = none;
  error_message = "";
  created_at = 5;
  updated_at = 5;
}

abbrev pub waiting : InboxTable
waiting = single hello_row

-- the event as claimed at time 7, with a lease of two minutes, and at 120000007 again
abbrev pub claimed_hello : (at count : ℕ) → ImInboxEvent
claimed_hello at count = record hello {
  id = 1;
  status = ImInboxStatus.processing;
  attempt_count = count;
  lease_attempt_count = count;
  lease_until = some (at + seconds 120);
  updated_at = at;
}

abbrev pub under_way : (at count : ℕ) → InboxTable
under_way at count = single (record hello_row {
  status = ImInboxStatus.processing;
  attempt_count = count;
  lease_until = some (at + seconds 120);
  updated_at = at;
})

pub accepted_row :
    accept plain empty_table empty_table hello ≡ (some (record hello { id = 1 }), waiting)
unfolding accept insert_row to_model
accepted_row = refl

pub first_claim :
    claim_next plain nobody 7 120 7 waiting ≡ ok (some (claimed_hello 7 1), under_way 7 1)
unfolding claim_next to_domain inbox_route Inbox.claim update_row apply
first_claim = refl

-- the lease is over at this time
abbrev pub lapse : ℕ
lapse = 7 + seconds 120

second_claim :
    claim_next plain nobody lapse 120 lapse (under_way 7 1)
    ≡ ok (some (claimed_hello lapse 2), under_way lapse 2)
unfolding claim_next to_domain inbox_route Inbox.claim update_row apply
second_claim = refl

pub IsHeld-hello : IsHeld (claimed_hello 7 1)
IsHeld-hello = record { snapshot = refl; attempted = omega arith }

reached_hello : HasReached 1 1 (under_way 7 1)
reached_hello = record { old = omega arith; reached = one }
  where
    one : (r : InboxRow) → Memᴰ r (under_way 7 1).rows → r.id ≡ 1 → 1 ≤ r.attempt_count
    one r (Memᴰ.head e) q = rw e (omega arith)
    one r (Memᴰ.tail m) q = elim m [ ]

stale_worker_refused_example :
    ((randbelow : ℕ → ℕ) (later : ℕ) (outcome : InboxOutcome) (message : String) (u : InboxTable)
      → save
          (settle randbelow default_policy later outcome message (claimed_hello 7 1))
          (under_way lapse 2)
        ≢ ok u)
    × ((later : ℕ) (u : InboxTable)
        → renew_lease
            (Inbox.renew_lease later default_policy.lease_seconds (claimed_hello 7 1))
            (under_way lapse 2)
          ≢ ok u)
stale_worker_refused_example =
    stale_worker_refused plain default_policy nobody lapse lapse (claimed_hello 7 1) IsHeld-hello
      reached_hello second_claim refl here

claim_next-IsClaim_example :
    (row : InboxRow) × IsClaim plain nobody 7 120 7 waiting (claimed_hello 7 1) (under_way 7 1) row
claim_next-IsClaim_example = claim_next-IsClaim plain nobody 7 120 7 waiting first_claim

-- a moment before the lapse
too_early : claim_next plain nobody 8 120 8 (under_way 7 1) ≡ ok (none, under_way 7 1)
unfolding claim_next
too_early = refl

undisturbed_finish_example :
    let s = settle (λ n. 0) default_policy 9 InboxOutcome.deferred "busy" (claimed_hello 7 1) in
    (finish_inbox
        (λ n. 0)
        default_policy
        9
        InboxOutcome.deferred
        "busy"
        (claimed_hello 7 1)
        (under_way 7 1)
      ≡ ok (write s (under_way 7 1), []))
    × (s.status ≡ ImInboxStatus.retry)
undisturbed_finish_example =
    undisturbed_finish plain nobody 7 120 7 waiting (λ n. 0) default_policy 9 InboxOutcome.deferred
      "busy" first_claim

abbrev pub busy_row : InboxRow
busy_row = record hello_row {
  status = ImInboxStatus.processing;
  attempt_count = 1;
  lease_until = some lapse;
  updated_at = 7;
}

failing_event_dies_example :
    (failed_rounds (λ n. 0) default_policy (λ n. n) (λ n. "late") 8 hello).status
    ≡ ImInboxStatus.dead
failing_event_dies_example =
    failing_event_dies (λ n. 0) default_policy (λ n. n) (λ n. "late") 7 hello refl refl

crashes_never_dead_letter_example :
    (row' : InboxRow) × InboxSteps plain default_policy (single busy_row) (single row')
    × (row'.attempt_count ≡ 1 + 99)
    × (is_processing row'.status ≡ true)
unfolding inbox_route
crashes_never_dead_letter_example =
    crashes_never_dead_letter plain default_policy busy_row lapse 99 {r = no_route} refl refl refl

abbrev pub dead_row : InboxRow
dead_row = record hello_row { status = ImInboxStatus.dead; attempt_count = 8 }

requeue_revives_stale_lease_example :
    (t' t'' : InboxTable) × (requeue plain 1 "s1" 50 (single dead_row)
      ≡ ok (some (Inbox.requeued 50 (with_route plain dead_row no_route)), t'))
    × (claim_next plain nobody 50 120 50 t'
        ≡ ok
            (some (Inbox.claim 50 120 (with_route plain (requeued_row 50 dead_row) no_route)), t''))
    × (save (settle (λ n. 0) default_policy 60 InboxOutcome.processed "" (claimed_hello 7 1)) t''
        ≡ ok (
            write
              (settle (λ n. 0) default_policy 60 InboxOutcome.processed "" (claimed_hello 7 1))
              t''))
unfolding inbox_route
requeue_revives_stale_lease_example =
    requeue_revives_stale_lease plain dead_row (claimed_hello 7 1) 50 120 {r = no_route} (λ n. 0)
      default_policy 60 InboxOutcome.processed "" IsHeld-hello refl refl refl refl

-- a reader of integers that accepts one text, and an environment that sets one variable too high
abbrev parse_int : String → Option ℤ
parse_int s = if s == "9999" then some (pos 9999) else none

abbrev environment : String → Option String
environment name =
    if name == "IM_INBOX_WORKERS"
    then some "9999"
    else if name == "IM_OUTBOX_WORKERS"
    then some "many"
    else none

workers_clamped :
    ((from_env parse_int environment).inbox_workers ≡ 16)
    × ((from_env parse_int environment).outbox_workers ≡ 4)
unfolding from_env
workers_clamped = (refl, refl)

retry_delay_bounds_example :
    (backoff default_policy 1 ≡ 2)
    × (backoff default_policy 4 ≡ min 300 (2 * backoff default_policy 3))
    × (backoff default_policy 3 ≤ backoff default_policy 4)
    × (backoff default_policy 3 ≤ 300)
    × (backoff default_policy 3 ≤ retry_delay (λ n. 0) default_policy 3)
    × (retry_delay (λ n. 0) default_policy 3
        ≤ backoff default_policy 3 + max 1 (backoff default_policy 3 / 2))
retry_delay_bounds_example = retry_delay_bounds (λ n. 0) default_policy 3 (λ k h. h)
