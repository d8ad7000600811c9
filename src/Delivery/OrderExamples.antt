-- ===== src/Delivery/OrderExamples.antt =====
-- An event that dies, is requeued and claimed again, and the theorems on the order of a session.
use velpos.Prelude.{◌+◌, ◌∷◌, ◌≡◌, ◌≤◌, refl, true, none, some, arith, [], Memᴰ}
use velpos.Prelude.Result.{ok}
use velpos.Delivery.Inbox
use velpos.Delivery.Inbox.{ImInboxEvent, ImInboxStatus, seconds}
use velpos.Delivery.Policy.{default_policy}
use velpos.Delivery.InboxTable.{
  InboxRow, InboxTable, claim_next, requeue, is_processing, to_domain, inbox_route, update_row,
  apply, with_route, save, locked_owned_model,
}
use velpos.Delivery.InboxWorker.{InboxOutcome, Notification, settle, finish_inbox}
use velpos.Delivery.InboxSteps.{
  InboxStep, TableStep, accepting, claiming, finishing, working, requeueing,
}
use velpos.Delivery.InboxSteps.OnePerSession.{
  empty_table, OrderlyTable, created, then_step, one_event_per_session, processed_in_order,
}
use velpos.Delivery.InboxSteps.Unfenced.{nobody, single}
use velpos.Delivery.InboxSteps.Overtaken.{pair, requeue_overtaken}
use velpos.Delivery.Examples.{
  plain, no_route, hello, hello_row, claimed_hello, under_way, busy_row, dead_row, accepted_row,
  first_claim, IsHeld-hello,
}

abbrev failed_row : InboxRow
failed_row = record hello_row {
  status = ImInboxStatus.dead;
  attempt_count = 1;
  error_message = "bad";
  updated_at = 9;
}

abbrev revived_row : InboxRow
revived_row = record failed_row {
  status = ImInboxStatus.retry;
  attempt_count = 0;
  next_attempt_at = 50;
  updated_at = 50;
}

abbrev second_row : InboxRow
second_row = record revived_row {
  status = ImInboxStatus.processing;
  attempt_count = 1;
  lease_until = some (60 + seconds 120);
  updated_at = 60;
}

abbrev refused : Notification
refused = record { session_id = "s1"; delivery_id = 1; error_message = "bad" }

refuse :
    finish_inbox
      (λ n. 0)
      default_policy
      9
      InboxOutcome.dead_letter
      "bad"
      (claimed_hello 7 1)
      (under_way 7 1)
    ≡ ok (single failed_row, refused ∷ [])
unfolding finish_inbox save locked_owned_model settle Inbox.mark_dead update_row apply
refuse = refl

abbrev revived : ImInboxEvent
revived = record (claimed_hello 7 0) {
  status = ImInboxStatus.retry;
  next_attempt_at = 50;
  lease_until = none;
  error_message = "bad";
  updated_at = 50;
}

revive : requeue plain 1 "s1" 50 (single failed_row) ≡ ok (some revived, single revived_row)
unfolding requeue Inbox.requeue to_domain with_route inbox_route update_row apply
revive = refl

abbrev second_claimed : ImInboxEvent
second_claimed = record revived {
  status = ImInboxStatus.processing;
  attempt_count = 1;
  lease_attempt_count = 1;
  lease_until = some (60 + seconds 120);
  updated_at = 60;
}

claim_again :
    claim_next plain nobody 60 120 60 (single revived_row)
    ≡ ok (some second_claimed, single second_row)
unfolding claim_next to_domain with_route inbox_route Inbox.claim update_row apply
claim_again = refl

only_failed : OrderlyTable plain default_policy (single failed_row)
only_failed =
    then_step
      (then_step (then_step created (working (accepting empty_table hello refl accepted_row)) tt)
        (working (claiming nobody 7 7 first_claim)) tt)
      (working (
        finishing (λ n. 0) 9 InboxOutcome.dead_letter "bad" (claimed_hello 7 1) IsHeld-hello
          refuse))
      tt

under_way_again : OrderlyTable plain default_policy (single second_row)
under_way_again =
    then_step (then_step only_failed (requeueing 1 "s1" 50 revive) alone)
      (working (claiming nobody 60 60 claim_again)) tt
  where
    alone :
        (a : InboxRow)
        → Memᴰ a (single failed_row).rows
        → is_processing a.status ≡ true
        → a.session_id ≡ "s1"
        → a.id ≤ 1
    alone a (Memᴰ.head e) p s = rw e (omega arith)
    alone a (Memᴰ.tail m) p s = elim m [ ]

one_event_per_session_example : second_row.id ≡ second_row.id
one_event_per_session_example =
    one_event_per_session plain default_policy second_row second_row under_way_again
      (Memᴰ.head refl) (Memᴰ.head refl) refl refl refl

processed_in_order_example : second_row.id ≤ second_row.id
processed_in_order_example =
    processed_in_order plain default_policy second_row second_row under_way_again (Memᴰ.head refl)
      (Memᴰ.head refl) refl refl refl

abbrev next_row : InboxRow
next_row = record busy_row { id = 2 }

requeue_overtaken_example :
    (t t' : InboxTable) × (a' : InboxRow) × TableStep plain default_policy
      (pair dead_row next_row)
      t
    × InboxStep plain default_policy t t'
    × Memᴰ a' t'.rows
    × Memᴰ next_row t'.rows
    × (a'.id ≡ 1)
    × (a'.session_id ≡ "s1")
    × (is_processing a'.status ≡ true)
unfolding inbox_route
requeue_overtaken_example =
    requeue_overtaken plain default_policy 50 dead_row next_row {r = no_route} (omega arith) refl
      refl refl refl
