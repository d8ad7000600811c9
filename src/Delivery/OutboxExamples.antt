-- ===== src/Delivery/OutboxExamples.antt =====
-- Runs of the outbound queue, and its theorems on them.
use velpos.Prelude.{ℕ, ◌+◌, ◌≡◌, refl, String, Bool, true, false, Option, none, some, [], ◌∷◌, Memᴰ}
use velpos.Prelude.Keyed.{update_at}
use velpos.Prelude.Result.{Result, ok, err}
use velpos.Values.{Value, Runtime, arr, no_items}
use velpos.Binding.Route.{ChannelRoute}
use velpos.Binding.ImBinding.{ImBinding, BindingStatus, ImChannelType, channel_text}
use velpos.Delivery.Outbox
use velpos.Delivery.Outbox.{ImOutboxMessage, ImOutboxStatus}
use velpos.Delivery.Inbox.{seconds}
use velpos.Delivery.Policy.{default_policy}
use velpos.Delivery.InboxWorker.{is_bound}
use velpos.Delivery.OutboxTable.{
  OutboxRow, OutboxTable, OutboxError, conflict, to_model, to_domain, stored_route, apply,
}
use velpos.Delivery.OutboxTable.Once.{enqueue_again}
use velpos.Delivery.OutboxTable.Queue.{enqueue, claim_next, save}
use velpos.Delivery.OutboxWorker.{
  Outbound, Sending, receipt, Round, binding_ok, complete_claimed, settle, finish_outbox,
}
use velpos.Delivery.OutboxWorker.Rounds.{IsSettled, round_settles}
use velpos.Delivery.OutboxWorker.Handed.{handed_to_own_binding}

-- A runtime that prints everything as the empty text and reads nothing.
abbrev plain : Runtime
plain = record { str_of = λ v. ""; float_truthy = λ t. false; dumps = λ v. ""; loads = λ s. none }

abbrev no_route : ChannelRoute
no_route = record { sender_id = ""; group_id = ""; reply_to_message_id = ""; extras = [] }

abbrev answer : ImOutboxMessage
answer = record {
  id = 0;
  session_id = "s1";
  binding_id = "b1";
  channel_id = "c1";
  channel_type = "lark";
  content = "done";
  deduplication_key = "run-1";
  attachments = arr no_items;
  route = no_route;
  status = ImOutboxStatus.pending;
  attempt_count = 0;
  next_attempt_at = 5;
  lease_until = none;
  error_message = "";
  external_message_id = "";
  created_at = 5;
  updated_at = 5;
}

abbrev second_answer : ImOutboxMessage
second_answer = record answer { content = "done again"; created_at = 9 }

abbrev empty_queue : OutboxTable
empty_queue = record { rows = []; next_id = 1 }

abbrev answer_row : OutboxRow
answer_row = record {
  id = 1;
  session_id = "s1";
  binding_id = "b1";
  channel_id = "c1";
  channel_type = "lark";
  content = "done";
  deduplication_key = "run-1";
  attachments_json = "";
  reply_context_json = "";
  status = ImOutboxStatus.pending;
  attempt_count = 0;
  next_attempt_at = 5;
  lease_until = none;
  error_message = "";
  external_message_id = "";
  created_at = 5;
  updated_at = 5;
}

abbrev waiting : OutboxTable
waiting = record { rows = answer_row ∷ []; next_id = 2 }

abbrev stored_answer : ImOutboxMessage
stored_answer = record answer { id = 1 }

decoded : to_domain plain (record (to_model plain answer) { id = 1 }) ≡ ok stored_answer
unfolding to_domain to_model stored_route
decoded = refl

enqueue_again_example :
    (t' : OutboxTable) × (enqueue plain empty_queue empty_queue empty_queue answer
      ≡ ok (stored_answer, t'))
    × (enqueue plain t' t' t' second_answer ≡ ok (stored_answer, t'))
    × (enqueue plain empty_queue t' t' second_answer ≡ ok (stored_answer, t'))
    × (enqueue plain empty_queue t' empty_queue second_answer ≡ err conflict)
    × (stored_answer.id ≡ 1)
    × (stored_answer.content ≡ "done")
enqueue_again_example =
    enqueue_again plain empty_queue empty_queue answer second_answer refl refl refl decoded

abbrev nobody : ℕ → Bool
nobody i = false

abbrev claimed_answer : ImOutboxMessage
claimed_answer = record stored_answer {
  status = ImOutboxStatus.sending;
  attempt_count = 1;
  lease_until = some (7 + seconds 120);
  updated_at = 7;
}

abbrev sending_queue : OutboxTable
sending_queue = record {
  rows =
      record answer_row {
        status = ImOutboxStatus.sending;
        attempt_count = 1;
        lease_until = claimed_answer.lease_until;
        updated_at = 7;
      }
      ∷ [];
  next_id = 2;
}

first_claim : claim_next plain nobody 7 120 7 waiting ≡ ok (some claimed_answer, sending_queue)
unfolding claim_next to_domain stored_route apply Outbox.claim update_at
first_claim = refl

abbrev lark_binding : ImBinding
lark_binding = record {
  id = "b1";
  session_id = "s1";
  channel_type = ImChannelType.lark;
  channel_id = "c1";
  channel_address = "";
  config = [];
  im_user_id = "";
  im_token = "t";
  binding_status = BindingStatus.bound;
  friend_user_id = "f";
  qr_code_data = "";
  created_at = 1;
}

abbrev its_binding : String → Option ImBinding
its_binding s = some lark_binding

abbrev no_files : ImOutboxMessage → Result String Value
no_files m = ok (arr no_items)

abbrev accepts : Outbound → Sending
accepts call = receipt "x1"

abbrev least : ℕ → ℕ
least n = 0

abbrev no_text : OutboxError → String
no_text e = ""

round_settles_example :
    (r : Round) × (s : ImOutboxMessage) × (complete_claimed least default_policy no_text its_binding
        no_files accepts 9 claimed_answer sending_queue []
      ≡ ok r)
    × IsSettled accepts claimed_answer sending_queue r s
round_settles_example =
    round_settles least default_policy no_text its_binding no_files accepts 9 claimed_answer
      sending_queue [] (record { row = _; found = refl; busy = refl; attempt = refl })

abbrev its_call : Outbound
its_call = record {
  binding = lark_binding;
  content = "done";
  attachments = arr no_items;
  route = no_route;
  idempotency_key = "run-1";
}

abbrev sent_round : Round
sent_round = record {
  table = record {
    rows =
        record answer_row {
          status = ImOutboxStatus.sent;
          attempt_count = 1;
          lease_until = none;
          external_message_id = "x1";
          updated_at = 9;
        }
        ∷ [];
    next_id = 2;
  };
  channels = [];
  handed = its_call ∷ [];
  notices = [];
}

sent_run :
    complete_claimed least default_policy no_text its_binding no_files accepts 9 claimed_answer
      sending_queue []
    ≡ ok sent_round
unfolding complete_claimed settle finish_outbox save apply update_at binding_ok Outbox.mark_sent
sent_run = refl

handed_to_own_binding_example :
    (its_binding "s1" ≡ some lark_binding)
    × (lark_binding.id ≡ "b1")
    × (channel_text lark_binding.channel_type ≡ "lark")
    × (is_bound lark_binding.binding_status ≡ true)
    × (its_call.content ≡ "done")
    × (its_call.route ≡ no_route)
    × (its_call.idempotency_key ≡ "run-1")
handed_to_own_binding_example =
    handed_to_own_binding least default_policy no_text its_binding no_files accepts 9 claimed_answer
      sending_queue [] its_call sent_run (Memᴰ.head refl)
