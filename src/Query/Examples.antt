-- ===== src/Query/Examples.antt =====
-- A request that is prepared, answered or broken off, and sent again.
use velpos.Prelude.{
  ℕ, String, true, false, Option, none, some, [], ◌∷◌, ◌==◌, text_eq, text_eq_iff, ◌≡◌, refl,
  starts_with, join_texts,
}
use velpos.Prelude.Result.{ok, err}
use velpos.Prelude.Dict
use velpos.Prelude.Dict.{Dict}
use velpos.Values.{Value, int, str, arr, no_items, item, truthy, ℤ, pos}
use velpos.Session.Messages.{Message, assistant, result, create, zero_usage}
use velpos.Session.{Session, idle, running, error, start_query, with_uuid}
use velpos.Session.Operations.{add_message}
use velpos.Query.Command.{
  Language, IsLanguage, RunQueryCommand, compose_prompt, attachment_refs, attachment_reference,
  in_set,
}
use velpos.Query.Prepare.{
  QueryContext, id_conflict, user_message, find_user_message_index, prepare_query,
  acknowledge_terminal_duplicate, validate_duplicate_payload,
}
use velpos.Query.Prepare.Tagged.{done, tagged}
use velpos.Query.Prepare.Once.{prepare_query-acknowledge, prepare_query-resume}
use velpos.Session.{rewind_to}
use velpos.Session.Messages.{text_of}
use velpos.Query.Binding.{accept_or_reject_sdk_session_id, is_fork}
use velpos.Query.Rewind.{
  RewindReply, Rewound, send_rewinds, last_user_content, rewind_to_message, rewind_to_message_id,
  cancel_loaded,
}
use velpos.Query.Rewind.Synced.{IsSynced, rewind_to_message_id-IsSynced, cancel_loaded-last_user}
use velpos.Query.Queue.{steered_message}
use velpos.Query.Queue.Replay.{steered_message-validate_duplicate_payload}

-- Texts print as themselves and need no stripping.
abbrev shown : Value → String
shown (str s) = s
shown (arr no_items) = "[]"
shown (arr (item v r)) = "[...]"
shown v = "?"

abbrev number : Value → Option ℤ
number (int z) = some z
number v = none

abbrev pub plain : Language
plain = record {
  runtime = record { str_of = shown; float_truthy = λ t. false; dumps = shown; loads = λ s. none };
  strip = λ s. s;
  casefold = λ s. s;
  int_of = number;
  same = λ v w. shown v == shown w;
}

plain-IsLanguage : IsLanguage plain
plain-IsLanguage = record {
  same_refl = λ v. (text_eq_iff (shown v) (shown v)).1 refl;
  str_of_str = λ s. refl;
}

abbrev pub fresh : Session
fresh = record {
  session_id = "s1";
  model = "default";
  status = idle;
  messages = [];
  usage = zero_usage;
  continue_conversation = false;
  project_id = "p1";
  project_dir = "";
  name = "";
  sdk_session_id = "";
  last_input_tokens = pos 0;
  pending_request_context = none;
  queued_command = none;
  cancel_requested = false;
  trace_id = "";
  updated_time = some 1;
}

abbrev pub ask : RunQueryCommand
ask = record {
  session_id = "s1";
  prompt = "why?";
  client_message_id = "m1";
  image_paths = [];
  attachments = [];
}

abbrev asked : Message
asked = user_message 3 "m1" "r1" "why?" ask

abbrev pub context : QueryContext
context = record {
  session = record fresh { messages = asked ∷ []; status = running };
  command = ask;
  run_id = "r1";
  actual_prompt = "why?";
  message_id = "m1";
  cancelled_during_stream = false;
}

pub prepared : prepare_query plain 2 3 "r1" "u1" (some fresh) ask ≡ ok context
unfolding prepare_query compose_prompt attachment_refs start_query find_user_message_index
    add_message create
prepared = refl

abbrev reply : Message
reply = record {
  message_type = assistant;
  content = ("blocks", arr no_items) ∷ [];
  created_at = some 4;
}

abbrev answer : Message
answer = record { message_type = result; content = ("text", str "so") ∷ []; created_at = some 5 }

abbrev answered_session : Session
answered_session = record fresh { messages = with_uuid "sdk1" asked ∷ reply ∷ answer ∷ [] }

no_index : find_user_message_index [] "m1" ≡ none
unfolding find_user_message_index
no_index = refl

prepare_query-acknowledge_example :
    acknowledge_terminal_duplicate plain (some answered_session) ask ≡ ok true
prepare_query-acknowledge_example =
    prepare_query-acknowledge plain plain-IsLanguage 2 3 "r1" "u1" fresh answered_session ask
      {ctx = context} {front = with_uuid "sdk1" asked ∷ []} (reply ∷ []) answer [] refl no_index
      prepared (tagged asked "sdk1" done) refl refl refl

abbrev broken_session : Session
broken_session = record fresh { messages = with_uuid "sdk1" asked ∷ reply ∷ []; status = error }

prepare_query-resume_example :
    (acknowledge_terminal_duplicate plain (some broken_session) ask ≡ ok false)
    × ((again : QueryContext) × (prepare_query plain 6 7 "r2" "u2" (some broken_session) ask
          ≡ ok again)
        × (again.session.messages ≡ broken_session.messages))
prepare_query-resume_example =
    prepare_query-resume plain plain-IsLanguage 2 3 "r1" "u1" fresh broken_session ask 6 7 "r2" "u2"
      {ctx = context} {front = with_uuid "sdk1" asked ∷ []} (reply ∷ []) refl no_index prepared
      (tagged asked "sdk1" done) refl refl refl refl

abbrev picture : Dict Value
picture = ("path", str "a.png") ∷ ("mime_type", str "image/png") ∷ []

abbrev send_picture : RunQueryCommand
send_picture = record ask { prompt = ""; attachments = picture ∷ [] }

picture_refs : attachment_refs plain (picture ∷ []) [] "" ≡ ok ("[Image: a.png]" ∷ [])
unfolding attachment_refs attachment_reference starts_with truthy Dict.lookup in_set
picture_refs = refl

-- A picture that was steered into a run cannot be sent again.
steered_message-validate_duplicate_payload_example :
    validate_duplicate_payload plain
      (steered_message 4 "u1" "r1" "[Image: a.png]" send_picture)
      send_picture
    ≡ err id_conflict
unfolding join_texts
steered_message-validate_duplicate_payload_example =
    steered_message-validate_duplicate_payload plain 4 "u1" "r1" send_picture plain-IsLanguage
      picture_refs

abbrev replies : ℕ → RewindReply
replies n = record { sdk_session_ids = "sdk2" ∷ []; breaks = false }

abbrev nobody : String → Option String
nobody sdk = none

abbrev idle_session : Session
idle_session = record fresh { messages = reply ∷ asked ∷ answer ∷ [] }

abbrev taken_back : Session
taken_back = record fresh {
  messages = reply ∷ [];
  continue_conversation = true;
  sdk_session_id = "sdk2";
  updated_time = some 9;
}

abbrev back : Rewound
back = record { session = taken_back; prompt = str "why?"; sent = 1; files_to = none }

rewound :
    rewind_to_message_id plain.runtime nobody 9 true true replies (some idle_session) "m1" ≡ ok back
unfolding rewind_to_message_id rewind_to_message find_user_message_index rewind_to send_rewinds
    last_user_content accept_or_reject_sdk_session_id text_of create truthy is_fork
rewound = refl

rewind_to_message_id-IsSynced_example :
    IsSynced plain.runtime nobody 9 replies idle_session "m1" back
rewind_to_message_id-IsSynced_example =
    rewind_to_message_id-IsSynced plain.runtime nobody 9 replies idle_session "m1" rewound

cancel_loaded-last_user_example :
    (s' : Session) × (files : Option Value) × (cancel_loaded plain.runtime nobody 9 true "" false
        broken_session
      ≡ ok (text_of (with_uuid "sdk1" asked), s', files))
    × (s'.messages ≡ broken_session.messages)
unfolding create
cancel_loaded-last_user_example =
    cancel_loaded-last_user plain.runtime nobody 9 "" false broken_session [] (reply ∷ [])
      (with_uuid "sdk1" asked) refl refl refl
