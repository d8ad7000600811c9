-- ===== src/Session/Examples.antt =====
-- The session's theorems at a concrete conversation.
use velpos.Prelude.{◌≡◌, refl, true, false, none, some, [], ◌∷◌}
use velpos.Prelude.Result.{ok}
use velpos.Values.{str, pos}
use velpos.Session.Messages.{Message, user, assistant, Usage, text_of}
use velpos.Session.{Session, idle, running, create, rewind_to}
use velpos.Session.Diagram.{SessionOp, run, ◌⟶◌, run-IsEdge}

abbrev ask : Message
ask = record { message_type = user; content = ("text", str "why?") ∷ []; created_at = some 3 }

abbrev reply : Message
reply = record { message_type = assistant; content = []; created_at = some 4 }

abbrev fresh : Session
fresh = record {
  session_id = "s1";
  model = "default";
  status = idle;
  messages = [];
  usage = record { input_tokens = 0; output_tokens = 0 };
  continue_conversation = false;
  project_id = "p1";
  project_dir = "";
  name = "";
  sdk_session_id = "";
  last_input_tokens = pos 0;
  pending_request_context = none;
  queued_command = none;
  cancel_requested = false;
  trace_id = "";
  updated_time = some 1;
}

fresh_lem : create "s1" 1 "" "p1" "" "" ≡ fresh
unfolding create
fresh_lem = refl

abbrev talk : Session
talk = record fresh { messages = reply ∷ ask ∷ reply ∷ []; status = running }

abbrev quiet : Session
quiet = record talk { status = idle }

abbrev rewound : Session
rewound = record quiet {
  messages = reply ∷ [];
  continue_conversation = true;
  updated_time = some 9;
}

rewound_lem : rewind_to 9 (pos 1) quiet ≡ ok (str "why?", rewound)
unfolding rewind_to text_of
rewound_lem = refl

started : run 9 SessionOp.start fresh ≡ ok (record fresh { status = running })
unfolding run
started = refl

run-IsEdge_example : idle ⟶ running
run-IsEdge_example = run-IsEdge 9 SessionOp.start fresh started

abbrev small : Usage
small = record { input_tokens = 3; output_tokens = 1 }
