-- ===== src/Session/Messages.antt =====
-- `MessageType`, `Message` and `Usage` of backend/domain/session/model.
use velpos.Prelude.{ℕ, Bool, true, false, Option, none, some}
use velpos.Prelude.Dict
use velpos.Prelude.Dict.{Dict}
use velpos.Values.{Value, str, ℤ, pos}

pub data MessageType : Type 0 where
  system user assistant tool_result result : MessageType

abbrev pub is_user : MessageType → Bool
is_user user = true
is_user _ = false

pub record Message : Type 0 where
  pub message_type : MessageType
  pub content : Dict Value
  pub created_at : Option ℕ

-- Neither argument can be missing here: the types rule `None` out.
unfoldable pub create : (now : ℕ) → MessageType → Dict Value → Message
create now message_type content = record {
  message_type = message_type;
  content = content;
  created_at = some now;
}

-- `message.content.get("text", "")`
unfoldable pub text_of : Message → Value
unfolding Dict.lookup
text_of m = elim (Dict.lookup "text" m.content) [ none ↦ str "" | some v ↦ v ]

-- `__post_init__` rules negative counts out, so the fields are natural numbers.
pub record Usage : Type 0 where
  pub input_tokens : ℕ
  pub output_tokens : ℕ

abbrev pub zero_usage : Usage
zero_usage = record { input_tokens = 0; output_tokens = 0 }

-- The constructor: `none` where `__post_init__` raises.
unfoldable pub make_usage : (input_tokens output_tokens : ℤ) → Option Usage
make_usage (pos i) (pos o) = some (record { input_tokens = i; output_tokens = o })
make_usage _ _ = none
