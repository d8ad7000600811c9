-- ===== src/Binding/ChannelInit.antt =====
-- `ChannelInitStatus` and `ChannelInit` of backend/domain/im_binding/model/channel_init.py.
-- `now` is what the method's call of `datetime.now()` returns.
pub mod Life
use velpos.Prelude.{ℕ, String, Bool, true, false, [], ◌∷◌, or_text}
use velpos.Prelude.Result.{Result, ok, err}
use velpos.Prelude.Dict
use velpos.Prelude.Dict.{Dict}
use velpos.Values.{Value}
use velpos.Binding.ImBinding.{ImChannelType, channel_text}

pub data ChannelInitStatus : Type 0 where
  not_initialized initializing ready error : ChannelInitStatus

pub record ChannelInit : Type 0 where
  pub id : String
  pub channel_type : ImChannelType
  pub name : String
  pub init_status : ChannelInitStatus
  pub config : Dict Value
  pub error_message : String
  pub user_id : ℕ
  pub created_at : ℕ
  pub updated_at : ℕ

-- The `ValueError`s, by what is wrong.
pub data InitError : Type 0 where
  cannot_start : ChannelInitStatus → InitError
  not_initializing empty_config : InitError

abbrev is_ready_status : ChannelInitStatus → Bool
is_ready_status ready = true
is_ready_status _ = false

unfoldable pub is_ready : ChannelInit → Bool
is_ready c = is_ready_status c.init_status

unfoldable pub create :
    (id : String) (now : ℕ) → ImChannelType → (name : String) (user_id : ℕ) → ChannelInit
create id now channel_type name user_id = record {
  id = id;
  channel_type = channel_type;
  name = or_text name (channel_text channel_type);
  init_status = not_initialized;
  config = [];
  error_message = "";
  user_id = user_id;
  created_at = now;
  updated_at = now;
}

unfoldable pub rename : (now : ℕ) → String → ChannelInit → ChannelInit
rename now name c = record c { name = name; updated_at = now }

abbrev started : (now : ℕ) → ChannelInit → ChannelInit
started now c = record c { init_status = initializing; error_message = ""; updated_at = now }

abbrev start_from : ChannelInitStatus → (now : ℕ) → ChannelInit → Result InitError ChannelInit
start_from not_initialized now c = ok (started now c)
start_from error now c = ok (started now c)
start_from status now c = err (cannot_start status)

unfoldable pub start_init : (now : ℕ) → ChannelInit → Result InitError ChannelInit
start_init now c = start_from c.init_status now c

abbrev with_config : (now : ℕ) → Dict Value → ChannelInit → Result InitError ChannelInit
with_config now [] c = err empty_config
with_config now (x ∷ config) c =
    ok (record c { config = x ∷ config; init_status = ready; error_message = ""; updated_at = now })

abbrev complete_from :
    ChannelInitStatus → (now : ℕ) → Dict Value → ChannelInit → Result InitError ChannelInit
complete_from initializing now config c = with_config now config c
complete_from status now config c = err not_initializing

unfoldable pub complete_init : (now : ℕ) → Dict Value → ChannelInit → Result InitError ChannelInit
complete_init now config c = complete_from c.init_status now config c

abbrev fail_from :
    ChannelInitStatus → (now : ℕ) → String → ChannelInit → Result InitError ChannelInit
fail_from initializing now message c =
    ok (record c { init_status = error; error_message = message; updated_at = now })
fail_from status now message c = err not_initializing

unfoldable pub fail_init : (now : ℕ) → String → ChannelInit → Result InitError ChannelInit
fail_init now message c = fail_from c.init_status now message c

abbrev expire_from : ChannelInitStatus → (now : ℕ) → String → ChannelInit → ChannelInit
expire_from error now message c = c
expire_from status now message c = record c {
  init_status = error;
  error_message = message;
  updated_at = now;
}

unfoldable pub mark_credentials_expired : (now : ℕ) → String → ChannelInit → ChannelInit
mark_credentials_expired now message c = expire_from c.init_status now message c

unfoldable pub reset : (now : ℕ) → ChannelInit → ChannelInit
reset now c = record c {
  init_status = not_initialized;
  config = [];
  error_message = "";
  updated_at = now;
}

unfoldable pub update_config : (now : ℕ) → Dict Value → ChannelInit → ChannelInit
unfolding Dict.update
update_config now updates c = record c { config = Dict.update c.config updates; updated_at = now }
