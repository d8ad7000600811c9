-- ===== src/Binding/ImBinding.antt =====
-- `BindingStatus`, `ImChannelType` and `ImBinding` of backend/domain/im_binding/model.
-- The identifier is the eight characters that `uuid4` gave; a time is a count of microseconds.
use velpos.Prelude.{ℕ, String, Bool, true, false, [], is_empty, if◌then◌else◌}
use velpos.Prelude.Result.{Result, ok, err}
use velpos.Prelude.Dict
use velpos.Prelude.Dict.{Dict}
use velpos.Values.{Value}
use Prim.Native.String.{◌++◌}

pub data BindingStatus : Type 0 where
  unbound binding bound : BindingStatus

pub data ImChannelType : Type 0 where
  openim lark qq weixin : ImChannelType

abbrev pub channel_text : ImChannelType → String
channel_text openim = "openim"
channel_text lark = "lark"
channel_text qq = "qq"
channel_text weixin = "weixin"

abbrev pub same_type : ImChannelType → ImChannelType → Bool
same_type openim openim = true
same_type lark lark = true
same_type qq qq = true
same_type weixin weixin = true
same_type _ _ = false

pub record ImBinding : Type 0 where
  pub id : String
  pub session_id : String
  pub channel_type : ImChannelType
  pub channel_id : String
  pub channel_address : String
  pub config : Dict Value
  pub im_user_id : String
  pub im_token : String
  pub binding_status : BindingStatus
  pub friend_user_id : String
  pub qr_code_data : String
  pub created_at : ℕ

-- The `ValueError`s, by what is wrong.
pub data BindingError : Type 0 where
  empty_session_id already_started empty_token not_in_progress empty_friend not_bound : BindingError

abbrev im_user_of : ImChannelType → String → String
im_user_of openim session_id = "vp-session-" ++ session_id
im_user_of _ session_id = ""

unfoldable pub create :
    (binding_id : String) (now : ℕ) (session_id : String)
    → ImChannelType
    → (channel_id : String) → Result BindingError ImBinding
create binding_id now session_id channel_type channel_id =
    if is_empty session_id
    then err empty_session_id
    else ok (record {
      id = binding_id;
      session_id = session_id;
      channel_type = channel_type;
      channel_id = channel_id;
      channel_address = "";
      config = [];
      im_user_id = im_user_of channel_type session_id;
      im_token = "";
      binding_status = unbound;
      friend_user_id = "";
      qr_code_data = "";
      created_at = now;
    })

abbrev start_from : BindingStatus → String → String → ImBinding → Result BindingError ImBinding
start_from unbound im_token qr_code_data b =
    if is_empty im_token
    then err empty_token
    else ok
        (record b { im_token = im_token; qr_code_data = qr_code_data; binding_status = binding })
start_from status im_token qr_code_data b = err already_started

unfoldable pub start_binding :
    (im_token qr_code_data : String) → ImBinding → Result BindingError ImBinding
start_binding im_token qr_code_data b = start_from b.binding_status im_token qr_code_data b

abbrev complete_from : BindingStatus → String → ImBinding → Result BindingError ImBinding
complete_from binding friend_user_id b =
    if is_empty friend_user_id
    then err empty_friend
    else ok (record b { friend_user_id = friend_user_id; binding_status = bound })
complete_from status friend_user_id b = err not_in_progress

unfoldable pub complete_binding :
    (friend_user_id : String) → ImBinding → Result BindingError ImBinding
complete_binding friend_user_id b = complete_from b.binding_status friend_user_id b

abbrev unbind_from : BindingStatus → ImBinding → Result BindingError ImBinding
unbind_from unbound b = err not_bound
unbind_from status b = ok (record b {
  im_token = "";
  friend_user_id = "";
  qr_code_data = "";
  channel_address = "";
  config = [];
  binding_status = unbound;
})

unfoldable pub unbind : ImBinding → Result BindingError ImBinding
unbind b = unbind_from b.binding_status b

unfoldable pub set_channel_address : String → ImBinding → ImBinding
set_channel_address address b = record b { channel_address = address }

unfoldable pub update_config : Dict Value → ImBinding → ImBinding
unfolding Dict.update
update_config updates b = record b { config = Dict.update b.config updates }

-- `if channel_address`, `if config` (an empty or missing one is passed as empty)
unfoldable pub complete_channel_binding :
    (channel_address : String) (config : Dict Value) → ImBinding → ImBinding
unfolding Dict.update
complete_channel_binding channel_address config b = record b {
  channel_address = if is_empty channel_address then b.channel_address else channel_address;
  config = Dict.update b.config config;
  binding_status = bound;
}

unfoldable pub start_binding_process : ImBinding → ImBinding
start_binding_process b = record b { binding_status = binding }
