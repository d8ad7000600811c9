-- ===== src/Binding/Examples.antt =====
-- Runs of the channels and of their registry, and the theorems on them.
use velpos.Prelude.{◌≡◌, refl, String, true, false, none, some, [], ◌∷◌, arith}
use velpos.Prelude.Result.{ok}
use velpos.Prelude.Dict.{Dict}
use velpos.Values.{Value, str, obj, of_dict, Runtime}
use velpos.Binding.Route.{ChannelRoute, to_dict, from_dict}
use velpos.Binding.Route.RoundTrip.{from_dict-to_dict}
use velpos.Binding.ImBinding.{ImChannelType, lark}
use velpos.Binding.ChannelInit.{
  ChannelInit, ChannelInitStatus, create, start_init, complete_init, is_ready,
}
use velpos.Binding.ChannelInit.Life.{
  InitHistory, created, call, start, complete, run_op, has_entries, ready_is_configured,
}
use velpos.Binding.Registry.{ImChannelRegistry, register, has, put, get}

abbrev some_config : Dict Value
some_config = ("app_id", str "a") ∷ []

abbrev new_channel : ChannelInit
new_channel = record {
  id = "c1";
  channel_type = lark;
  name = "lark";
  init_status = ChannelInitStatus.not_initialized;
  config = [];
  error_message = "";
  user_id = 1;
  created_at = 1;
  updated_at = 1;
}

abbrev started : ChannelInit
started = record new_channel { init_status = ChannelInitStatus.initializing; updated_at = 2 }

abbrev ready_channel : ChannelInit
ready_channel = record started {
  init_status = ChannelInitStatus.ready;
  config = some_config;
  updated_at = 3;
}

create_run : create "c1" 1 lark "" 1 ≡ new_channel
unfolding create
create_run = refl

its_history : InitHistory (create "c1" 1 lark "" 1) ready_channel
unfolding create run_op start_init complete_init
its_history = call 3 (complete some_config) (call 2 start created refl) refl

ready_is_configured_example : has_entries ready_channel.config ≡ true
unfolding is_ready
ready_is_configured_example = ready_is_configured "c1" 1 lark "" 1 its_history refl

-- a spec is its channel type here, and a factory a text
abbrev no_channels : ImChannelRegistry ImChannelType String
no_channels = record { specs = []; factories = [] }

abbrev one_channel : ImChannelRegistry ImChannelType String
one_channel = record { specs = (lark, lark) ∷ []; factories = (lark, "f") ∷ [] }

abbrev own_type : ImChannelType → ImChannelType
own_type t = t

register_run : register own_type lark "f" no_channels ≡ ok one_channel
unfolding register has get put
register_run = refl

abbrev texts : Runtime
texts = record {
  str_of = λ v. elim v [ str s ↦ s | other ↦ "?" ];
  float_truthy = λ t. false;
  dumps = λ v. "{}";
  loads = λ s. none;
}

abbrev reply_route : ChannelRoute
reply_route = record {
  sender_id = "ou_1";
  group_id = "";
  reply_to_message_id = "m1";
  extras = ("thread", "t1") ∷ [];
}

from_dict-to_dict_example : from_dict texts (obj (of_dict (to_dict reply_route))) ≡ some reply_route
from_dict-to_dict_example =
    from_dict-to_dict texts (λ s. refl) reply_route ((refl, refl, omega arith), tt)
