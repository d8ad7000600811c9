-- ===== src/Binding/Route.antt =====
-- `ChannelRoute` of backend/domain/im_binding/model/channel_route.py: where a reply goes.
pub mod RoundTrip
use velpos.Prelude.{
  ℕ, String, Bool, true, false, Option, none, some, [], ◌∷◌, ◌++◌, ◌&&◌, ◌||◌, not, ◌==◌, text_eq,
  is_empty, or_text, take_chars, if◌then◌else◌,
}
use velpos.Prelude.Dict
use velpos.Prelude.Dict.{Dict}
use velpos.Values.{
  Value, null, bool, int, float, str, obj, Runtime, truthy, to_dict as entries, of_dict,
}

pub record ChannelRoute : Type 0 where
  pub sender_id : String
  pub group_id : String
  pub reply_to_message_id : String
  pub extras : Dict String

abbrev pub max_extra_value_length : ℕ
max_extra_value_length = 1024

-- The comprehension of `__post_init__`: entries with an empty key or a falsy value are dropped.
unfoldable pub normalize : Runtime → Dict Value → Dict String
unfolding truthy
normalize py [] = []
normalize py ((key, value) ∷ rest) =
    let kept = normalize py rest in
    if not (is_empty key) && truthy py value
    then (key, take_chars max_extra_value_length (py.str_of value)) ∷ kept
    else kept

-- The constructor, with `__post_init__`.
unfoldable pub route : Runtime → String → String → String → Dict Value → ChannelRoute
unfolding normalize
route py sender group reply_to extras = record {
  sender_id = sender;
  group_id = group;
  reply_to_message_id = reply_to;
  extras = normalize py extras;
}

unfoldable pub is_empty_route : ChannelRoute → Bool
is_empty_route r = not (
    not (is_empty r.sender_id)
    || not (is_empty r.group_id)
    || not (is_empty r.reply_to_message_id)
    || not (elim r.extras [ [] ↦ true | x ∷ l ↦ false ]))

-- A dictionary of texts, as one of values.
abbrev pub as_values : Dict String → Dict Value
as_values [] = []
as_values ((k, s) ∷ d) = (k, str s) ∷ as_values d

unfoldable pub merge : Runtime → ChannelRoute → Option ChannelRoute → ChannelRoute
unfolding route Dict.update
merge py self none = self
merge py self (some other) =
    route py (or_text other.sender_id self.sender_id) (or_text other.group_id self.group_id)
      (or_text other.reply_to_message_id self.reply_to_message_id)
      (as_values (Dict.update self.extras other.extras))

unfoldable pub with_reply_to : Runtime → ChannelRoute → String → ChannelRoute
unfolding route
with_reply_to py self message_id =
    route py self.sender_id self.group_id message_id (as_values self.extras)

-- `if text: payload[key] = text`
abbrev pub put_text : String → String → Dict Value → Dict Value
put_text key text payload = if is_empty text then payload else payload ++ (key, str text) ∷ []

abbrev pub put_extras : Dict String → Dict Value → Dict Value
put_extras [] payload = payload
put_extras (x ∷ l) payload = payload ++ ("extras", obj (of_dict (as_values (x ∷ l)))) ∷ []

-- Each key is new when it is set, so setting it appends it.
unfoldable pub to_dict : ChannelRoute → Dict Value
to_dict r = put_extras r.extras (
    put_text "reply_to_message_id" r.reply_to_message_id
      (put_text "group_id" r.group_id (put_text "sender_id" r.sender_id [])))

-- `d.get(key) or default`, where a missing key gives `None`
abbrev pub get_or : Runtime → String → Dict Value → Value → Value
get_or py key d default = elim (Dict.lookup key d) [
  | none ↦ default
  | some v ↦ if truthy py v then v else default
]

abbrev pub is_known : String → Bool
is_known key =
    key == "sender_id"
    || key == "group_id"
    || key == "reply_to_message_id"
    || key == "msg_id"
    || key == "extras"

-- `isinstance(value, (str, int, float))`; a bool is an int
abbrev pub is_scalar : Value → Bool
is_scalar (str s) = true
is_scalar (int n) = true
is_scalar (float t) = true
is_scalar (bool b) = true
is_scalar v = false

-- The loop over `payload.items()`.
unfoldable pub collect_extras : Runtime → Dict Value → Dict Value → Dict Value
unfolding Dict.insert
collect_extras py [] extras = extras
collect_extras py ((key, value) ∷ rest) extras = collect_extras py rest (
    if not (is_known key) && is_scalar value
    then Dict.insert key (str (py.str_of value)) extras
    else extras)

-- `dict(value or {})`: `none` where `dict` raises. (It accepts a list of pairs, which no writer of
-- this field makes, and which is taken to raise too.)
abbrev pub dict_of : Runtime → Value → Option (Dict Value)
dict_of py (obj fs) = some (entries fs)
dict_of py v = if truthy py v then none else some []

abbrev from_entries : Runtime → Dict Value → Option (Dict Value) → Option ChannelRoute
from_entries py payload none = none
from_entries py payload (some extras) = some (
    route py (py.str_of (get_or py "sender_id" payload (str "")))
      (py.str_of (get_or py "group_id" payload (str "")))
      (py.str_of (get_or py "reply_to_message_id" payload (get_or py "msg_id" payload (str ""))))
      (collect_extras py payload extras))

-- `none` where the payload is truthy and no dict, so that `.get` raises.
unfoldable pub from_dict : Runtime → Value → Option ChannelRoute
unfolding route collect_extras Dict.lookup truthy
from_dict py (obj fs) =
    let payload = entries fs in
    if truthy py (obj fs)
    then from_entries py payload (dict_of py (get_or py "extras" payload null))
    else some (route py "" "" "" [])
from_dict py v = if truthy py v then none else some (route py "" "" "" [])
