-- ===== src/Binding/Route/RoundTrip.antt =====
-- `to_dict` and `from_dict` of backend/domain/im_binding/model/channel_route.py.
use velpos.Prelude.{
  ℕ, zero, suc, ◌≤◌, String, false, Option, some, [], ◌∷◌, All, text_eq, ◌≡◌, refl, ap, is_empty,
  chars, take_chars, arith,
}
use velpos.Prelude.Dict
use velpos.Prelude.Dict.{Dict}
use velpos.Values.{Value, str, obj, Runtime, truthy, to_dict as entries, of_dict}
use velpos.Binding.Route.{
  ChannelRoute, max_extra_value_length, normalize, route, as_values, to_dict, from_dict,
  collect_extras,
}

-- An entry that the constructor keeps as it is.
abbrev pub IsEntry : String × String → Type 0
IsEntry (key, value) =
    (is_empty key ≡ false) × (is_empty value ≡ false) × (chars value ≤ max_extra_value_length)

abbrev pub IsNormal : ChannelRoute → Type 0
IsNormal r = All IsEntry r.extras

take_chars-all : (n : ℕ) (s : String) → chars s ≤ n → take_chars n s ≡ s
take_chars-all zero String.[] h = refl
take_chars-all zero (String.◌∷◌ c s) h = absurd (omega (arith, h))
take_chars-all (suc n) String.[] h = refl
take_chars-all (suc n) (String.◌∷◌ c s) h =
    ap (λ (t : String). String.◌∷◌ c t) (take_chars-all n s (omega (arith, h)))

entries-of_dict : (d : Dict Value) → entries (of_dict d) ≡ d
entries-of_dict [] = refl
entries-of_dict ((k, v) ∷ d) = ap (λ (l : Dict Value). (k, v) ∷ l) (entries-of_dict d)

-- The parameter is documented behaviour of `str`.
module _ (py : Runtime) (str_of_str : (s : String) → py.str_of (str s) ≡ s) where
  normalize-as_values :
      (extras : Dict String) → All IsEntry extras → normalize py (as_values extras) ≡ extras
  unfolding normalize truthy
  normalize-as_values [] h = refl
  normalize-as_values ((key, value) ∷ rest) ((k, v, c), h) =
      rw
        (
          k,
          v,
          str_of_str value,
          take_chars-all max_extra_value_length value c,
          normalize-as_values rest h,
        )
        refl

  abbrev made : (sender group reply_to : String) → Dict String → ChannelRoute
  made sender group reply_to extras = record {
    sender_id = sender;
    group_id = group;
    reply_to_message_id = reply_to;
    extras = extras;
  }

  built :
      (s g m : String) (extras : Dict String)
      → All IsEntry extras
      → ◌≡◌ {A = Option ChannelRoute}
          (some (
            route py
              (py.str_of (str s))
              (py.str_of (str g))
              (py.str_of (str m))
              (as_values extras)))
          (some (made s g m extras))
  unfolding route
  built s g m extras h =
      rw (str_of_str s, str_of_str g, str_of_str m, normalize-as_values extras h) refl

  bare :
      (s g m : String)
      → from_dict py (obj (of_dict (to_dict (made s g m [])))) ≡ some (made s g m [])
  unfolding from_dict to_dict route collect_extras Dict.lookup truthy
  bare String.[] String.[] String.[] = refl
  bare String.[] String.[] (String.◌∷◌ c m) = built "" "" (String.◌∷◌ c m) [] tt
  bare String.[] (String.◌∷◌ b g) String.[] = built "" (String.◌∷◌ b g) "" [] tt
  bare String.[] (String.◌∷◌ b g) (String.◌∷◌ c m) =
      built "" (String.◌∷◌ b g) (String.◌∷◌ c m) [] tt
  bare (String.◌∷◌ a s) String.[] String.[] = built (String.◌∷◌ a s) "" "" [] tt
  bare (String.◌∷◌ a s) String.[] (String.◌∷◌ c m) =
      built (String.◌∷◌ a s) "" (String.◌∷◌ c m) [] tt
  bare (String.◌∷◌ a s) (String.◌∷◌ b g) String.[] =
      built (String.◌∷◌ a s) (String.◌∷◌ b g) "" [] tt
  bare (String.◌∷◌ a s) (String.◌∷◌ b g) (String.◌∷◌ c m) =
      built (String.◌∷◌ a s) (String.◌∷◌ b g) (String.◌∷◌ c m) [] tt

  with_extras :
      (s g m : String) (e : String × String) (es : Dict String)
      → All IsEntry (e ∷ es)
      → from_dict py (obj (of_dict (to_dict (made s g m (e ∷ es))))) ≡ some (made s g m (e ∷ es))
  unfolding from_dict to_dict route collect_extras Dict.lookup truthy
  with_extras String.[] String.[] String.[] e es h =
      rw (entries-of_dict (as_values es)) (built "" "" "" (e ∷ es) h)
  with_extras String.[] String.[] (String.◌∷◌ c m) e es h =
      rw (entries-of_dict (as_values es)) (built "" "" (String.◌∷◌ c m) (e ∷ es) h)
  with_extras String.[] (String.◌∷◌ b g) String.[] e es h =
      rw (entries-of_dict (as_values es)) (built "" (String.◌∷◌ b g) "" (e ∷ es) h)
  with_extras String.[] (String.◌∷◌ b g) (String.◌∷◌ c m) e es h =
      rw (entries-of_dict (as_values es)) (built "" (String.◌∷◌ b g) (String.◌∷◌ c m) (e ∷ es) h)
  with_extras (String.◌∷◌ a s) String.[] String.[] e es h =
      rw (entries-of_dict (as_values es)) (built (String.◌∷◌ a s) "" "" (e ∷ es) h)
  with_extras (String.◌∷◌ a s) String.[] (String.◌∷◌ c m) e es h =
      rw (entries-of_dict (as_values es)) (built (String.◌∷◌ a s) "" (String.◌∷◌ c m) (e ∷ es) h)
  with_extras (String.◌∷◌ a s) (String.◌∷◌ b g) String.[] e es h =
      rw (entries-of_dict (as_values es)) (built (String.◌∷◌ a s) (String.◌∷◌ b g) "" (e ∷ es) h)
  with_extras (String.◌∷◌ a s) (String.◌∷◌ b g) (String.◌∷◌ c m) e es h =
      rw (entries-of_dict (as_values es))
        (built (String.◌∷◌ a s) (String.◌∷◌ b g) (String.◌∷◌ c m) (e ∷ es) h)

  any_extras :
      (s g m : String) (extras : Dict String)
      → All IsEntry extras
      → from_dict py (obj (of_dict (to_dict (made s g m extras)))) ≡ some (made s g m extras)
  any_extras s g m [] h = bare s g m
  any_extras s g m (e ∷ es) h = with_extras s g m e es h

  -- Where `str` of a text is the text, a route whose extras the constructor keeps (keys and values that are not empty, values of at most
  -- 1024 characters) is read back from its dictionary as it was written.
  pub from_dict-to_dict :
      (r : ChannelRoute) → IsNormal r → from_dict py (obj (of_dict (to_dict r))) ≡ some r
  from_dict-to_dict r h = any_extras r.sender_id r.group_id r.reply_to_message_id r.extras h
