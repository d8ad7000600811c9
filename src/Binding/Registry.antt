-- ===== src/Binding/Registry.antt =====
-- `ImChannelRegistry` of backend/domain/im_binding/model/channel_registry.py. A spec is read for
-- its channel type alone, and a factory is never called here: both types are parameters.
pub mod Lookup
use velpos.Prelude.{Bool, true, false, Option, none, some, List, [], ◌∷◌, map, if◌then◌else◌}
use velpos.Prelude.Result.{Result, ok, err}
use velpos.Binding.ImBinding.{ImChannelType, same_type}

pub data RegistryError : Type 0 where
  already_registered unknown_type no_adapter : ImChannelType → RegistryError

-- A dictionary keyed by channel type, in insertion order.
abbrev pub Entries : Type 0 → Type 0
Entries V = List (ImChannelType × V)

module _ {V : Type 0} where
  unfoldable pub get : ImChannelType → Entries V → Option V
  get k [] = none
  get k ((j, v) ∷ d) = if same_type j k then some v else get k d

  -- `d[k] = v`
  unfoldable pub put : ImChannelType → V → Entries V → Entries V
  put k v [] = (k, v) ∷ []
  put k v ((j, w) ∷ d) = if same_type j k then (k, v) ∷ d else (j, w) ∷ put k v d

  -- `k in d`
  unfoldable pub has : ImChannelType → Entries V → Bool
  unfolding get
  has k d = elim (get k d) [ none ↦ false | some v ↦ true ]

pub record ImChannelRegistry (Spec Factory : Type 0) : Type 0 where
  pub specs : Entries Spec
  pub factories : Entries Factory

module _ {Spec Factory : Type 0} where
  abbrev pub empty : ImChannelRegistry Spec Factory
  empty = record { specs = []; factories = [] }

  unfoldable pub register :
      (channel_type : Spec → ImChannelType)
      → Spec
      → Factory
      → ImChannelRegistry Spec Factory
      → Result RegistryError (ImChannelRegistry Spec Factory)
  unfolding has put
  register channel_type spec factory r =
      let k = channel_type spec in
      if has k r.specs
      then err (already_registered k)
      else ok (record { specs = put k spec r.specs; factories = put k factory r.factories })

  unfoldable pub is_registered : ImChannelType → ImChannelRegistry Spec Factory → Bool
  unfolding has
  is_registered k r = has k r.specs

  unfoldable pub list_all : ImChannelRegistry Spec Factory → List Spec
  list_all r = map (λ e. e.1) r.specs

  unfoldable pub get_spec :
      ImChannelType → ImChannelRegistry Spec Factory → Result RegistryError Spec
  unfolding get
  get_spec k r = elim (get k r.specs) [ none ↦ err (unknown_type k) | some s ↦ ok s ]

  unfoldable pub get_adapter_factory :
      ImChannelType → ImChannelRegistry Spec Factory → Result RegistryError Factory
  unfolding get
  get_adapter_factory k r = elim (get k r.factories) [ none ↦ err (no_adapter k) | some f ↦ ok f ]

  unfoldable pub registered_types : ImChannelRegistry Spec Factory → List ImChannelType
  registered_types r = map (λ e. e.0) r.specs
