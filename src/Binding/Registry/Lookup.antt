-- ===== src/Binding/Registry/Lookup.antt =====
-- `register` of the channel registry (channel_registry.py) against its lookups.
use velpos.Prelude.{
  ◌≡◌, refl, ◌∙◌, inl, inr, true, false, some, [], ◌∷◌, arith, Bool-cases, if◌then◌else◌,
}
use velpos.Prelude.Result.{ok, err}
use velpos.Binding.ImBinding.{ImChannelType, openim, lark, qq, weixin, same_type}
use velpos.Binding.Registry.{
  already_registered, Entries, get, put, has, ImChannelRegistry, register, get_spec,
  get_adapter_factory,
}

same_type_refl : (a : ImChannelType) → same_type a a ≡ true
same_type_refl openim = refl
same_type_refl lark = refl
same_type_refl qq = refl
same_type_refl weixin = refl

same_type-eq : (a b : ImChannelType) → same_type a b ≡ true → a ≡ b
same_type-eq openim openim h = refl
same_type-eq lark lark h = refl
same_type-eq qq qq h = refl
same_type-eq weixin weixin h = refl
same_type-eq _ _ h = absurd (ground arith)

same_type-differs :
    (i j k : ImChannelType) → same_type i j ≡ true → same_type i k ≡ false → same_type k j ≡ false
same_type-differs i j k f e = elim (Bool-cases (same_type k j)) [
  | inl g ↦
      let bad : same_type i k ≡ true =
        rw (same_type-eq i j f, same_type-eq k j g) (same_type_refl j) in
      absurd (ground arith)
  | inr g ↦ g
]

get-put :
    {V : Type 0} (j k : ImChannelType) (v : V) (d : Entries V)
    → get j (put k v d) ≡ (if same_type k j then some v else get j d)
unfolding get put
get-put j k v [] = refl
get-put j k v ((i, w) ∷ d) = elim (Bool-cases (same_type i k)) [
  | inl e ↦ rw (same_type-eq i k e) (rw (same_type_refl k) (ground arith))
  | inr e ↦ elim (Bool-cases (same_type i j)) [
    | inl f ↦ rw (e, f, same_type-differs i j k f e)
    | inr f ↦ rw (e, f) (get-put j k v d)
  ]
]

get-put_same : {V : Type 0} (k : ImChannelType) (v : V) (d : Entries V) → get k (put k v d) ≡ some v
get-put_same k v d = get-put k k v d ∙ rw (same_type_refl k)

get-put_other :
    {V : Type 0} (j k : ImChannelType) (v : V) (d : Entries V)
    → same_type k j ≡ false
    → get j (put k v d) ≡ get j d
get-put_other j k v d h = get-put j k v d ∙ rw h

module _ {Spec Factory : Type 0} (channel_type : Spec → ImChannelType) where
  -- An accepted registration adds its channel type and nothing else: the type's lookups give the
  -- registered spec and factory, those of every other type are as before, and a second registration
  -- of the type is refused.
  pub register_lookup :
      (spec : Spec) (factory : Factory) (r : ImChannelRegistry Spec Factory)
      {r' : ImChannelRegistry Spec Factory} (again : Spec) (other : Factory) (j : ImChannelType)
      → register channel_type spec factory r ≡ ok r'
      → channel_type again ≡ channel_type spec
      → same_type (channel_type spec) j ≡ false
      → (get_spec (channel_type spec) r' ≡ ok spec)
        × (get_adapter_factory (channel_type spec) r' ≡ ok factory)
        × (get_spec j r' ≡ get_spec j r)
        × (get_adapter_factory j r' ≡ get_adapter_factory j r)
        × (register channel_type again other r' ≡ err (already_registered (channel_type spec)))
  unfolding register get_spec get_adapter_factory has
  register_lookup spec factory r {r'} again other j h same differs =
      let k = channel_type spec in
      let made : ImChannelRegistry Spec Factory = record {
        specs = put k spec r.specs;
        factories = put k factory r.factories;
      } in
      elim (Bool-cases (has k r.specs)) [
        | inl e ↦ absurd (ground arith)
        | inr e ↦
            let d : made ≡ r' = ground arith in
            let spec_here = get-put_same k spec r.specs in
            let factory_here = get-put_same k factory r.factories in
            let spec_else = get-put_other j k spec r.specs differs in
            let factory_else = get-put_other j k factory r.factories differs in
            rw (← d)
              (ground arith, ground arith, ground arith, ground arith, rw same (ground arith))
      ]
