-- ===== src/Delivery/Attachments/Confined.antt =====
-- Where the resolved paths of outbound attachments lie.
use velpos.Prelude.{
  ◌≡◌, refl, ◌⊎◌, inl, inr, String, true, false, Option, none, some, List, [], ◌∷◌, ◌==◌, text_eq,
  if◌then◌else◌, arith, Bool-cases, subst,
}
use velpos.Prelude.Result.{ok, Result-cases}
use velpos.Prelude.Dict
use velpos.Prelude.Dict.{Dict}
use velpos.Values.{Value, str, Runtime}
use velpos.Delivery.Attachments.{
  Paths, is_within, project_root, raw_path, is_relative, place, resolve_one, resolve_each,
  resolve_outbound_attachments,
}

module _ (py : Runtime) (paths : Paths) where
  -- `item` is `a` with an absolute path or none, or it is `a` with its relative path rewritten to
  -- the text of one that lies in the project, all other entries kept.
  abbrev pub IsConfined : (root : Option (List String)) (a item : Dict Value) → Type 0
  IsConfined root a item =
      ((is_relative py paths (raw_path py paths a) ≡ false) × (item ≡ a))
      ⊎ ((r path : List String) × (is_relative py paths (raw_path py paths a) ≡ true)
          × (root ≡ some r)
          × (is_within r path ≡ true)
          × ((key : String)
              → Dict.lookup key item
                ≡ (if "path" == key then some (str (paths.text_of path)) else Dict.lookup key a)))

  -- One item for each attachment, in their order.
  pub data EachConfined (root : Option (List String))
      : List (Dict Value) → List (Dict Value) → Type 0 where
    no_more : EachConfined root [] []
    one_more :
        {a item : Dict Value} {attachments items : List (Dict Value)}
        → IsConfined root a item
        → EachConfined root attachments items
        → EachConfined root (a ∷ attachments) (item ∷ items)

  place-IsConfined :
      (root : Option (List String)) (a : Dict Value) {item : Dict Value}
      → is_relative py paths (raw_path py paths a) ≡ true
      → place py paths root a ≡ ok item
      → IsConfined root a item
  place-IsConfined none a relative h = absurd (ground arith)
  place-IsConfined (some r) a {item} relative h =
      let path = paths.join r (raw_path py paths a) in
      elim (Bool-cases (is_within r path)) [
        | inl e ↦
            let same : Dict.insert "path" (str (paths.text_of path)) a ≡ item = ground arith in
            inr (
              r,
              path,
              relative,
              refl,
              e,
              λ key. rw (← same) (Dict.lookup-insert "path" key (str (paths.text_of path)) a),
            )
        | inr e ↦ absurd (ground arith)
      ]

  one-IsConfined :
      (root : Option (List String)) (a : Dict Value) {item : Dict Value}
      → resolve_one py paths root a ≡ ok item
      → IsConfined root a item
  unfolding resolve_one
  one-IsConfined root a {item} h = elim (Bool-cases (is_relative py paths (raw_path py paths a))) [
    | inl e ↦ place-IsConfined root a e (rw (resolve_one, e) at h)
    | inr e ↦ let same : item ≡ a = ground arith in inl (e, same)
  ]

  each-IsConfined :
      (root : Option (List String)) (attachments : List (Dict Value)) {items : List (Dict Value)}
      → resolve_each py paths root attachments ≡ ok items
      → EachConfined root attachments items
  unfolding resolve_each
  each-IsConfined root [] {items} h =
      let same : [] ≡ items = ground arith in subst (EachConfined root []) same no_more
  each-IsConfined root (a ∷ rest) {items} h = elim (Result-cases (resolve_one py paths root a)) [
    | inl (x, e) ↦ absurd (ground arith)
    | inr (b, e) ↦ elim (Result-cases (resolve_each py paths root rest)) [
      | inl (x, f) ↦ absurd (ground arith)
      | inr (bs, f) ↦
          let same : b ∷ bs ≡ items = ground arith in
          subst (EachConfined root (a ∷ rest)) same
            (one_more (one-IsConfined root a e) (each-IsConfined root rest f))
    ]
  ]

  -- A resolution that raises nothing gives one item for each attachment, in their order. An
  -- attachment with an absolute path or none is unchanged. Any other one has its path rewritten to
  -- one that lies in the session's project, and all its other entries as they were.
  pub attachments-IsConfined :
      (project_dir : Option String) (attachments : List (Dict Value)) {items : List (Dict Value)}
      → resolve_outbound_attachments py paths project_dir attachments ≡ ok items
      → EachConfined (project_root py paths project_dir) attachments items
  unfolding resolve_outbound_attachments
  attachments-IsConfined project_dir attachments h =
      each-IsConfined (project_root py paths project_dir) attachments h
