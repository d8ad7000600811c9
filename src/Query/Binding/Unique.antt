-- ===== src/Query/Binding/Unique.antt =====
-- No two sessions share a conversation: `try_bind` of
-- backend/domain/session/service/sdk_session_binding_service.py, over the stored sessions.
use velpos.Prelude.{
  String, Bool, ◌||◌, subst, true, false, Option, none, some, List, [], ◌∷◌, map, Memᴰ, find,
  find-mem, mem-map_inv, mem-cons_cases, ◌≡◌, ◌⊎◌, refl, ap, sym, ◌∙◌, ◌==◌, text_eq, text_eq_iff,
  is_empty, arith, Bool-cases, Option-cases, inl, inr, if◌then◌else◌,
}
use velpos.Session.{Session}
use velpos.Session.Operations.{update_sdk_session_id}
use velpos.Query.Binding.{is_fork, try_bind}

abbrev id_of : Option Session → Option String
id_of none = none
id_of (some r) = some r.session_id

abbrev has_sdk : String → Session → Bool
has_sdk sdk r = r.sdk_session_id == sdk

-- `find_by_sdk_session_id` of backend/infr/repository/session_repository_impl.py, for an identifier
-- that is not empty
abbrev pub owner_in : List Session → String → Option String
owner_in rows sdk = id_of (find (has_sdk sdk) rows)

-- The save of a session, over its row.
abbrev stored : Session → Session → Session
stored s r = if r.session_id == s.session_id then s else r

abbrev pub store : Session → List Session → List Session
store s = map (stored s)

-- The conversation is a session's own: not none, and no fork, which sessions may share.
abbrev pub IsExclusive : String → Type 0
IsExclusive sdk = (is_empty sdk ≡ false) × (is_fork sdk ≡ false)

-- No other stored session has the session's conversation.
abbrev pub IsOwner : Session → List Session → Type 0
IsOwner s rows =
    (r : Session)
    → Memᴰ r rows
    → r.sdk_session_id ≡ s.sdk_session_id
    → IsExclusive s.sdk_session_id
    → r.session_id ≡ s.session_id

abbrev pub IsUnique : List Session → Type 0
IsUnique rows = (s : Session) → Memᴰ s rows → IsOwner s rows

find-missing :
    {r : Session} (rows : List Session) (sdk : String)
    → find (has_sdk sdk) rows ≡ none
    → Memᴰ r rows
    → r.sdk_session_id ≡ sdk
    → ⊥
find-missing {r} [] sdk h m e = elim m [ ]
find-missing {r} (x ∷ xs) sdk h m e = elim (Bool-cases (has_sdk sdk x)) [
  | inl k ↦ absurd (ground (arith, k, h))
  | inr k ↦ elim (mem-cons_cases m) [
    | inl d ↦
        let q : x.sdk_session_id ≡ sdk = rw (← d) e in
        absurd (ground (arith, k, (text_eq_iff x.sdk_session_id sdk).1 q))
    | inr n ↦ find-missing xs sdk (rw k at h) n e
  ]
]

module _ (rows : List Session) (unique : IsUnique rows) where
  -- Who has the conversation that the lookup found nowhere, or with the session itself.
  bound-IsOwner :
      (s : Session) (new : String)
      → (owner_in rows new ≡ none) ⊎ (owner_in rows new ≡ some s.session_id)
      → IsOwner (update_sdk_session_id new s) rows
  unfolding update_sdk_session_id
  bound-IsOwner s new h r m e x = elim (Option-cases (find (has_sdk new) rows)) [
    | inl n ↦ absurd (find-missing rows new n m e)
    | inr (o, n) ↦
        let (om, ot) = find-mem (has_sdk new) rows n in
        let q : o.sdk_session_id ≡ new = (text_eq_iff o.sdk_session_id new).0 ot in
        let same : o.session_id ≡ s.session_id = ground (arith, n, h) in
        unique o om r m (e ∙ sym q) (rw q x) ∙ same
  ]

  unbound-IsOwner : (s : Session) → IsOwner (update_sdk_session_id "" s) rows
  unfolding update_sdk_session_id
  unbound-IsOwner s r m e (x, f) = absurd (ground (arith, x))

  fork-IsOwner :
      (s : Session) (new : String) → is_fork new ≡ true → IsOwner (update_sdk_session_id new s) rows
  unfolding update_sdk_session_id
  fork-IsOwner s new k r m e (x, f) = absurd (ground (arith, k, f))

  try_bind-IsOwner :
      (s : Session) (new : String)
      → IsOwner s rows
      → IsOwner (try_bind (owner_in rows) new s).1 rows
  unfolding try_bind
  try_bind-IsOwner s new own = elim (Bool-cases (is_empty new || new == s.sdk_session_id)) [
    | inl a ↦ rw a own
    | inr a ↦ elim (Bool-cases (is_fork new)) [
      | inl k ↦ rw (a, k) (fork-IsOwner s new k)
      | inr k ↦ elim (Option-cases (owner_in rows new)) [
        | inl n ↦ rw (a, k, n) (bound-IsOwner s new (inl n))
        | inr (o, n) ↦ elim (Bool-cases (o == s.session_id)) [
          | inl d ↦
              rw (a, k, n, d)
                (bound-IsOwner s new
                  (inr (n ∙ ap (λ (t : String). some t) ((text_eq_iff o s.session_id).0 d))))
          | inr d ↦ rw (a, k, n, d) (unbound-IsOwner s)
        ]
      ]
    ]
  ]

  stored-cases : (s r : Session) → (stored s r ≡ s) ⊎ (stored s r ≡ r)
  stored-cases s r = elim (Bool-cases (r.session_id == s.session_id)) [
    | inl e ↦ inl (rw e refl)
    | inr e ↦ inr (rw e refl)
  ]

  stored_mem : (s a : Session) → Memᴰ a (store s rows) → (a ≡ s) ⊎ Memᴰ a rows
  stored_mem s a m =
      let (r, rm, d) = mem-map_inv (stored s) rows m in
      elim (stored-cases s r) [ inl e ↦ inl (d ∙ e) | inr e ↦ inr (rw (d ∙ e) rm) ]

  store-IsUnique : (s : Session) → IsOwner s rows → IsUnique (store s rows)
  store-IsUnique s own a am b bm e x = elim (stored_mem s a am) [
    | inl p ↦ elim (stored_mem s b bm) [
      | inl q ↦ ap (λ (t : Session). t.session_id) (q ∙ sym p)
      | inr q ↦ own b q (e ∙ sdk p) (subst IsExclusive (sdk p) x) ∙ sym (id p)
    ]
    | inr p ↦ elim (stored_mem s b bm) [
      | inl q ↦ id q ∙ sym (own a p (sym e ∙ sdk q) (subst IsExclusive (sym e ∙ sdk q) x))
      | inr q ↦ unique a p b q e x
    ]
  ]
    where
      id : {r t : Session} → r ≡ t → r.session_id ≡ t.session_id
      id p = ap (λ (t : Session). t.session_id) p

      sdk : {r t : Session} → r ≡ t → r.sdk_session_id ≡ t.sdk_session_id
      sdk p = ap (λ (t : Session). t.sdk_session_id) p

  -- If no two stored sessions share a conversation that is no fork, nor has one of them that of the
  -- session at hand, this is also so after the session was offered a conversation and then saved,
  -- whatever the offer.
  pub try_bind-IsUnique :
      (s : Session) (new : String)
      → IsOwner s rows
      → IsUnique (store (try_bind (owner_in rows) new s).1 rows)
  try_bind-IsUnique s new own = store-IsUnique _ (try_bind-IsOwner s new own)
