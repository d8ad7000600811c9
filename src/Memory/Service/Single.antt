-- ===== src/Memory/Service/Single.antt =====
-- The loop of `apply` over the other versions of a project
-- (claude_md_revision_application_service.py).
use velpos.Prelude.{
  ◌≡◌, refl, sym, ap, ◌∙◌, ◌⊎◌, inl, inr, String, Bool, true, false, List, [], ◌∷◌, ◌&&◌, ◌||◌, not,
  arith, Memᴰ, text_eq, text_eq_iff, any, filter, Bool-cases, mem-cons_cases, mem-filter_right,
  mem-map_inv, mem-append_one, any-false-mem,
}
use velpos.Prelude.Result.{ok}
use velpos.Memory.Revision
use velpos.Memory.Revision.{ClaudeMdRevision, ClaudeMdRevisionState, transition_to, allowed}
use velpos.Memory.Service.{Workspace, is_applied, in_project, save, replace, has_id, commit, lift}
use velpos.Memory.Service.Apply.{supersede_others}

-- An applied revision of the project other than the new one.
abbrev pub is_rival : (project_id revision_id : String) → ClaudeMdRevision → Bool
is_rival project_id revision_id r =
    in_project project_id r && is_applied r && not (has_id revision_id r)

-- What `save` leaves: the saved revision, or an old one with another identifier.
mem-save :
    (e : ClaudeMdRevision) (rows : List ClaudeMdRevision) {x : ClaudeMdRevision}
    → Memᴰ x (save e rows)
    → (x ≡ e) ⊎ (Memᴰ x rows × (has_id e.id x ≡ false))
unfolding save
mem-save e rows {x} m = elim (Bool-cases (any (has_id e.id) rows)) [
  | inl a ↦
      let (y, n, d) = mem-map_inv (replace e) rows (rw a at m) in
      elim (Bool-cases (has_id e.id y)) [
        | inl b ↦ inl (d ∙ rw b refl)
        | inr b ↦ let same : x ≡ y = d ∙ rw b refl in inr (rw same (n, b))
      ]
  | inr a ↦ elim (mem-append_one rows e (rw a at m)) [
    | inl n ↦ inr (n, any-false-mem (has_id e.id) rows a n)
    | inr d ↦ inl d
  ]
]

-- Every rival of the store is still to come in the loop.
abbrev AreAhead : (p i : String) → List ClaudeMdRevision → List ClaudeMdRevision → Type 0
AreAhead p i ahead rows =
    (x : ClaudeMdRevision)
    → Memᴰ x rows
    → is_rival p i x ≡ true
    → (y : ClaudeMdRevision) × Memᴰ y ahead × (y.id ≡ x.id) × (is_rival p i y ≡ true)

-- One that the loop passes over is no rival.
ahead-skip :
    (p i : String) (e : ClaudeMdRevision) (ahead rows : List ClaudeMdRevision)
    → (has_id i e || not (is_applied e)) ≡ true
    → AreAhead p i (e ∷ ahead) rows
    → AreAhead p i ahead rows
ahead-skip p i e ahead rows pass h x m rival =
    let (y, n, same, bad) = h x m rival in
    elim (mem-cons_cases n) [
      | inl d ↦ let worse : is_rival p i e ≡ true = rw (← d) bad in absurd (ground arith)
      | inr k ↦ (y, k, same, bad)
    ]

ahead-save :
    (p i : String) (e old : ClaudeMdRevision) (ahead rows : List ClaudeMdRevision)
    → old.id ≡ e.id
    → is_applied old ≡ false
    → AreAhead p i (e ∷ ahead) rows
    → AreAhead p i ahead (save old rows)
ahead-save p i e old ahead rows same idle h x m rival = elim (mem-save old rows m) [
  | inl d ↦ let bad : is_rival p i old ≡ true = rw (← d) rival in absurd (ground arith)
  | inr (n, other) ↦
      let (y, k, keys, bad) = h x n rival in
      elim (mem-cons_cases k) [
        | inl d ↦
            let key : x.id ≡ old.id = sym keys ∙ ap (λ (r : ClaudeMdRevision). r.id) d ∙ sym same in
            let hit : has_id old.id x ≡ true = (text_eq_iff x.id old.id).1 key in
            absurd (ground arith)
        | inr q ↦ (y, q, keys, bad)
      ]
]

-- What the loop leaves of the workspace.
pub record IsSuperseded (p i : String) (w w' : Workspace) : Type 0 where
  pub single : (x : ClaudeMdRevision) → Memᴰ x w'.revisions → is_rival p i x ≡ false
  pub file : w'.file ≡ w.file
  pub active : w'.active_id ≡ w.active_id
  pub digest : w'.file_hash ≡ w.file_hash

pub superseded-fields :
    (e : ClaudeMdRevision)
    → is_applied e ≡ true
    → (old : ClaudeMdRevision) × (lift (Revision.supersede e) ≡ ok old)
      × (old.id ≡ e.id)
      × (is_applied old ≡ false)
unfolding Revision.supersede
superseded-fields e h =
    (record e { state = ClaudeMdRevisionState.superseded }, ground arith, refl, refl)

pub supersede_others-single :
    (p i : String) (ahead : List ClaudeMdRevision) (w : Workspace) {w' : Workspace}
    → AreAhead p i ahead w.revisions
    → supersede_others i ahead w ≡ ok w'
    → IsSuperseded p i w w'
unfolding supersede_others
supersede_others-single p i [] w {w'} h q =
    let same : w ≡ w' = ground arith in
    rw (← same) (record {
      single = λ x m. elim (Bool-cases (is_rival p i x)) [
        | inl r ↦ let (y, n, _, _) = h x m r in elim n [ ]
        | inr r ↦ r
      ];
      file = refl;
      active = refl;
      digest = refl;
    })
supersede_others-single p i (e ∷ ahead) w {w'} h q =
    elim (Bool-cases (has_id i e || not (is_applied e))) [
      | inl pass ↦
          supersede_others-single p i ahead w (ahead-skip p i e ahead w.revisions pass h)
            (rw pass at q)
      | inr act ↦
          let (old, moved, same, idle) = superseded-fields e (ground arith) in
          let after = (commit e.state old w).1 in
          let rest =
            supersede_others-single p i ahead after
              (ahead-save p i e old ahead w.revisions same idle h) (rw (act, moved) at q) in
          record {
            single = rest.single;
            file = rest.file;
            active = rest.active;
            digest = rest.digest;
          }
    ]

-- Before the loop every rival of the store is ahead of it.
pub ahead-start :
    (p i : String) (rows : List ClaudeMdRevision)
    → (x : ClaudeMdRevision) → Memᴰ x rows
    → is_rival p i x ≡ true
    → (y : ClaudeMdRevision) × Memᴰ y (filter (in_project p) rows)
      × (y.id ≡ x.id)
      × (is_rival p i y ≡ true)
ahead-start p i rows x m rival =
    (x, mem-filter_right (in_project p) rows m (ground arith), refl, rival)

-- The loop never raises.
pub supersede_others-ok :
    (i : String) (ahead : List ClaudeMdRevision) (w : Workspace)
    → (w' : Workspace) × (supersede_others i ahead w ≡ ok w')
unfolding supersede_others
supersede_others-ok i [] w = (w, refl)
supersede_others-ok i (e ∷ ahead) w = elim (Bool-cases (has_id i e || not (is_applied e))) [
  | inl pass ↦ let (w', q) = supersede_others-ok i ahead w in (w', rw pass q)
  | inr act ↦
      let (old, moved, _, _) = superseded-fields e (ground arith) in
      let (w', q) = supersede_others-ok i ahead (commit e.state old w).1 in (w', rw (act, moved) q)
]
