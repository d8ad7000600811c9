-- ===== src/Memory/Service/Outcome.antt =====
-- The ways in which `apply` of the service ends (claude_md_revision_application_service.py).
use velpos.Prelude.{
  ℕ, ◌≡◌, ◌≢◌, refl, ◌∙◌, subst, ◌⊎◌, inl, inr, String, true, false, some, arith, Memᴰ, ◌==◌,
  text_eq, text_eq_iff, filter, Bool-cases, Option-cases, find-mem,
}
use velpos.Prelude.Result.{Result, ok, err, Result-cases}
use velpos.Memory.Revision
use velpos.Memory.Revision.{ClaudeMdRevision, ClaudeMdRevisionState}
use velpos.Memory.Service.{
  Workspace, ServiceError, invalid, in_project, find_by_id, has_id, lift, read_file, store,
  record_event,
}
use velpos.Memory.Service.Apply.{
  ClaudeMdApplyResult, supersede_others, apply, check_apply, apply_to_file, conflict_with,
  is_applicable,
}
use velpos.Memory.Service.Single.{
  is_rival, supersede_others-single, supersede_others-ok, ahead-start,
}

not_equal : (a b : String) → (a == b) ≡ false → a ≢ b
not_equal a b h e = let k = (text_eq_iff a b).1 e in absurd (ground arith)

module _ (hash : String → String) (now : ℕ) (revision_id base expected : String) where
  -- An accepted application passed the guards, and took one of the two branches.
  checked-cases :
      (r : ClaudeMdRevision) (w : Workspace) {res : ClaudeMdApplyResult × Workspace}
      → check_apply hash now base expected r w ≡ ok res
      → (is_applicable r.state ≡ true)
        × ((((hash (read_file w) == expected) ≡ true) × (apply_to_file hash now r w ≡ ok res))
            ⊎ (((hash (read_file w) == expected) ≡ false)
                × (conflict_with (hash (read_file w)) r w ≡ ok res)))
  checked-cases r w h = elim (Bool-cases (is_applicable r.state)) [
    | inr a ↦ absurd (ground arith)
    | inl a ↦ elim (Bool-cases (r.base_revision_id == base)) [
      | inr b ↦ absurd (ground arith)
      | inl b ↦ elim (Bool-cases (r.project_id == w.project_id)) [
        | inr c ↦ absurd (ground arith)
        | inl c ↦ elim (Bool-cases (hash (read_file w) == expected)) [
          | inl d ↦ (a, inl (d, rw (a, b, c, d) at h))
          | inr d ↦ (a, inr (d, rw (a, b, c, d) at h))
        ]
      ]
    ]
  ]

  abbrev pub as_applied : ClaudeMdRevision → ClaudeMdRevision
  as_applied r = record r { state = ClaudeMdRevisionState.applied; applied_time = some now }

  applicable-apply :
      (r : ClaudeMdRevision)
      → is_applicable r.state ≡ true
      → lift (Revision.apply now r) ≡ ok (as_applied r)
  unfolding Revision.apply
  applicable-apply r h = ground arith

  abbrev saved_with : ClaudeMdRevision → Workspace → Workspace
  saved_with r w =
      store (as_applied r)
        (record w { file = some r.content; active_id = r.id; file_hash = hash r.content })

  abbrev others_of : ClaudeMdRevision → Workspace → Result ServiceError Workspace
  others_of r w =
      let saved = saved_with r w in
      supersede_others r.id (filter (in_project w.project_id) saved.revisions) saved

  -- The branch that writes the file.
  written-cases :
      (r : ClaudeMdRevision) (w : Workspace) {res : ClaudeMdApplyResult} {w' : Workspace}
      → is_applicable r.state ≡ true
      → apply_to_file hash now r w ≡ ok (res, w')
      → (res.conflict ≡ false)
        × (res.revision.id ≡ r.id)
        × (w'.file ≡ some r.content)
        × (w'.active_id ≡ r.id)
        × (w'.file_hash ≡ hash r.content)
        × ((x : ClaudeMdRevision) → Memᴰ x w'.revisions → is_rival w.project_id r.id x ≡ false)
  written-cases r w {res} {w'} can h = elim (Result-cases (others_of r w)) [
    | inl (e, q) ↦ absurd (ground (arith, applicable-apply r can))
    | inr (others, q) ↦
        let after = rw (applicable-apply r can, q) at h in
        let s =
          supersede_others-single w.project_id r.id
            (filter (in_project w.project_id) (saved_with r w).revisions) (saved_with r w)
            (ahead-start w.project_id r.id (saved_with r w).revisions) q in
        let made : ClaudeMdApplyResult = record {
          revision = as_applied r;
          conflict = false;
          current_file_hash = hash r.content;
        } in
        let result : made ≡ res = ground arith in
        let left : record_event (as_applied r) (some r.state) others ≡ w' = ground arith in
        rw (← result, ← left) (refl, refl, s.file, s.active, s.digest, s.single)
  ]

  -- The branch that finds the file changed.
  conflict-cases :
      (r : ClaudeMdRevision) (w : Workspace) {res : ClaudeMdApplyResult} {w' : Workspace}
      → conflict_with (hash (read_file w)) r w ≡ ok (res, w')
      → (res.conflict ≡ true)
        × (w'.file ≡ w.file)
        × (w'.active_id ≡ w.active_id)
        × (w'.file_hash ≡ w.file_hash)
  conflict-cases r w {res} {w'} h = elim (Result-cases (lift (Revision.mark_conflicted r))) [
    | inl (e, q) ↦ absurd (ground arith)
    | inr (r', q) ↦ ground arith
  ]

  -- the revision found has the identifier
  found-id :
      (w : Workspace) {r : ClaudeMdRevision}
      → find_by_id revision_id w.revisions ≡ some r
      → r.id ≡ revision_id
  unfolding find_by_id
  found-id w {r} f =
      (text_eq_iff r.id revision_id).0 (find-mem (has_id revision_id) w.revisions f).1

  apply-found :
      (w : Workspace) {res : ClaudeMdApplyResult × Workspace}
      → apply hash now revision_id base expected w ≡ ok res
      → (r : ClaudeMdRevision) × (find_by_id revision_id w.revisions ≡ some r)
        × (check_apply hash now base expected r w ≡ ok res)
  unfolding apply
  apply-found w h = elim (Option-cases (find_by_id revision_id w.revisions)) [
    | inl e ↦ absurd (ground arith)
    | inr (r, e) ↦ (r, e, ground arith)
  ]

  -- What an application leaves. If it reports no conflict, the file held the expected text before;
  -- the file is now the revision's text, the project records the revision and the digest of that
  -- text, and no other version of the project is applied. If it reports a conflict, the file held
  -- something else, and the file and the project's record are as they were.
  pub apply_outcome :
      (w : Workspace) {res : ClaudeMdApplyResult} {w' : Workspace}
      → apply hash now revision_id base expected w ≡ ok (res, w')
      → ((res.conflict ≡ false)
          × (hash (read_file w) ≡ expected)
          × (r : ClaudeMdRevision) × (find_by_id revision_id w.revisions ≡ some r)
          × (w'.file ≡ some r.content)
          × (w'.active_id ≡ revision_id)
          × (w'.file_hash ≡ hash r.content)
          × ((x : ClaudeMdRevision)
              → Memᴰ x w'.revisions
              → is_rival w.project_id revision_id x ≡ false))
        ⊎ ((res.conflict ≡ true)
            × (hash (read_file w) ≢ expected)
            × (w'.file ≡ w.file)
            × (w'.active_id ≡ w.active_id)
            × (w'.file_hash ≡ w.file_hash))
  apply_outcome w {w'} h =
      let (r, found, checked) = apply-found w h in
      let same = found-id w found in
      let (can, branch) = checked-cases r w checked in
      elim branch [
        | inl (d, q) ↦
            let (c, _, f, a, g, single) = written-cases r w can q in
            inl (
              c,
              (text_eq_iff (hash (read_file w)) expected).0 d,
              r,
              found,
              f,
              a ∙ same,
              g,
              subst
                  (λ i.
                    (x : ClaudeMdRevision)
                    → Memᴰ x w'.revisions
                    → is_rival w.project_id i x ≡ false)
                  same single,
            )
        | inr (d, q) ↦
            let (c, f, a, g) = conflict-cases r w q in
            inr (c, λ k. not_equal (hash (read_file w)) expected d k, f, a, g)
      ]

  -- The guards of an application, as its callers meet them.
  pub record IsOffered (r : ClaudeMdRevision) (w : Workspace) : Type 0 where
    pub found : find_by_id revision_id w.revisions ≡ some r
    pub on_base : (r.base_revision_id == base) ≡ true
    pub own : (r.project_id == w.project_id) ≡ true

  -- An application that meets the guards, to a file that holds the expected text, succeeds.
  pub apply_succeeds :
      (r : ClaudeMdRevision) (w : Workspace)
      → IsOffered r w
      → is_applicable r.state ≡ true
      → hash (read_file w) ≡ expected
      → (w' : Workspace) × (apply hash now revision_id base expected w
          ≡ ok (
            record {
              revision = as_applied r;
              conflict = false;
              current_file_hash = hash r.content;
            },
            w',
          ))
  unfolding apply
  apply_succeeds r w h can same =
      let d = (text_eq_iff (hash (read_file w)) expected).1 same in
      let (others, q) =
        supersede_others-ok r.id (filter (in_project w.project_id) (saved_with r w).revisions)
          (saved_with r w) in
      let found = h.found in
      let on_base = h.on_base in
      let own = h.own in
      (record_event (as_applied r) (some r.state) others, ground (arith, applicable-apply r can, q))

  -- A draft whose file has changed is not reported as a conflict: the application raises, since a
  -- draft cannot become conflicted.
  pub draft_conflict_raises :
      (r : ClaudeMdRevision) (w : Workspace)
      → IsOffered r w
      → r.state ≡ ClaudeMdRevisionState.draft
      → hash (read_file w) ≢ expected
      → apply hash now revision_id base expected w
        ≡ err (
            invalid (
              Revision.invalid_transition ClaudeMdRevisionState.draft
                ClaudeMdRevisionState.conflicted))
  unfolding apply Revision.mark_conflicted
  draft_conflict_raises r w h is_draft differs =
      elim (Bool-cases (hash (read_file w) == expected)) [
        | inl d ↦ absurd (differs ((text_eq_iff (hash (read_file w)) expected).0 d))
        | inr d ↦ let found = h.found in let on_base = h.on_base in let own = h.own in ground arith
      ]
