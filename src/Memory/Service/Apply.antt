-- ===== src/Memory/Service/Apply.antt =====
-- `apply`, `create_draft` and `delete_revision` of
-- backend/application/memory/claude_md_revision_application_service.py.
use velpos.Prelude.{
  ℕ, String, Bool, true, false, Option, none, some, List, [], ◌∷◌, ◌&&◌, ◌||◌, not, ◌==◌, ◌!=◌,
  text_eq, nat_eq, is_empty, filter, if◌then◌else◌,
}
use velpos.Prelude.Result.{Result, ok, err, ◌>>=◌}
use velpos.Memory.Revision
use velpos.Memory.Revision.{ClaudeMdRevision, ClaudeMdRevisionState}
use velpos.Memory.Service.{
  Workspace, ServiceError, base_not_found, not_applicable, base_mismatch, wrong_project, lift,
  is_applied, in_project, find_by_id, find_active, next_version_no, remove, save, get_revision,
  read_file, record_event, store, commit,
}

-- `ClaudeMdApplyResult`
pub record ClaudeMdApplyResult : Type 0 where
  pub revision : ClaudeMdRevision
  pub conflict : Bool
  pub current_file_hash : String

-- DRAFT or APPROVED
abbrev pub is_applicable : ClaudeMdRevisionState → Bool
is_applicable ClaudeMdRevisionState.draft = true
is_applicable ClaudeMdRevisionState.approved = true
is_applicable _ = false

-- The loop over the project's revisions: every other applied one is superseded.
unfoldable pub supersede_others :
    (revision_id : String) → List ClaudeMdRevision → Workspace → Result ServiceError Workspace
unfolding Revision.supersede save
supersede_others revision_id [] w = ok w
supersede_others revision_id (existing ∷ rest) w =
    if existing.id == revision_id || not (is_applied existing)
    then supersede_others revision_id rest w
    else do
      old ← lift (Revision.supersede existing)
      supersede_others revision_id rest (commit existing.state old w).1

-- The branch in which the file has changed.
abbrev pub conflict_with :
    (current_hash : String)
    → ClaudeMdRevision
    → Workspace
    → Result ServiceError (ClaudeMdApplyResult × Workspace)
conflict_with current_hash r w = do
  r' ← lift (Revision.mark_conflicted r)
  ok (
    record { revision = r'; conflict = true; current_file_hash = current_hash },
    (commit r.state r' w).1,
  )

-- The branch in which the file is as expected.
abbrev pub apply_to_file :
    (hash : String → String) (now : ℕ)
    → ClaudeMdRevision
    → Workspace
    → Result ServiceError (ClaudeMdApplyResult × Workspace)
apply_to_file hash now r w = do
  r' ← lift (Revision.apply now r)
  let written = record w { file = some r.content; active_id = r'.id; file_hash = hash r.content }
  let saved = store r' written
  others ← supersede_others r'.id (filter (in_project w.project_id) saved.revisions) saved
  ok (
    record { revision = r'; conflict = false; current_file_hash = hash r.content },
    record_event r' (some r.state) others,
  )

-- The guards of `apply` on the revision found.
abbrev pub check_apply :
    (hash : String → String) (now : ℕ) (expected_base_revision_id expected_file_hash : String)
    → ClaudeMdRevision
    → Workspace
    → Result ServiceError (ClaudeMdApplyResult × Workspace)
check_apply hash now expected_base_revision_id expected_file_hash r w =
    if not (is_applicable r.state)
    then err not_applicable
    else if r.base_revision_id != expected_base_revision_id
    then err base_mismatch
    else if r.project_id != w.project_id
    then err wrong_project
    else if hash (read_file w) != expected_file_hash
    then conflict_with (hash (read_file w)) r w
    else apply_to_file hash now r w

unfoldable pub apply :
    (hash : String → String) (now : ℕ)
    (revision_id expected_base_revision_id expected_file_hash : String)
    → Workspace
    → Result ServiceError (ClaudeMdApplyResult × Workspace)
apply hash now revision_id expected_base_revision_id expected_file_hash w = do
  r ← get_revision revision_id w
  check_apply hash now expected_base_revision_id expected_file_hash r w

abbrev find_recorded : Workspace → Option ClaudeMdRevision
find_recorded w = if is_empty w.active_id then none else find_by_id w.active_id w.revisions

-- the recorded revision, or the latest applied one
abbrev find_current : Option ClaudeMdRevision → Workspace → Option ClaudeMdRevision
find_current (some r) w = some r
find_current none w = find_active w.project_id w.revisions

abbrev started_with : (file_hash : String) → ClaudeMdRevision → Workspace → Workspace
started_with file_hash r w = store r (record w { active_id = r.id; file_hash = file_hash })

-- `_ensure_initial_revision`; an empty first version is replaced once the file has a text.
unfoldable pub ensure_initial_revision :
    (hash : String → String) (new_id : String) (now : ℕ) (content file_hash : String)
    → Workspace
    → ClaudeMdRevision × Workspace
unfolding Revision.create_initial find_by_id find_active remove save
ensure_initial_revision hash new_id now content file_hash w =
    let initial = Revision.create_initial hash new_id now w.project_id content file_hash in
    elim (find_current (find_recorded w) w) [
      | some active ↦
          if active.version_no == 1
            && is_applied active
            && is_empty active.content
            && not (is_empty content)
          then (
            initial,
            started_with file_hash initial (record w { revisions = remove active.id w.revisions }),
          )
          else (active, w)
      | none ↦ (initial, record_event initial none (started_with file_hash initial w))
    ]

abbrev resolve_base : String → ClaudeMdRevision → Workspace → Result ServiceError ClaudeMdRevision
resolve_base base_revision_id active w =
    if is_empty base_revision_id
    then ok active
    else elim (find_by_id base_revision_id w.revisions) [
      | none ↦ err base_not_found
      | some r ↦ ok r
    ]

unfoldable pub create_draft :
    (hash : String → String) (initial_id draft_id : String) (now : ℕ)
    (content base_revision_id created_by : String)
    → Workspace
    → Result ServiceError (ClaudeMdRevision × Workspace)
unfolding ensure_initial_revision next_version_no Revision.create_draft find_by_id save
create_draft hash initial_id draft_id now content base_revision_id created_by w =
    let current = read_file w in
    let (active, w') = ensure_initial_revision hash initial_id now current (hash current) w in
    do
      base ← resolve_base base_revision_id active w'
      let r =
          Revision.create_draft hash draft_id now w'.project_id
            (next_version_no w'.project_id w'.revisions) content base.id (hash current) created_by
      ok (r, record_event r none (store r w'))

abbrev fall_back : Option ClaudeMdRevision → Workspace → Workspace
fall_back none w = record w { active_id = ""; file_hash = "" }
fall_back (some r) w = record w { active_id = r.id; file_hash = r.content_hash }

unfoldable pub delete_revision : (revision_id : String) → Workspace → Result ServiceError Workspace
unfolding find_by_id remove find_active
delete_revision revision_id w = do
  r ← get_revision revision_id w
  let kept = record w {
    revisions = remove r.id w.revisions;
    events = filter (λ e. e.revision_id != r.id) w.events;
  }
  ok (
      if r.project_id == w.project_id && w.active_id == r.id
      then fall_back (find_active w.project_id kept.revisions) kept
      else kept)
