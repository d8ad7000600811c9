-- ===== src/Memory/Service.antt =====
-- `ClaudeMdRevisionApplicationService` of
-- backend/application/memory/claude_md_revision_application_service.py, on one project: its stored
-- revisions, its CLAUDE.md file, and what the project keeps of both. `resolve_project` is taken to
-- find this project; the times are those of each step, one for all.
pub mod Apply
pub mod Single
pub mod Outcome
use velpos.Prelude.{
  ℕ, ◌+◌, String, Bool, true, false, Option, none, some, List, [], ◌∷◌, ◌++◌, ◌&&◌, ◌||◌, not, map,
  ◌==◌, ◌!=◌, nat_eq, text_eq, is_empty, ltb, leb, max, any, filter, find, if◌then◌else◌,
}
use velpos.Prelude.Result.{Result, ok, err, ◌>>=◌}
use velpos.Memory.Revision
use velpos.Memory.Revision.{ClaudeMdRevision, ClaudeMdRevisionState, RevisionError, same_state}

-- `ClaudeMdRevisionEvent`, without its payload
pub record RevisionEvent : Type 0 where
  pub revision_id : String
  pub from_state : Option ClaudeMdRevisionState
  pub to_state : ClaudeMdRevisionState

pub record Workspace : Type 0 where
  pub project_id : String
  pub file : Option String
  pub active_id : String
  pub file_hash : String
  pub revisions : List ClaudeMdRevision
  pub events : List RevisionEvent

-- `BusinessException`s by what is wrong, and the aggregate's `ValueError`s.
pub data ServiceError : Type 0 where
  not_found base_not_found not_applicable base_mismatch wrong_project : ServiceError
  invalid : RevisionError → ServiceError

abbrev pub lift : {A : Type 0} → Result RevisionError A → Result ServiceError A
lift (ok a) = ok a
lift (err e) = err (invalid e)

-- `ClaudeMdRevisionRepositoryImpl` on the list of rows
abbrev pub has_id : String → ClaudeMdRevision → Bool
has_id i r = r.id == i

abbrev pub replace : ClaudeMdRevision → ClaudeMdRevision → ClaudeMdRevision
replace e r = if has_id e.id r then e else r

-- `merge`: the row of the identifier is written, or a new one is added.
unfoldable pub save : ClaudeMdRevision → List ClaudeMdRevision → List ClaudeMdRevision
save e rows = if any (has_id e.id) rows then map (replace e) rows else rows ++ e ∷ []

unfoldable pub find_by_id : String → List ClaudeMdRevision → Option ClaudeMdRevision
find_by_id i rows = find (has_id i) rows

abbrev pub is_applied : ClaudeMdRevision → Bool
is_applied r = same_state r.state ClaudeMdRevisionState.applied

abbrev pub in_project : String → ClaudeMdRevision → Bool
in_project p r = r.project_id == p

abbrev later_version : ClaudeMdRevision → Option ClaudeMdRevision → ClaudeMdRevision
later_version r none = r
later_version r (some s) = if ltb r.version_no s.version_no then s else r

-- ORDER BY version_no DESC LIMIT 1
unfoldable pub highest : List ClaudeMdRevision → Option ClaudeMdRevision
highest [] = none
highest (r ∷ rs) = some (later_version r (highest rs))

unfoldable pub find_active : (project_id : String) → List ClaudeMdRevision → Option ClaudeMdRevision
unfolding highest
find_active project_id rows = highest (filter (λ r. in_project project_id r && is_applied r) rows)

unfoldable pub next_version_no : (project_id : String) → List ClaudeMdRevision → ℕ
unfolding highest
next_version_no project_id rows = elim (highest (filter (in_project project_id) rows)) [
  | none ↦ 1
  | some r ↦ r.version_no + 1
]

unfoldable pub remove : String → List ClaudeMdRevision → List ClaudeMdRevision
remove i rows = filter (λ r. not (has_id i r)) rows

abbrev pub get_revision : String → Workspace → Result ServiceError ClaudeMdRevision
get_revision i w = elim (find_by_id i w.revisions) [ none ↦ err not_found | some r ↦ ok r ]

-- `_read_file`
abbrev pub read_file : Workspace → String
read_file w = elim w.file [ none ↦ "" | some text ↦ text ]

abbrev pub record_event : ClaudeMdRevision → Option ClaudeMdRevisionState → Workspace → Workspace
record_event r from w = record w {
  events = w.events ++ record { revision_id = r.id; from_state = from; to_state = r.state } ∷ [];
}

abbrev pub store : ClaudeMdRevision → Workspace → Workspace
store r w = record w { revisions = save r w.revisions }

-- The revision after a call, saved with the event of its change.
abbrev pub commit :
    ClaudeMdRevisionState → ClaudeMdRevision → Workspace → ClaudeMdRevision × Workspace
commit before r w = (r, record_event r (some before) (store r w))

-- `propose`, `approve` and `reject` of the service, by the method that they call.
unfoldable pub advance :
    (method : ClaudeMdRevision → Result RevisionError ClaudeMdRevision)
    → String
    → Workspace
    → Result ServiceError (ClaudeMdRevision × Workspace)
unfolding save find_by_id
advance method revision_id w = do
  r ← get_revision revision_id w
  r' ← lift (method r)
  ok (commit r.state r' w)

abbrev is_conflicted : ClaudeMdRevisionState → Bool
is_conflicted ClaudeMdRevisionState.conflicted = true
is_conflicted _ = false

unfoldable pub update_revision :
    (hash : String → String) (revision_id content : String)
    → Workspace
    → Result ServiceError (ClaudeMdRevision × Workspace)
unfolding Revision.update_content Revision.reopen_as_draft save find_by_id
update_revision hash revision_id content w = do
  r ← get_revision revision_id w
  edited ← lift (Revision.update_content hash content r)
  reopened ←
      (if is_conflicted edited.state then lift (Revision.reopen_as_draft edited) else ok edited)
  ok (commit r.state reopened w)
