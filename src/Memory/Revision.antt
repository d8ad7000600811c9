-- ===== src/Memory/Revision.antt =====
-- `ClaudeMdRevision` of backend/domain/memory/model/claude_md_revision.py. `hash` is `hash_content`,
-- a digest of the standard library; `now` is what the method's `datetime.now()` returns.
pub mod Lifecycle
use velpos.Prelude.{ℕ, String, Bool, true, false, Option, none, some, ◌||◌, not, if◌then◌else◌}
use velpos.Prelude.Result.{Result, ok, err, ◌>>=◌}

pub data ClaudeMdRevisionState : Type 0 where
  draft proposed approved applied superseded rejected conflicted : ClaudeMdRevisionState

pub record ClaudeMdRevision : Type 0 where
  pub id : String
  pub project_id : String
  pub version_no : ℕ
  pub state : ClaudeMdRevisionState
  pub content : String
  pub content_hash : String
  pub base_revision_id : String
  pub base_file_hash : String
  pub created_by : String
  pub created_time : ℕ
  pub proposed_time : Option ℕ
  pub approved_time : Option ℕ
  pub applied_time : Option ℕ
  pub rejected_time : Option ℕ
  pub reject_reason : String

-- The `ValueError`s, by what is wrong.
pub data RevisionError : Type 0 where
  invalid_transition : ClaudeMdRevisionState → ClaudeMdRevisionState → RevisionError
  not_editable : RevisionError

-- `_ALLOWED_TRANSITIONS`
unfoldable pub allowed : ClaudeMdRevisionState → ClaudeMdRevisionState → Bool
allowed draft proposed = true
allowed draft applied = true
allowed draft rejected = true
allowed proposed approved = true
allowed proposed rejected = true
allowed approved applied = true
allowed approved rejected = true
allowed approved conflicted = true
allowed applied superseded = true
allowed conflicted draft = true
allowed conflicted rejected = true
allowed _ _ = false

abbrev pub same_state : ClaudeMdRevisionState → ClaudeMdRevisionState → Bool
same_state draft draft = true
same_state proposed proposed = true
same_state approved approved = true
same_state applied applied = true
same_state superseded superseded = true
same_state rejected rejected = true
same_state conflicted conflicted = true
same_state _ _ = false

unfoldable pub transition_to :
    ClaudeMdRevisionState → ClaudeMdRevision → Result RevisionError ClaudeMdRevision
unfolding allowed
transition_to next_state r =
    if same_state r.state next_state
    then ok r
    else if not (allowed r.state next_state)
    then err (invalid_transition r.state next_state)
    else ok (record r { state = next_state })

module _ (hash : String → String) where
  unfoldable pub create_initial :
      (id : String) (now : ℕ) (project_id content file_hash : String) → ClaudeMdRevision
  create_initial id now project_id content file_hash = record {
    id = id;
    project_id = project_id;
    version_no = 1;
    state = applied;
    content = content;
    content_hash = hash content;
    base_revision_id = "";
    base_file_hash = file_hash;
    created_by = "system";
    created_time = now;
    proposed_time = none;
    approved_time = none;
    applied_time = some now;
    rejected_time = none;
    reject_reason = "";
  }

  unfoldable pub create_draft :
      (id : String) (now : ℕ) (project_id : String) (version_no : ℕ)
      (content base_revision_id base_file_hash created_by : String)
      → ClaudeMdRevision
  create_draft id now project_id version_no content base_revision_id base_file_hash created_by =
      record {
        id = id;
        project_id = project_id;
        version_no = version_no;
        state = draft;
        content = content;
        content_hash = hash content;
        base_revision_id = base_revision_id;
        base_file_hash = base_file_hash;
        created_by = created_by;
        created_time = now;
        proposed_time = none;
        approved_time = none;
        applied_time = none;
        rejected_time = none;
        reject_reason = "";
      }

  -- DRAFT or CONFLICTED
  abbrev pub is_editable : ClaudeMdRevisionState → Bool
  is_editable draft = true
  is_editable conflicted = true
  is_editable _ = false

  unfoldable pub update_content : String → ClaudeMdRevision → Result RevisionError ClaudeMdRevision
  update_content content r =
      if not (is_editable r.state)
      then err not_editable
      else ok (record r { content = content; content_hash = hash content })

unfoldable pub propose : (now : ℕ) → ClaudeMdRevision → Result RevisionError ClaudeMdRevision
unfolding transition_to
propose now r = do r' ← transition_to proposed r; ok (record r' { proposed_time = some now })

unfoldable pub approve : (now : ℕ) → ClaudeMdRevision → Result RevisionError ClaudeMdRevision
unfolding transition_to
approve now r = do r' ← transition_to approved r; ok (record r' { approved_time = some now })

unfoldable pub apply : (now : ℕ) → ClaudeMdRevision → Result RevisionError ClaudeMdRevision
unfolding transition_to
apply now r = do r' ← transition_to applied r; ok (record r' { applied_time = some now })

unfoldable pub supersede : ClaudeMdRevision → Result RevisionError ClaudeMdRevision
unfolding transition_to
supersede r = transition_to superseded r

unfoldable pub reject :
    (now : ℕ) (reason : String) → ClaudeMdRevision → Result RevisionError ClaudeMdRevision
unfolding transition_to
reject now reason r = do
  r' ← transition_to rejected r
  ok (record r' { rejected_time = some now; reject_reason = reason })

unfoldable pub mark_conflicted : ClaudeMdRevision → Result RevisionError ClaudeMdRevision
unfolding transition_to
mark_conflicted r = transition_to conflicted r

unfoldable pub reopen_as_draft : ClaudeMdRevision → Result RevisionError ClaudeMdRevision
unfolding transition_to
reopen_as_draft r = transition_to draft r
