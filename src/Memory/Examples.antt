-- ===== src/Memory/Examples.antt =====
-- Runs of the version service, and its theorems on them. The digest here is the text itself.
use velpos.Prelude.{
  ◌≡◌, ◌≢◌, refl, String, true, false, none, some, [], ◌∷◌, Memᴰ, ◌⊎◌, arith, text_eq_iff,
}
use velpos.Prelude.Result.{ok, err}
use velpos.Memory.Revision
use velpos.Memory.Revision.{
  ClaudeMdRevision, ClaudeMdRevisionState, draft, applied, superseded, update_content, supersede,
}
use velpos.Memory.Revision.Lifecycle.{
  start, call, to_superseded, edit, run_op, was_applied, applied_text_kept,
}
use velpos.Memory.Service.{Workspace, invalid, find_by_id, read_file, save}
use velpos.Memory.Service.Apply.{ClaudeMdApplyResult, apply, supersede_others}
use velpos.Memory.Service.Single.{is_rival}
use velpos.Memory.Service.Outcome.{
  as_applied, IsOffered, apply_outcome, apply_succeeds, draft_conflict_raises,
}

abbrev plain_hash : String → String
plain_hash s = s

abbrev first : ClaudeMdRevision
first = record {
  id = "r1";
  project_id = "p";
  version_no = 1;
  state = applied;
  content = "old";
  content_hash = "old";
  base_revision_id = "";
  base_file_hash = "old";
  created_by = "system";
  created_time = 1;
  proposed_time = none;
  approved_time = none;
  applied_time = some 1;
  rejected_time = none;
  reject_reason = "";
}

abbrev second : ClaudeMdRevision
second = record first {
  id = "r2";
  version_no = 2;
  state = draft;
  content = "new";
  content_hash = "new";
  base_revision_id = "r1";
  created_by = "user";
  applied_time = none;
}

abbrev workspace : String → Workspace
workspace text = record {
  project_id = "p";
  file = some text;
  active_id = "r1";
  file_hash = "old";
  revisions = first ∷ second ∷ [];
  events = [];
}

abbrev replaced : ClaudeMdRevision
replaced = record first { state = superseded }

supersede_run : run_op plain_hash 5 to_superseded first ≡ ok replaced
unfolding run_op supersede
supersede_run = refl

applied_text_kept_example : (was_applied replaced.state ≡ true) × (replaced.content ≡ first.content)
applied_text_kept_example =
    applied_text_kept plain_hash first refl (call 5 to_superseded start supersede_run)

abbrev edited : ClaudeMdRevision
edited = record second { content = "newer"; content_hash = "newer" }

edit_run : run_op plain_hash 5 (edit "newer") second ≡ ok edited
unfolding run_op update_content
edit_run = refl

is_offered : (text : String) → IsOffered plain_hash 7 "r2" "r1" "old" second (workspace text)
unfolding find_by_id
is_offered text = record { found = refl; on_base = refl; own = refl }

abbrev done : Workspace
done = record {
  project_id = "p";
  file = some "new";
  active_id = "r2";
  file_hash = "new";
  revisions = replaced ∷ as_applied plain_hash 7 "r2" "r1" "old" second ∷ [];
  events =
      record { revision_id = "r1"; from_state = some applied; to_state = superseded }
      ∷ record { revision_id = "r2"; from_state = some draft; to_state = applied }
      ∷ [];
}

abbrev result : ClaudeMdApplyResult
result = record {
  revision = as_applied plain_hash 7 "r2" "r1" "old" second;
  conflict = false;
  current_file_hash = "new";
}

apply_run : apply plain_hash 7 "r2" "r1" "old" (workspace "old") ≡ ok (result, done)
unfolding apply find_by_id save supersede_others Revision.apply supersede
apply_run = refl

apply_outcome_example :
    ((result.conflict ≡ false)
      × (plain_hash (read_file (workspace "old")) ≡ "old")
      × (r : ClaudeMdRevision) × (find_by_id "r2" (workspace "old").revisions ≡ some r)
      × (done.file ≡ some r.content)
      × (done.active_id ≡ "r2")
      × (done.file_hash ≡ plain_hash r.content)
      × ((x : ClaudeMdRevision) → Memᴰ x done.revisions → is_rival "p" "r2" x ≡ false))
    ⊎ ((result.conflict ≡ true)
        × (plain_hash (read_file (workspace "old")) ≢ "old")
        × (done.file ≡ (workspace "old").file)
        × (done.active_id ≡ "r1")
        × (done.file_hash ≡ "old"))
apply_outcome_example = apply_outcome plain_hash 7 "r2" "r1" "old" (workspace "old") apply_run

apply_succeeds_example :
    (w' : Workspace) × (apply plain_hash 7 "r2" "r1" "old" (workspace "old") ≡ ok (result, w'))
apply_succeeds_example =
    apply_succeeds plain_hash 7 "r2" "r1" "old" second (workspace "old") (is_offered "old") refl
      refl

changed : plain_hash "changed" ≢ plain_hash "old"
changed e = let k : false ≡ true = (text_eq_iff "changed" "old").1 e in absurd (ground arith)

draft_conflict_raises_example :
    apply plain_hash 7 "r2" "r1" "old" (workspace "changed")
    ≡ err (invalid (Revision.invalid_transition draft ClaudeMdRevisionState.conflicted))
draft_conflict_raises_example =
    draft_conflict_raises plain_hash 7 "r2" "r1" "old" second (workspace "changed")
      (is_offered "changed") refl changed
