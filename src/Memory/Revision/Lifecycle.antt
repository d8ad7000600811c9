-- ===== src/Memory/Revision/Lifecycle.antt =====
-- Sequences of method calls on a `ClaudeMdRevision` (claude_md_revision.py).
use velpos.Prelude.{ℕ, ◌≡◌, ◌∙◌, refl, String, Bool, true, false, arith}
use velpos.Prelude.Result.{Result, ok}
use velpos.Memory.Revision.{
  ClaudeMdRevision, ClaudeMdRevisionState, applied, superseded, RevisionError, update_content,
  propose, approve, apply, supersede, reject, mark_conflicted, reopen_as_draft,
}

-- The methods that change a revision.
pub data RevisionOp : Type 0 where
  edit : String → RevisionOp
  to_proposed to_approved to_applied to_superseded to_conflicted to_draft : RevisionOp
  to_rejected : String → RevisionOp

unfoldable pub run_op :
    (hash : String → String) (now : ℕ)
    → RevisionOp
    → ClaudeMdRevision
    → Result RevisionError ClaudeMdRevision
unfolding update_content propose approve apply supersede mark_conflicted reopen_as_draft reject
run_op hash now (edit content) r = update_content hash content r
run_op hash now to_proposed r = propose now r
run_op hash now to_approved r = approve now r
run_op hash now to_applied r = apply now r
run_op hash now to_superseded r = supersede r
run_op hash now to_conflicted r = mark_conflicted r
run_op hash now to_draft r = reopen_as_draft r
run_op hash now (to_rejected reason) r = reject now reason r

-- A history of accepted calls, each at its own time.
pub data History (hash : String → String) (r : ClaudeMdRevision) : ClaudeMdRevision → Type 0 where
  start : History hash r r
  call :
      {a b : ClaudeMdRevision} (now : ℕ) (op : RevisionOp)
      → History hash r a
      → run_op hash now op a ≡ ok b
      → History hash r b

-- APPLIED or SUPERSEDED
abbrev pub was_applied : ClaudeMdRevisionState → Bool
was_applied applied = true
was_applied superseded = true
was_applied _ = false

step-was_applied :
    (hash : String → String) (now : ℕ) (op : RevisionOp) (r : ClaudeMdRevision)
    {r' : ClaudeMdRevision}
    → was_applied r.state ≡ true
    → run_op hash now op r ≡ ok r'
    → (was_applied r'.state ≡ true) × (r'.content ≡ r.content)
unfolding run_op
step-was_applied hash now (edit c) r f h = ground arith
step-was_applied hash now _ r f h = ground arith

-- A version that was applied keeps its text: no accepted calls, in any number and order, change the
-- content of a revision that is applied or superseded, or take it back to a draft.
pub applied_text_kept :
    (hash : String → String) (r : ClaudeMdRevision) {r' : ClaudeMdRevision}
    → was_applied r.state ≡ true
    → History hash r r'
    → (was_applied r'.state ≡ true) × (r'.content ≡ r.content)
applied_text_kept hash r f start = (f, refl)
applied_text_kept hash r f (call {a} now op past q) =
    let (g, c) = applied_text_kept hash r f past in
    let (k, d) = step-was_applied hash now op a g q in (k, d ∙ c)

step-content_hash :
    (hash : String → String) (now : ℕ) (op : RevisionOp) (r : ClaudeMdRevision)
    {r' : ClaudeMdRevision}
    → r.content_hash ≡ hash r.content
    → run_op hash now op r ≡ ok r'
    → r'.content_hash ≡ hash r'.content
unfolding run_op
step-content_hash hash now (edit c) r f h = ground arith
step-content_hash hash now _ r f h = ground arith

-- The digest kept with a revision is the digest of its text, after any accepted calls, if it was
-- before them.
pub content_hash_current :
    (hash : String → String) (r : ClaudeMdRevision) {r' : ClaudeMdRevision}
    → r.content_hash ≡ hash r.content
    → History hash r r'
    → r'.content_hash ≡ hash r'.content
content_hash_current hash r f start = f
content_hash_current hash r f (call {a} now op past q) =
    step-content_hash hash now op a (content_hash_current hash r f past) q
