-- ===== src/Delivery/Attachments.antt =====
-- `_resolve_outbound_attachments` of backend/ohs/im_delivery_coordinator.py. A resolved path is the
-- list of its parts; `Paths` is what `pathlib` does, which reads the file system.
pub mod Confined
use velpos.Prelude.{
  String, Bool, true, false, Option, none, some, List, [], ◌∷◌, ◌&&◌, ◌||◌, not, ◌==◌, text_eq,
  is_empty, if◌then◌else◌,
}
use velpos.Prelude.Result.{Result, ok, err, ◌>>=◌}
use velpos.Prelude.Dict
use velpos.Prelude.Dict.{Dict}
use velpos.Values.{Value, str, Runtime}
use velpos.Binding.Route.{get_or}

-- `Path(s).is_absolute()`, `Path(s).expanduser().resolve()`, `(root / s).resolve()` and `str(path)`
pub record Paths : Type 0 where
  pub is_absolute : String → Bool
  pub root_of : String → List String
  pub join : List String → String → List String
  pub text_of : List String → String

-- the `ValueError`s
pub data AttachmentError : Type 0 where
  no_project escapes : AttachmentError

-- `path == root or root in path.parents`
unfoldable pub is_within : (root path : List String) → Bool
is_within [] path = true
is_within (r ∷ root) [] = false
is_within (r ∷ root) (p ∷ path) = r == p && is_within root path

module _ (py : Runtime) (paths : Paths) where
  -- `session.project_dir`, where the session is found and has one
  abbrev pub project_root : Option String → Option (List String)
  project_root none = none
  project_root (some dir) = if is_empty dir then none else some (paths.root_of dir)

  abbrev pub raw_path : Dict Value → String
  raw_path item = py.str_of (get_or py "path" item (str ""))

  abbrev pub is_relative : String → Bool
  is_relative raw = not (is_empty raw) && not (paths.is_absolute raw)

  abbrev pub place : Option (List String) → Dict Value → Result AttachmentError (Dict Value)
  place none item = err no_project
  place (some root) item =
      let absolute = paths.join root (raw_path item) in
      if is_within root absolute
      then ok (Dict.insert "path" (str (paths.text_of absolute)) item)
      else err escapes

  unfoldable pub resolve_one :
      Option (List String) → Dict Value → Result AttachmentError (Dict Value)
  unfolding is_within Dict.insert
  resolve_one root item = if is_relative (raw_path item) then place root item else ok item

  unfoldable pub resolve_each :
      Option (List String) → List (Dict Value) → Result AttachmentError (List (Dict Value))
  unfolding resolve_one
  resolve_each root [] = ok []
  resolve_each root (a ∷ rest) = do
    item ← resolve_one root a
    items ← resolve_each root rest
    ok (item ∷ items)

  unfoldable pub resolve_outbound_attachments :
      (project_dir : Option String) → List (Dict Value) → Result AttachmentError (List (Dict Value))
  unfolding resolve_each
  resolve_outbound_attachments project_dir attachments =
      resolve_each (project_root project_dir) attachments
