-- ===== src/Query/Binding.antt =====
-- Which Claude conversation a session is bound to:
-- backend/domain/session/service/sdk_session_binding_service.py with sdk_binding_result.py, and
-- `_accept_or_reject_sdk_session_id` and `_resolve_resume_sdk_session_id` of
-- backend/application/session/session_application_service.py. A lookup gives the identifier of the
-- session that has the conversation.
pub mod Unique
use velpos.Prelude.{
  String, Bool, true, false, Option, none, some, ◌||◌, not, ◌==◌, text_eq, is_empty, starts_with,
  if◌then◌else◌,
}
use velpos.Prelude.Result.{Result, ok, err}
use velpos.Session.{Session}
use velpos.Session.Operations.{update_sdk_session_id}

pub record SdkBindingResult : Type 0 where
  pub accepted : Bool
  pub resolved_id : String
  pub conflict_session_id : String

abbrev rejected : (resolved_id conflict_session_id : String) → SdkBindingResult
rejected resolved_id conflict_session_id = record {
  accepted = false;
  resolved_id = resolved_id;
  conflict_session_id = conflict_session_id;
}

abbrev bound : (resolved_id : String) → SdkBindingResult
bound resolved_id = record { accepted = true; resolved_id = resolved_id; conflict_session_id = "" }

unfoldable pub is_fork : String → Bool
unfolding starts_with
is_fork sdk_session_id = starts_with "fork:" sdk_session_id

abbrev resume_owned : Option String → Session → SdkBindingResult × Session
resume_owned none s = (bound s.sdk_session_id, s)
resume_owned (some owner) s =
    if owner == s.session_id
    then (bound s.sdk_session_id, s)
    else (rejected "" owner, update_sdk_session_id "" s)

unfoldable pub resolve_for_resume :
    (owner : String → Option String) → Session → SdkBindingResult × Session
unfolding update_sdk_session_id
resolve_for_resume owner s =
    if is_empty s.sdk_session_id
    then (rejected "" "", s)
    else if is_fork s.sdk_session_id
    then (bound s.sdk_session_id, s)
    else resume_owned (owner s.sdk_session_id) s

abbrev bind_owned :
    Option String → (new_sdk_session_id : String) → Session → SdkBindingResult × Session
bind_owned none new s = (bound new, update_sdk_session_id new s)
bind_owned (some owner) new s =
    if not (owner == s.session_id)
    then (rejected "" owner, update_sdk_session_id "" s)
    else (bound new, update_sdk_session_id new s)

unfoldable pub try_bind :
    (owner : String → Option String)
    → (new_sdk_session_id : String) → Session
    → SdkBindingResult × Session
unfolding update_sdk_session_id
try_bind owner new s =
    if is_empty new || new == s.sdk_session_id
    then (rejected s.sdk_session_id "", s)
    else if is_fork new
    then (bound new, update_sdk_session_id new s)
    else bind_owned (owner new) new s

-- `true` where the result is an accepted binding; `err` where the conversation is another session's.
abbrev verdict : SdkBindingResult × Session → Session × Result (Unit {0}) Bool
verdict (r, s) =
    if r.accepted
    then (s, ok true)
    else if not (is_empty r.conflict_session_id)
    then (s, err tt)
    else (s, ok false)

-- A lookup that fails is repeated on a new connection; here is the one that went through.
unfoldable pub accept_or_reject_sdk_session_id :
    (owner : String → Option String)
    → (new_sdk_session_id : String) → Session
    → Session × Result (Unit {0}) Bool
unfolding try_bind
accept_or_reject_sdk_session_id owner new s = verdict (try_bind owner new s)
