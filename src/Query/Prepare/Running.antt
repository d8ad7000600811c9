-- ===== src/Query/Prepare/Running.antt =====
-- The status in which `_prepare_query` of backend/application/session/session_query_engine.py leaves
-- the session.
use velpos.Prelude.{
  ℕ, String, Option, none, some, ◌≡◌, arith, get_elem?, or_text, Bool-cases, Option-cases, inl, inr,
}
use velpos.Prelude.Result.{ok, Result-cases}
use velpos.Session.{Session, running, start_query}
use velpos.Session.Operations.{add_message, clear_cancel_requested}
use velpos.Query.Command.{Language, RunQueryCommand, compose_prompt}
use velpos.Query.Prepare.{QueryContext, prepare_query, validate_at, find_user_message_index}

module _ (py : Language) where
  pub prepare_query-running :
      (now message_now : ℕ) (run_id uuid : String) (found : Option Session) (c : RunQueryCommand)
      {ctx : QueryContext}
      → prepare_query py now message_now run_id uuid found c ≡ ok ctx
      → ctx.session.status ≡ running
  unfolding prepare_query start_query add_message clear_cancel_requested
  prepare_query-running now message_now run_id uuid none c e = absurd (ground (arith, e))
  prepare_query-running now message_now run_id uuid (some s) c e =
      let id = or_text c.client_message_id uuid in
      elim (Result-cases (compose_prompt py c)) [
        | inl (x, d) ↦ absurd (ground (arith, d, e))
        | inr (text, d) ↦ elim (Bool-cases s.cancel_requested) [
          | inl k ↦ elim (Option-cases (find_user_message_index s.messages id)) [
            | inl f ↦ ground (arith, d, k, f, e)
            | inr (i, f) ↦ elim (Result-cases (validate_at py (get_elem? s.messages i) c)) [
              | inl (x, v) ↦ absurd (ground (arith, d, k, f, v, e))
              | inr (u, v) ↦ ground (arith, d, k, f, v, e)
            ]
          ]
          | inr k ↦ elim (Option-cases (find_user_message_index s.messages id)) [
            | inl f ↦ ground (arith, d, k, f, e)
            | inr (i, f) ↦ elim (Result-cases (validate_at py (get_elem? s.messages i) c)) [
              | inl (x, v) ↦ absurd (ground (arith, d, k, f, v, e))
              | inr (u, v) ↦ ground (arith, d, k, f, v, e)
            ]
          ]
        ]
      ]
