-- ===== src/Query/Prepare/Once.antt =====
-- A request that is sent again under the same identifier: `_acknowledge_terminal_duplicate` and
-- `_prepare_query` of backend/application/session/session_query_engine.py.
use velpos.Prelude.{
  ℕ, String, true, false, none, some, List, ◌∷◌, ◌++◌, text_eq, ◌≡◌, ◌∙◌, is_empty, ap,
}
use velpos.Prelude.Result.{ok}
use velpos.Session.Messages.{Message, result}
use velpos.Session.{Session, is_running, is_compacting}
use velpos.Query.Command.{Language, IsLanguage, RunQueryCommand}
use velpos.Query.Prepare.{
  QueryContext, find_user_message_index, acknowledge_terminal_duplicate, prepare_query,
}
use velpos.Query.Prepare.Tagged.{IsTagged}
use velpos.Query.Prepare.Stands.{
  has_user, has_result, answered_by, not_answered, acknowledge-Stands, prepare_query-Stands,
  resumed,
}

module _ (py : Language) (law : IsLanguage py) where
  -- A request under a new identifier is started. Later the session has the same messages, which may
  -- have received the agent's identifiers, and after them others: some without a user message, and
  -- a result. Then the same request sent again is found answered, so that it is not run again.
  pub prepare_query-acknowledge :
      (now message_now : ℕ) (run_id uuid : String) (s later : Session) (c : RunQueryCommand)
      {ctx : QueryContext} {front : List Message} (before : List Message) (r : Message)
      (after : List Message)
      → is_empty c.client_message_id ≡ false
      → find_user_message_index s.messages c.client_message_id ≡ none
      → prepare_query py now message_now run_id uuid (some s) c ≡ ok ctx
      → IsTagged ctx.session.messages front
      → later.messages ≡ front ++ (before ++ r ∷ after)
      → has_user before ≡ false
      → r.message_type ≡ result
      → acknowledge_terminal_duplicate py (some later) c ≡ ok true
  prepare_query-acknowledge now message_now run_id uuid s later c {ctx} {front} before r after n f e
        g l u t =
      let rest = before ++ r ∷ after in
      let (st, text) =
        prepare_query-Stands py law now message_now run_id uuid s later c {ctx = ctx}
          {front = front} rest n f e g l in
      acknowledge-Stands py law later rest c n st ∙ ap (λ b. ok b) (answered_by before r after u t)

  -- A request under a new identifier is started, and after its messages, which may have received the
  -- agent's identifiers, only messages that are no results came, as when the run broke off. Then the
  -- same request sent again is not taken for answered, and if the session is neither running nor
  -- compacting the request is started again, with the messages that are there and no second copy.
  pub prepare_query-resume :
      (now message_now : ℕ) (run_id uuid : String) (s later : Session) (c : RunQueryCommand)
      (later_now later_message_now : ℕ) (later_run_id later_uuid : String) {ctx : QueryContext}
      {front : List Message} (rest : List Message)
      → is_empty c.client_message_id ≡ false
      → find_user_message_index s.messages c.client_message_id ≡ none
      → prepare_query py now message_now run_id uuid (some s) c ≡ ok ctx
      → IsTagged ctx.session.messages front
      → later.messages ≡ front ++ rest
      → has_result rest ≡ false
      → is_running later.status ≡ false
      → is_compacting later.status ≡ false
      → (acknowledge_terminal_duplicate py (some later) c ≡ ok false)
        × ((again : QueryContext) × (prepare_query py later_now later_message_now later_run_id
                later_uuid
                (some later)
                c
              ≡ ok again)
            × (again.session.messages ≡ later.messages))
  prepare_query-resume now message_now run_id uuid s later c later_now later_message_now
        later_run_id later_uuid {ctx} {front} rest n f e g l r ru co =
      let (st, (text, p)) =
        prepare_query-Stands py law now message_now run_id uuid s later c {ctx = ctx}
          {front = front} rest n f e g l in
      (
        acknowledge-Stands py law later rest c n st ∙ ap (λ b. ok b) (not_answered rest r),
        resumed py law later_now later_message_now later_run_id later_uuid later rest c text n st ru
            co p,
      )
