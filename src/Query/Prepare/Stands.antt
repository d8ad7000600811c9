-- ===== src/Query/Prepare/Stands.antt =====
-- Where the message of a request stands in its session: `_acknowledge_terminal_duplicate` and
-- `_prepare_query` of backend/application/session/session_query_engine.py.
use velpos.Prelude.{
  ℕ, suc, String, Bool, true, false, none, some, List, [], ◌∷◌, ◌++◌, drop, any, get_elem?, length,
  text_eq, text_eq_iff, or_text, ◌≡◌, refl, subst, ◌∙◌, is_empty, arith, Bool-cases, Option-cases,
  inl, inr, ap,
}
use velpos.Prelude.Result.{ok, Result-cases}
use velpos.Prelude.Dict
use velpos.Values.{str}
use velpos.Session.Messages.{Message, is_user, result, create}
use velpos.Session.{Session, running, start_query, is_running, is_compacting}
use velpos.Session.Operations.{add_message, clear_cancel_requested}
use velpos.Query.Command.{Language, IsLanguage, RunQueryCommand, compose_prompt}
use velpos.Query.Prepare.{
  QueryContext, is_message, find_user_message_index, answered, user_message, same_prompt,
  validate_duplicate_payload, acknowledge_terminal_duplicate, prepare_query, attachments_value,
  without_cancel, is_result,
}
use velpos.Query.Prepare.Tagged.{IsTagged, IsTagged-last, find-IsTagged}

abbrev pub has_user : List Message → Bool
has_user = any (λ m. is_user m.message_type)

module _ (id : String) where
  find-new :
      (ms : List Message) (m : Message) (rest : List Message)
      → find_user_message_index ms id ≡ none
      → is_message id m ≡ true
      → find_user_message_index (ms ++ m ∷ rest) id ≡ some (length ms)
  unfolding find_user_message_index
  find-new [] m rest h e = rw e refl
  find-new (x ∷ ms) m rest h e = elim (Bool-cases (is_message id x)) [
    | inl a ↦ absurd (ground (arith, a))
    | inr a ↦ elim (Option-cases (find_user_message_index ms id)) [
      | inl n ↦ rw (a, find-new ms m rest n e) refl
      | inr (i, n) ↦ absurd (ground (arith, a, n))
    ]
  ]

module _ {ℓ} {A : Type ℓ} where
  get_elem?-length :
      (ms : List A) (m : A) (rest : List A) → get_elem? (ms ++ m ∷ rest) (length ms) ≡ some m
  get_elem?-length [] m rest = refl
  get_elem?-length (x ∷ ms) m rest = get_elem?-length ms m rest

  drop-length :
      (ms : List A) (m : A) (rest : List A) → drop (suc (length ms)) (ms ++ m ∷ rest) ≡ rest
  drop-length [] m rest = refl
  drop-length (x ∷ ms) m rest = drop-length ms m rest

pub answered_by :
    (before : List Message) (r : Message) (after : List Message)
    → has_user before ≡ false
    → r.message_type ≡ result
    → answered (before ++ r ∷ after) ≡ true
unfolding answered
answered_by [] r after h e = rw e refl
answered_by (m ∷ ms) r after h e = ground (arith, answered_by ms r after)

abbrev pub has_result : List Message → Bool
has_result = any (λ m. is_result m.message_type)

pub not_answered : (ms : List Message) → has_result ms ≡ false → answered ms ≡ false
unfolding answered
not_answered [] h = refl
not_answered (m ∷ ms) h = elim (Bool-cases (is_result m.message_type)) [
  | inl a ↦ absurd (ground (arith, a))
  | inr a ↦ let rest = not_answered ms (rw a at h) in ground (arith, a, rest)
]

module _ (py : Language) (law : IsLanguage py) where
  validate_own :
      (now : ℕ) (id run_id text : String) (c : RunQueryCommand)
      → validate_duplicate_payload py (user_message now id run_id text c) c ≡ ok tt
  unfolding validate_duplicate_payload same_prompt create Dict.lookup
  validate_own now id run_id text c = ground (
    arith,
    text_eq_iff (py.runtime.str_of (str c.prompt)) c.prompt,
    law.str_of_str c.prompt,
    law.same_refl (attachments_value c.attachments),
  )

  prepare_query-added :
      (now message_now : ℕ) (run_id uuid : String) (s : Session) (c : RunQueryCommand)
      {ctx : QueryContext}
      → find_user_message_index s.messages (or_text c.client_message_id uuid) ≡ none
      → prepare_query py now message_now run_id uuid (some s) c ≡ ok ctx
      → (text : String) × (compose_prompt py c ≡ ok text)
        × (ctx.session.messages
            ≡ s.messages
              ++ user_message message_now (or_text c.client_message_id uuid) run_id text c ∷ [])
  unfolding prepare_query start_query add_message clear_cancel_requested create
  prepare_query-added now message_now run_id uuid s c h e =
      elim (Result-cases (compose_prompt py c)) [
        | inl (x, d) ↦ absurd (ground (arith, d))
        | inr (text, d) ↦ (
          text,
          d,
          elim (Bool-cases s.cancel_requested) [
            | inl k ↦ ground (arith, d, k, h)
            | inr k ↦ ground (arith, d, k, h)
          ],
        )
      ]

  is_message-own :
      (now : ℕ) (id run_id text : String) (c : RunQueryCommand)
      → is_message id (user_message now id run_id text c) ≡ true
  unfolding is_message create Dict.lookup
  is_message-own now id run_id text c = ground (arith, text_eq_iff id id)

  or_text-left : (s t : String) → is_empty s ≡ false → or_text s t ≡ s
  or_text-left s t h = rw h refl

  -- The request's message stands in the session, and the messages after it are the given ones.
  pub record Stands (c : RunQueryCommand) (later : Session) (rest : List Message) : Type 0 where
    pub front : List Message
    pub own : Message
    pub at : later.messages ≡ front ++ own ∷ rest
    pub before : find_user_message_index front c.client_message_id ≡ none
    pub has_id : is_message c.client_message_id own ≡ true
    pub fits : validate_duplicate_payload py own c ≡ ok tt

  pub acknowledge-Stands :
      (later : Session) (rest : List Message) (c : RunQueryCommand)
      → is_empty c.client_message_id ≡ false
      → Stands c later rest
      → acknowledge_terminal_duplicate py (some later) c ≡ ok (answered rest)
  unfolding acknowledge_terminal_duplicate
  acknowledge-Stands later rest c n st =
      let found = find-new c.client_message_id st.front st.own rest st.before st.has_id in
      rw
        (
          n,
          st.at,
          found,
          get_elem?-length st.front st.own rest,
          drop-length st.front st.own rest,
          st.fits,
        )
        refl

  append-one :
      (ms : List Message) (m : Message) (rest : List Message)
      → (ms ++ m ∷ []) ++ rest ≡ ms ++ m ∷ rest
  append-one [] m rest = refl
  append-one (x ∷ ms) m rest = ap (λ (l : List Message). x ∷ l) (append-one ms m rest)

  pub prepare_query-Stands :
      (now message_now : ℕ) (run_id uuid : String) (s later : Session) (c : RunQueryCommand)
      {ctx : QueryContext} {front : List Message} (rest : List Message)
      → is_empty c.client_message_id ≡ false
      → find_user_message_index s.messages c.client_message_id ≡ none
      → prepare_query py now message_now run_id uuid (some s) c ≡ ok ctx
      → IsTagged ctx.session.messages front
      → later.messages ≡ front ++ rest
      → Stands c later rest × ((text : String) × (compose_prompt py c ≡ ok text))
  prepare_query-Stands now message_now run_id uuid s later c {ctx} {front} rest n f e g l =
      let o = or_text-left c.client_message_id uuid n in
      let (text, p, added) =
        prepare_query-added now message_now run_id uuid s c {ctx = ctx} (rw o f) e in
      let new = user_message message_now c.client_message_id run_id text c in
      let added' : ctx.session.messages ≡ s.messages ++ new ∷ [] = rw o at added in
      let (ms, own, d, t, r) =
        IsTagged-last s.messages new (subst (λ l. IsTagged l front) added' g) in
      (
        record {
          front = ms;
          own = own;
          at = rw (l, d) (append-one ms own rest);
          before = find-IsTagged c.client_message_id t ∙ f;
          has_id =
              r.is_message-same c.client_message_id
              ∙ is_message-own message_now c.client_message_id run_id text c;
          fits = r.validate-same py c ∙ validate_own message_now c.client_message_id run_id text c;
        },
        (text, p),
      )

  pub resumed :
      (now message_now : ℕ) (run_id uuid : String) (later : Session) (rest : List Message)
      (c : RunQueryCommand) (prompt : String)
      → is_empty c.client_message_id ≡ false
      → Stands c later rest
      → is_running later.status ≡ false
      → is_compacting later.status ≡ false
      → compose_prompt py c ≡ ok prompt
      → (again : QueryContext) × (prepare_query py now message_now run_id uuid (some later) c
          ≡ ok again)
        × (again.session.messages ≡ later.messages)
  unfolding prepare_query start_query clear_cancel_requested
  resumed now message_now run_id uuid later rest c prompt n st ru co p =
      let found : find_user_message_index later.messages c.client_message_id
          ≡ some (length st.front) =
        rw st.at (find-new c.client_message_id st.front st.own rest st.before st.has_id) in
      let own : get_elem? later.messages (length st.front) ≡ some st.own =
        rw st.at (get_elem?-length st.front st.own rest) in
      let context : QueryContext = record {
        session = record (without_cancel now later) { status = running };
        command = c;
        run_id = run_id;
        actual_prompt = prompt;
        message_id = c.client_message_id;
        cancelled_during_stream = false;
      } in
      let v = st.fits in
      elim (Bool-cases later.cancel_requested) [
        | inl k ↦ (context, ground (arith, k, ru, co, p, found, own, v, n), ground (arith, k))
        | inr k ↦ (context, ground (arith, k, ru, co, p, found, own, v, n), ground (arith, k))
      ]
