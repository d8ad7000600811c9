-- ===== src/Query/Stream/Outcome.antt =====
-- What consuming a stream leaves in the session
-- (backend/application/session/session_stream_consumer.py).
use velpos.Prelude.{
  ℕ, String, Bool, true, false, Option, none, some, List, [], ◌∷◌, ◌++◌, ◌||◌, ◌==◌, text_eq, ◌≡◌,
  refl, ◌∙◌, ap, arith, is_empty, Bool-cases, Option-cases, inl, inr, if◌then◌else◌,
}
use velpos.Prelude.Result.{Result, ok, err, Result-cases}
use velpos.Values.{Runtime, ℤ}
use velpos.Session.Messages.{MessageType, Message, create, make_usage}
use velpos.Session.{Session, set_sdk_uuid_for_last_user_message, set_last}
use velpos.Session.Operations.{
  add_message, update_usage, initialize_usage, update_last_input_tokens, update_sdk_session_id,
}
use velpos.Query.Prepare.{QueryError}
use velpos.Query.Binding.{try_bind, accept_or_reject_sdk_session_id}
use velpos.Query.Stream.{
  StreamMessage, Arrival, message, timeout, broken, message_type_of, Progress, known, next,
  progress_after, apply, new_usage, context_usage, is_given, after_add, with_tokens, with_context,
  with_binding, with_uuid, take_message, take_meta, arrive, consume_from,
}

-- The types of the messages, in order: what later changes of a message's content leave alone.
abbrev pub types : List Message → List MessageType
types [] = []
types (m ∷ ms) = m.message_type ∷ types ms

-- The messages of the stream that are added.
abbrev pub kept : List Arrival → List MessageType
kept [] = []
kept (message now recorded saved m ∷ rest) =
    if m.message_type == "_meta"
    then kept rest
    else elim (message_type_of m.message_type) [ none ↦ kept rest | some t ↦ t ∷ kept rest ]
kept (a ∷ rest) = kept rest

module _ (py : Runtime) where
  types-set_last : (uuid : String) (ms : List Message) → types (set_last py uuid ms).1 ≡ types ms
  unfolding set_last
  types-set_last uuid [] = refl
  types-set_last uuid (m ∷ ms) = ground (arith, types-set_last uuid ms)

  types-append :
      (ms : List Message) (m : Message) → types (ms ++ m ∷ []) ≡ types ms ++ m.message_type ∷ []
  types-append [] m = refl
  types-append (x ∷ ms) m = ap (λ (l : List MessageType). x.message_type ∷ l) (types-append ms m)

  -- The session keeps its messages, up to what they say, and its status.
  abbrev pub IsKept : Session → Session → Type 0
  IsKept s t = (types t.messages ≡ types s.messages) × (t.status ≡ s.status)

  module _ (owner : String → Option String) where
    with_uuid-IsKept : (m : StreamMessage) (s : Session) → IsKept s (with_uuid py owner m s)
    unfolding set_sdk_uuid_for_last_user_message
    with_uuid-IsKept m s = elim (Bool-cases (is_empty m.sdk_user_message_uuid)) [
      | inl e ↦ rw e (refl, refl)
      | inr e ↦ rw e (types-set_last m.sdk_user_message_uuid s.messages, refl)
    ]

    try_bind-kept :
        (new : String) (s : Session)
        → ((try_bind owner new s).1.messages ≡ s.messages)
          × ((try_bind owner new s).1.status ≡ s.status)
    unfolding try_bind update_sdk_session_id
    try_bind-kept new s = elim (Option-cases (owner new)) [
      | inl n ↦ (ground (arith, n), ground (arith, n))
      | inr (o, n) ↦ (ground (arith, n), ground (arith, n))
    ]

    pub accept-kept :
        (new : String) (s : Session)
        → ((accept_or_reject_sdk_session_id owner new s).0.messages ≡ s.messages)
          × ((accept_or_reject_sdk_session_id owner new s).0.status ≡ s.status)
    unfolding accept_or_reject_sdk_session_id
    accept-kept new s = let (a, b) = try_bind-kept new s in (ground (arith, a), ground (arith, b))

    with_binding-IsKept :
        (m : StreamMessage) (s : Session) (r : Result QueryError (Unit {0}))
        → IsKept s (with_binding py owner m (s, r)).0
    with_binding-IsKept m s (err e) = (refl, refl)
    with_binding-IsKept m s (ok u) = elim (Bool-cases (is_empty m.sdk_session_id)) [
      | inl e ↦ rw e (refl, refl)
      | inr e ↦
          let (a, b) = accept-kept m.sdk_session_id s in
          let bound = accept_or_reject_sdk_session_id owner m.sdk_session_id s in
          elim (Result-cases bound.1) [
            | inl (x, k) ↦ rw (e, k) (ap types a, b)
            | inr (x, k) ↦ rw (e, k) (ap types a, b)
          ]
    ]

  usage-kept :
      (i o : ℤ) (s : Session)
      → ((apply s (new_usage i o s)).0.messages ≡ s.messages)
        × ((apply s (new_usage i o s)).0.status ≡ s.status)
  unfolding update_usage initialize_usage
  usage-kept i o s = elim (Option-cases (make_usage i o)) [
    | inl n ↦ (ground (arith, n), ground (arith, n))
    | inr (u, n) ↦ (ground (arith, n), ground (arith, n))
  ]

  with_tokens-IsKept :
      (now : ℕ) (saw : Bool) (m : StreamMessage) (t : Option (ℤ × ℤ)) (s : Session)
      → IsKept s (with_tokens now saw m t s).0
  unfolding update_last_input_tokens
  with_tokens-IsKept now saw m none s = (refl, refl)
  with_tokens-IsKept now true m (some (i, o)) s = let (a, b) = usage-kept i o s in (ap types a, b)
  with_tokens-IsKept now false m (some (i, o)) s =
      let (a, b) = usage-kept i o (context_usage now false m i s) in (ap types a, b)

  with_context-IsKept : (now : ℕ) (n : Option ℤ) (s : Session) → IsKept s (with_context now n s)
  unfolding update_last_input_tokens
  with_context-IsKept now none s = (refl, refl)
  with_context-IsKept now (some n) s = (refl, refl)

  IsKept-trans : (s t u : Session) → IsKept s t → IsKept t u → IsKept s u
  IsKept-trans s t u (a, b) (c, d) = (c ∙ a, d ∙ b)

  module _ (owner : String → Option String) where
    after_add-IsKept :
        (now : ℕ) (recorded : Bool) (p : Progress) (m : StreamMessage) (s : Session)
        → IsKept s (after_add py owner now recorded p m s).0
    after_add-IsKept now false p m s = (refl, refl)
    after_add-IsKept now true p m s =
        let t = with_context now m.context_input_tokens s in
        let saw = p.saw_context_input_usage || is_given m.context_input_tokens in
        let u = with_tokens now saw m m.tokens t in
        let v = with_binding py owner m u in
        IsKept-trans s t v.0 (with_context-IsKept now m.context_input_tokens s) (
          IsKept-trans t u.0 v.0 (with_tokens-IsKept now saw m m.tokens t)
            (with_binding-IsKept owner m u.0 u.1))

    pub take_message-types :
        (now : ℕ) (recorded : Bool) (p : Progress) (t : MessageType) (m : StreamMessage)
        (s : Session)
        → (types (take_message py owner now recorded p t m s).0.messages
            ≡ types s.messages ++ t ∷ [])
          × ((take_message py owner now recorded p t m s).0.status ≡ s.status)
    unfolding take_message add_message create
    take_message-types now recorded p t m s =
        let msg = create now t m.content in
        let z : Session = record s { messages = s.messages ++ msg ∷ [] } in
        let y = with_uuid py owner m z in
        let (a, b) =
          IsKept-trans z y (after_add py owner now recorded p m y).0 (with_uuid-IsKept owner m z)
            (after_add-IsKept now recorded p m y) in
        (a ∙ types-append s.messages msg, b)

    pub take_meta-IsKept :
        (saved : Bool) (m : StreamMessage) (s : Session) → IsKept s (take_meta py owner saved m s).0
    unfolding take_meta update_sdk_session_id
    take_meta-IsKept saved m s = (ground arith, ground arith)

    pub next-left :
        (p : Progress) (x : Session × Result QueryError (Unit {0})) → (next py owner p x).0 ≡ x.0
    next-left p (s, ok u) = refl
    next-left p (s, err e) = refl

    known-status :
        (now : ℕ) (recorded : Bool) (p : Progress) (t : Option MessageType) (m : StreamMessage)
        (s : Session)
        → (known py owner now recorded p t m s).0.status ≡ s.status
    known-status now recorded p none m s = refl
    known-status now recorded p (some t) m s =
        ap (λ (x : Session). x.status)
          (next-left (progress_after py owner p m) (take_message py owner now recorded p t m s))
        ∙ (take_message-types now recorded p t m s).1

    arrive-status :
        (limit : ℕ) (p : Progress) (a : Arrival) (s : Session)
        → (arrive py owner limit p a s).0.status ≡ s.status
    unfolding arrive
    arrive-status limit p broken s = refl
    arrive-status limit p (timeout alive user tasks recorded) s = ground arith
    arrive-status limit p (message now recorded saved m) s =
        elim (Bool-cases (m.message_type == "_meta")) [
          | inl e ↦ rw e (
              ap (λ (x : Session). x.status)
                (next-left (record p { silent_timeouts = 0 }) (take_meta py owner saved m s))
              ∙ (take_meta-IsKept saved m s).1)
          | inr e ↦ rw e (known-status now recorded p (message_type_of m.message_type) m s)
        ]

    -- However a stream goes, consuming it leaves the session's status as it is.
    pub consume_from-status :
        (limit : ℕ) (recorded : Bool) (p : Progress) (arrivals : List Arrival) (s : Session)
        → (consume_from py owner limit recorded p arrivals s).0.status ≡ s.status
    unfolding consume_from
    consume_from-status limit recorded p [] s = refl
    consume_from-status limit recorded p (a ∷ rest) s =
        let (s', r) = arrive py owner limit p a s in
        elim (Result-cases r) [
          | inl (x, k) ↦ rw (consume_from, k) (arrive-status limit p a s)
          | inr (q, k) ↦
              rw (consume_from, k)
                (consume_from-status limit recorded q rest s' ∙ arrive-status limit p a s)
        ]
