-- ===== src/Query/Rewind/Synced.antt =====
-- A rewind takes the session and the agent back by the same number of requests
-- (backend/application/session/session_query_engine.py).
use velpos.Prelude.{
  ℕ, zero, suc, String, Bool, true, false, Option, none, some, List, [], ◌∷◌, ◌++◌, ◌||◌, any, drop,
  length, is_empty, ◌≡◌, refl, subst, sym, ◌∙◌, ap, arith, Bool-cases, Option-cases, inl, inr,
  if◌then◌else◌,
}
use velpos.Prelude.Result.{ok, err, Result-cases}
use velpos.Prelude.Dict
use velpos.Values.{Value, Runtime, pos, str}
use velpos.Query.Command.{get}
use velpos.Session.Messages.{Message, is_user, text_of}
use velpos.Session.{
  Session, idle, not_running, is_running, is_idle, rewind_to, cancel_query as cancel_session,
}
use velpos.Session.Rewind.{from_user, rewind_to-ok, cancel_query-last_user}
use velpos.Query.Prepare.{is_message, find_user_message_index}
use velpos.Query.Stream.Outcome.{accept-kept}
use velpos.Query.Rewind.{
  RewindReply, send_rewinds, last_named, count_users, last_user_content, last_user_value, Rewound,
  bind_named, after_rewind, users_from, rewind_to_message, rewind_to_message_id, cancel_loaded,
  rebound,
}

find-at :
    (id : String) (pre : List Message) (m : Message) (post : List Message)
    → find_user_message_index (pre ++ m ∷ post) id ≡ some (length pre)
    → (find_user_message_index pre id ≡ none) × (is_message id m ≡ true)
unfolding find_user_message_index
find-at id [] m post h = elim (Bool-cases (is_message id m)) [
  | inl e ↦ (refl, e)
  | inr e ↦ elim (Option-cases (find_user_message_index post id)) [
    | inl n ↦ absurd (ground (arith, e, n, h))
    | inr (i, n) ↦ absurd (ground (arith, e, n, h))
  ]
]
find-at id (x ∷ pre) m post h = elim (Bool-cases (is_message id x)) [
  | inl e ↦ absurd (ground (arith, e, h))
  | inr e ↦ elim (Option-cases (find_user_message_index (pre ++ m ∷ post) id)) [
    | inl n ↦ absurd (ground (arith, e, n, h))
    | inr (i, n) ↦
        let d : i ≡ length pre = ground (arith, e, n, h) in
        let (a, b) = find-at id pre m post (n ∙ ap (λ (k : ℕ). some k) d) in
        (ground (arith, e, a), b)
  ]
]

drop-prefix : (pre rest : List Message) → drop (length pre) (pre ++ rest) ≡ rest
drop-prefix [] rest = refl
drop-prefix (x ∷ pre) rest = drop-prefix pre rest

send_rewinds-all :
    (n : ℕ) (replies : ℕ → RewindReply) (sid : String)
    → ((i : ℕ) → (replies i).breaks ≡ false)
    → (send_rewinds n replies sid).0 ≡ n
unfolding send_rewinds
send_rewinds-all zero replies sid h = refl
send_rewinds-all (suc n) replies sid h =
    ground (arith, h n, send_rewinds-all n replies (last_named (replies n).sdk_session_ids sid) h)

module _ (py : Runtime) (owner : String → Option String) where
  bind_named-messages :
      (sid : String) (s : Session) → (bind_named py owner sid s).messages ≡ s.messages
  bind_named-messages sid s = elim (Bool-cases (is_empty sid)) [
    | inl e ↦ rw e refl
    | inr e ↦ rw e (accept-kept py owner sid s).0
  ]

  -- What a rewind to an identifier leaves.
  abbrev pub IsSynced : (now : ℕ) → (ℕ → RewindReply) → Session → String → Rewound → Type 0
  IsSynced now replies s id r =
      (m : Message) × (post : List Message) × (s.messages ≡ r.session.messages ++ m ∷ post)
      × (s.status ≡ idle)
      × (is_message id m ≡ true)
      × (find_user_message_index r.session.messages id ≡ none)
      × (r.prompt ≡ text_of m)
      × (((j : ℕ) → (replies j).breaks ≡ false) → r.sent ≡ count_users (m ∷ post))

  -- The case where the session's own rewind went through.
  rewound :
      (now : ℕ) (replies : ℕ → RewindReply) (s t : Session) (id : String) (i : ℕ) (p : Value)
      → find_user_message_index s.messages id ≡ some i
      → rewind_to now (pos i) s ≡ ok (p, t)
      → IsSynced now replies s id
          (after_rewind py owner true replies (users_from (pos i) s.messages) (p, t))
  rewound now replies s t id i p n k =
      let (m, post, split, at, u, q, x, y) = rewind_to-ok now (pos i) s k in
      let place : i ≡ length t.messages = ground (arith, at) in
      let found : find_user_message_index (t.messages ++ m ∷ post) id ≡ some (length t.messages) =
        ap (λ (l : List Message). find_user_message_index l id) (sym split)
        ∙ n
        ∙ ap (λ (j : ℕ). some j) place in
      let (before, own) = find-at id t.messages m post found in
      let users = users_from (pos i) s.messages in
      let (sent, sid) = send_rewinds users replies "" in
      let kept = bind_named-messages sid t in
      let rest : drop i s.messages ≡ m ∷ post =
        rw (split, place) (drop-prefix t.messages (m ∷ post)) in
      (
        m,
        post,
        rw kept split,
        x,
        own,
        rw kept before,
        q,
        λ whole. send_rewinds-all users replies "" whole ∙ ap count_users rest,
      )

  -- A rewind to a message identifier that goes through on a connected agent: the session is idle and
  -- keeps what is before the first user message with that identifier, whose text is given back, and if no `/rewind` raises, one is sent for each user message that is gone.
  pub rewind_to_message_id-IsSynced :
      (now : ℕ) (replies : ℕ → RewindReply) (s : Session) (id : String) {r : Rewound}
      → rewind_to_message_id py owner now true true replies (some s) id ≡ ok r
      → IsSynced now replies s id r
  unfolding rewind_to_message_id rewind_to_message
  rewind_to_message_id-IsSynced now replies s id {r} h =
      elim (Option-cases (find_user_message_index s.messages id)) [
        | inl n ↦ absurd (ground (arith, n, h))
        | inr (i, n) ↦ elim (Result-cases (rewind_to now (pos i) s)) [
          | inl (x, k) ↦ absurd (ground (arith, n, k, h))
          | inr ((p, t), k) ↦
              let found = rewound now replies s t id i p n k in
              let z = after_rewind py owner true replies (users_from (pos i) s.messages) (p, t) in
              let d : z ≡ r = ground (arith, n, k, h) in
              subst (λ (r : Rewound). IsSynced now replies s id r) d found
        ]
      ]

last_user_content-none :
    (key : String) (ms : List Message) → any from_user ms ≡ false → last_user_content key ms ≡ none
unfolding last_user_content
last_user_content-none key [] h = refl
last_user_content-none key (m ∷ ms) h = elim (Bool-cases (from_user m)) [
  | inl e ↦ absurd (ground (arith, e, h))
  | inr e ↦
      let rest = last_user_content-none key ms (rw e at h) in rw (last_user_content, rest, e) refl
]

text_of-get : (m : Message) → text_of m ≡ get "text" (str "") m.content
unfolding text_of
text_of-get m = elim (Option-cases (Dict.lookup "text" m.content)) [
  | inl n ↦ rw (text_of, n) refl
  | inr (v, n) ↦ rw (text_of, n) refl
]

last_user_content-last :
    (key : String) (pre : List Message) (m : Message) (post : List Message)
    → is_user m.message_type ≡ true
    → any from_user post ≡ false
    → last_user_content key (pre ++ m ∷ post) ≡ some (get key (str "") m.content)
unfolding last_user_content
last_user_content-last key [] m post u n =
    rw (last_user_content, last_user_content-none key post n, u) refl
last_user_content-last key (x ∷ pre) m post u n =
    rw (last_user_content, last_user_content-last key pre m post u n) refl

cancel_refused :
    (now : ℕ) (s : Session)
    → (is_running s.status || is_idle s.status) ≡ false
    → cancel_session now s ≡ err not_running
unfolding cancel_session
cancel_refused now s h = rw h refl

module _ (py : Runtime) (owner : String → Option String) where
  rebound-messages :
      (sid : String) (connected : Bool) (p : Value) (s : Session)
      → (rebound py owner sid connected (p, s)).1.messages ≡ s.messages
  rebound-messages sid connected p s = bind_named-messages py owner sid s

  -- A cancel whose save goes through gives back the text of the last user message, whatever the
  -- status of the session. A running or idle session keeps what is before that message, and any
  -- other one keeps all its messages.
  pub cancel_loaded-last_user :
      (now : ℕ) (sid : String) (connected : Bool) (s : Session) (pre post : List Message)
      (m : Message)
      → s.messages ≡ pre ++ m ∷ post
      → is_user m.message_type ≡ true
      → any from_user post ≡ false
      → (s' : Session) × (files : Option Value) × (cancel_loaded py owner now true sid connected s
          ≡ ok (text_of m, s', files))
        × (s'.messages ≡ (if is_running s.status || is_idle s.status then pre else pre ++ m ∷ post))
  unfolding cancel_loaded
  cancel_loaded-last_user now sid connected s pre post m split u n =
      elim (Bool-cases (is_running s.status || is_idle s.status)) [
        | inl c ↦
            let (t, e, kept, rests) = cancel_query-last_user now s pre post m c split u n in
            let (p, s', files) = rebound py owner sid connected (text_of m, t) in
            (
              s',
              files,
              rw (cancel_loaded, e) refl,
              rw c (rebound-messages sid connected (text_of m) t ∙ kept),
            )
        | inr c ↦
            let (p, s', files) = rebound py owner sid connected (text_of m, s) in
            let e = cancel_refused now s c in
            let text : last_user_value "text" s.messages ≡ text_of m =
              rw (split, last_user_content-last "text" pre m post u n) (sym (text_of-get m)) in
            (
              s',
              files,
              rw (cancel_loaded, e, text) refl,
              rw c (rebound-messages sid connected (text_of m) s ∙ split),
            )
      ]
