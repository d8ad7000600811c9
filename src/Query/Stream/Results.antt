-- ===== src/Query/Stream/Results.antt =====
-- Which messages a consumed stream adds, and whether a result was among them
-- (backend/application/session/session_stream_consumer.py).
use velpos.Prelude.{
  ℕ, String, Bool, true, false, Option, some, List, [], ◌∷◌, ◌++◌, ◌||◌, ◌==◌, text_eq, text_eq_iff,
  any, ◌≡◌, refl, sym, ◌∙◌, ap, arith, Bool-cases, Option-cases, inl, inr,
}
use velpos.Prelude.Result.{Result, ok, err, Result-cases}
use velpos.Values.{Runtime}
use velpos.Session.Messages.{MessageType}
use velpos.Session.{Session}
use velpos.Query.Prepare.{QueryError, recorder_failed, is_result}
use velpos.Query.Stream.{
  StreamMessage, Arrival, message, timeout, broken, message_type_of, Progress, no_progress,
  progress_after, known, next, take_message, take_meta, arrive, consume_from, consume,
}
use velpos.Query.Stream.Outcome.{
  types, kept, take_message-types, take_meta-IsKept, next-left, consume_from-status,
}
use mathlib.Core.List.{append-nil, append_assoc}

-- `message_type_of` knows each type by its own name.
named : (s : String) {t : MessageType} → message_type_of s ≡ some t → (s == "result") ≡ is_result t
named s {t} h = ground (
  arith,
  text_eq_iff s "system",
  text_eq_iff s "user",
  text_eq_iff s "assistant",
  text_eq_iff s "tool_result",
  text_eq_iff s "result",
  text_eq_iff "system" "result",
  text_eq_iff "user" "result",
  text_eq_iff "assistant" "result",
  text_eq_iff "tool_result" "result",
)

abbrev has_result : List MessageType → Bool
has_result = any is_result

has_result-append :
    (xs ys : List MessageType) → has_result (xs ++ ys) ≡ has_result xs || has_result ys
has_result-append [] ys = refl
has_result-append (x ∷ xs) ys = ground (arith, has_result-append xs ys)

kept-cons : (a : Arrival) (rest : List Arrival) → kept (a ∷ rest) ≡ kept (a ∷ []) ++ kept rest
kept-cons broken rest = refl
kept-cons (timeout alive user tasks recorded) rest = refl
kept-cons (message now recorded saved m) rest = elim (Bool-cases (m.message_type == "_meta")) [
  | inl e ↦ rw e refl
  | inr e ↦ elim (Option-cases (message_type_of m.message_type)) [
    | inl n ↦ rw (e, n) refl
    | inr (t, n) ↦ rw (e, n) refl
  ]
]

module _ (py : Runtime) (owner : String → Option String) where
  -- What a round that goes on has done with its arrival.
  abbrev Added : (added : List MessageType) → Progress → Session → Session → Progress → Type 0
  Added added p s s' q =
      (types s'.messages ≡ types s.messages ++ added)
      × (q.got_result ≡ p.got_result || has_result added)

  nothing-Added :
      (p q : Progress) (s s' : Session)
      → types s'.messages ≡ types s.messages
      → q.got_result ≡ p.got_result
      → Added [] p s s' q
  nothing-Added p q s s' a b = (a ∙ sym (append-nil (types s.messages)), ground (arith, b))

  next-ok :
      (p : Progress) (x : Session × Result QueryError (Unit {0})) {q : Progress}
      → (next py owner p x).1 ≡ ok q
      → p ≡ q
  next-ok p (s, ok u) h = ground (arith, h)
  next-ok p (s, err e) h = absurd (ground (arith, h))

  known-Added :
      (now : ℕ) (recorded : Bool) (p : Progress) (t : MessageType) (m : StreamMessage) (s : Session)
      {q : Progress}
      → message_type_of m.message_type ≡ some t
      → (known py owner now recorded p (some t) m s).1 ≡ ok q
      → Added (t ∷ []) p s (known py owner now recorded p (some t) m s).0 q
  known-Added now recorded p t m s {q} n h =
      let x = take_message py owner now recorded p t m s in
      let e : progress_after py owner p m ≡ q = next-ok (progress_after py owner p m) x h in
      let f : (next py owner (progress_after py owner p m) x).0 ≡ x.0 =
        next-left py owner (progress_after py owner p m) x in
      (
        ap (λ (z : Session). types z.messages) f
            ∙ (take_message-types py owner now recorded p t m s).0,
        ground (arith, named m.message_type n, ap (λ (z : Progress). z.got_result) e),
      )

  meta-Added :
      (saved : Bool) (p : Progress) (m : StreamMessage) (s : Session) {q : Progress}
      → (next py owner p (take_meta py owner saved m s)).1 ≡ ok q
      → Added [] p s (next py owner p (take_meta py owner saved m s)).0 q
  meta-Added saved p m s {q} h =
      let x = take_meta py owner saved m s in
      let f : (next py owner p x).0 ≡ x.0 = next-left py owner p x in
      nothing-Added p q s (next py owner p x).0
        (ap (λ (z : Session). types z.messages) f ∙ (take_meta-IsKept py owner saved m s).0)
        (ap (λ (z : Progress). z.got_result) (sym (next-ok p x h)))

  arrive-Added :
      (limit : ℕ) (p : Progress) (a : Arrival) (s : Session) {q : Progress}
      → (arrive py owner limit p a s).1 ≡ ok q
      → Added (kept (a ∷ [])) p s (arrive py owner limit p a s).0 q
  unfolding arrive
  arrive-Added limit p broken s h = absurd (ground (arith, h))
  arrive-Added limit p (timeout alive user tasks recorded) s {q} h =
      nothing-Added p q s (arrive py owner limit p (timeout alive user tasks recorded) s).0
        (ground arith) (ground (arith, h))
  arrive-Added limit p (message now recorded saved m) s {q} h =
      let p0 : Progress = record p { silent_timeouts = 0 } in
      elim (Bool-cases (m.message_type == "_meta")) [
        | inl e ↦ rw e (meta-Added saved p0 m s (rw e at h))
        | inr e ↦ elim (Option-cases (message_type_of m.message_type)) [
          | inl n ↦
              let d : p0 ≡ q = next-ok p0 (s, ok tt) (rw (e, n) at h) in
              rw (e, n) (nothing-Added p q s s refl (ap (λ (z : Progress). z.got_result) (sym d)))
          | inr (t, n) ↦ rw (e, n) (known-Added now recorded p t m s n (rw (e, n) at h))
        ]
      ]

  got :
      (p : Progress) {b : Bool}
      → ◌≡◌ {A = Result QueryError Bool} (ok p.got_result) (ok b)
      → b ≡ p.got_result || false
  got p e = ground (arith, e)

  ended {ℓ} :
      {A : Type ℓ} (x : QueryError) {b : Bool} → ◌≡◌ {A = Result QueryError Bool} (err x) (ok b) → A
  ended x e = absurd (ground (arith, e))

  consume_from-end :
      (limit : ℕ) (recorded : Bool) (p : Progress) (s : Session) {b : Bool}
      → (consume_from py owner limit recorded p [] s).1 ≡ ok b
      → (types (consume_from py owner limit recorded p [] s).0.messages ≡ types s.messages ++ [])
        × (b ≡ p.got_result || false)
  unfolding consume_from
  consume_from-end limit true p s h = (sym (append-nil (types s.messages)), got p h)
  consume_from-end limit false p s h = ended recorder_failed h

  consume_from-Added :
      (limit : ℕ) (recorded : Bool) (p : Progress) (arrivals : List Arrival) (s : Session)
      {b : Bool}
      → (consume_from py owner limit recorded p arrivals s).1 ≡ ok b
      → (types (consume_from py owner limit recorded p arrivals s).0.messages
          ≡ types s.messages ++ kept arrivals)
        × (b ≡ p.got_result || has_result (kept arrivals))
  unfolding consume_from
  consume_from-Added limit recorded p [] s {b} h = consume_from-end limit recorded p s h
  consume_from-Added limit recorded p (a ∷ rest) s {b} h =
      let (s', r) = arrive py owner limit p a s in
      elim (Result-cases r) [
        | inl (x, k) ↦ ended x (rw (consume_from, k) at h)
        | inr (q, k) ↦
            let (m, g) = arrive-Added limit p a s k in
            let (n, f) = consume_from-Added limit recorded q rest s' (rw (consume_from, k) at h) in
            rw (consume_from, k)
              (
                n
                    ∙ ap (λ l. l ++ kept rest) m
                    ∙ append_assoc (types s.messages) (kept (a ∷ [])) (kept rest)
                    ∙ ap (λ l. types s.messages ++ l) (sym (kept-cons a rest)),
                ground (
                  arith,
                  f,
                  g,
                  ap has_result (kept-cons a rest),
                  has_result-append (kept (a ∷ [])) (kept rest),
                ),
              )
      ]

  -- If a stream is consumed without an exception, the session has its old messages and, in order,
  -- one for each arrival of a known type, and it is reported whether a result was among these. With
  -- or without an exception the status is as before.
  pub consume-messages :
      (limit : ℕ) (recorded : Bool) (arrivals : List Arrival) (s : Session)
      → ((consume py owner limit recorded arrivals s).0.status ≡ s.status)
        × ((b : Bool)
            → (consume py owner limit recorded arrivals s).1 ≡ ok b
            → (types (consume py owner limit recorded arrivals s).0.messages
                ≡ types s.messages ++ kept arrivals)
              × (b ≡ has_result (kept arrivals)))
  unfolding consume
  consume-messages limit recorded arrivals s = (
    consume_from-status py owner limit recorded no_progress arrivals s,
    λ b h. consume_from-Added limit recorded no_progress arrivals s h,
  )
