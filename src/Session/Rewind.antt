-- ===== src/Session/Rewind.antt =====
-- What `cancel_query` and `rewind_to` leave of the history, against a search from the end.
use native.Mathlib.Nat.{add-zero, zero-add, add-suc, suc-add}
use velpos.Prelude.{
  ℕ, zero, suc, ◌+◌, ◌≡◌, refl, sym, ap, ◌∙◌, inl, inr, Bool, true, false, none, some, List, [],
  ◌∷◌, ◌++◌, ◌||◌, arith, any, length, get_elem?, take, drop, Bool-cases, Option-cases,
  length-append,
}
use velpos.Prelude.Result.{ok}
use velpos.Values.{Value, str, ℤ, pos, negsuc}
use velpos.Session.Messages.{Message, is_user, text_of}
use velpos.Session.{Session, idle, is_running, is_idle, last_user_index, cancel_query, rewind_to}

abbrev pub from_user : Message → Bool
from_user m = is_user m.message_type

-- `take` and the indexing at the end of a prefix
take-prefix : (xs ys : List Message) → take (length xs) (xs ++ ys) ≡ xs
take-prefix [] ys = refl
take-prefix (x ∷ xs) ys = rw (take-prefix xs ys)

get_elem?-prefix :
    (xs ys : List Message) (m : Message) → get_elem? (xs ++ m ∷ ys) (length xs) ≡ some m
get_elem?-prefix [] ys m = refl
get_elem?-prefix (x ∷ xs) ys m = get_elem?-prefix xs ys m

-- an index in the part after the prefix
get_elem?-after :
    (xs ys : List Message) (n : ℕ) → get_elem? (xs ++ ys) (length xs + n) ≡ get_elem? ys n
get_elem?-after [] ys n = rw zero-add
get_elem?-after (x ∷ xs) ys n = rw suc-add (get_elem?-after xs ys n)

any-get_elem? :
    (ys : List Message) (n : ℕ) {m : Message}
    → any from_user ys ≡ false
    → get_elem? ys n ≡ some m
    → is_user m.message_type ≡ false
any-get_elem? [] n h e = absurd (ground arith)
any-get_elem? (y ∷ ys) zero {m} h e = let d : y ≡ m = ground arith in rw (← d) (ground arith)
any-get_elem? (y ∷ ys) (suc n) h e = any-get_elem? ys n (ground arith) e

-- A message that is not the user's, or an index out of range, is passed over.
last_user_index-skip :
    (ms : List Message) (n : ℕ)
    → ((m : Message) → get_elem? ms n ≡ some m → is_user m.message_type ≡ false)
    → last_user_index ms (suc n) ≡ last_user_index ms n
unfolding last_user_index
last_user_index-skip ms n h = elim (Option-cases (get_elem? ms n)) [
  | inl e ↦ rw (e, last_user_index)
  | inr (m, e) ↦ rw (e, last_user_index) (rw (h m e))
]

-- The search from index `n` of the later part down passes over messages that are not the user's.
last_user_index-after :
    (pre post : List Message) (m : Message) (n : ℕ)
    → any from_user post ≡ false
    → last_user_index (pre ++ m ∷ post) (suc (length pre + n))
      ≡ last_user_index (pre ++ m ∷ post) (suc (length pre))
last_user_index-after pre post m zero h = rw add-zero
last_user_index-after pre post m (suc n) h = rw add-suc (
    last_user_index-skip (pre ++ m ∷ post) (suc (length pre + n)) (λ x e.
      any-get_elem? post n h (sym (get_elem?-after pre (m ∷ post) (suc n)) ∙ (rw (← add-suc) at e)))
    ∙ last_user_index-after pre post m n h)

last_user_index-here :
    (ms : List Message) (n : ℕ) (m : Message)
    → get_elem? ms n ≡ some m
    → is_user m.message_type ≡ true
    → last_user_index ms (suc n) ≡ some n
unfolding last_user_index
last_user_index-here ms n m e u = rw (e, last_user_index) (rw u)

-- The search finds the last message of the user's, and nothing where there is none.
last_user_index-found :
    (pre post : List Message) (m : Message)
    → is_user m.message_type ≡ true
    → any from_user post ≡ false
    → last_user_index (pre ++ m ∷ post) (length (pre ++ m ∷ post)) ≡ some (length pre)
last_user_index-found pre post m u none_after =
    let size : length (pre ++ m ∷ post) ≡ suc (length pre + length post) =
      omega (arith, length-append {0} pre (m ∷ post)) in
    rw size (
      last_user_index-after pre post m (length post) none_after
      ∙ last_user_index-here (pre ++ m ∷ post) (length pre) m (get_elem?-prefix pre post m) u)

last_user_index-none :
    (ms : List Message) (n : ℕ) → any from_user ms ≡ false → last_user_index ms n ≡ none
unfolding last_user_index
last_user_index-none ms zero h = refl
last_user_index-none ms (suc n) h =
    last_user_index-skip ms n (λ m e. any-get_elem? ms n h e) ∙ last_user_index-none ms n h

-- A query that is cancelled, while it runs or when the session is idle, takes the last user message
-- and all that follows it out of the history, and returns that message's text.
pub cancel_query-last_user :
    (now : ℕ) (s : Session) (pre post : List Message) (m : Message)
    → (is_running s.status || is_idle s.status) ≡ true
    → s.messages ≡ pre ++ m ∷ post
    → is_user m.message_type ≡ true
    → any from_user post ≡ false
    → (s' : Session) × (cancel_query now s ≡ ok (text_of m, s'))
      × (s'.messages ≡ pre)
      × (s'.status ≡ idle)
unfolding cancel_query
cancel_query-last_user now s pre post m can split u none_after =
    let at : last_user_index s.messages (length s.messages) ≡ some (length pre) =
      rw split (last_user_index-found pre post m u none_after) in
    let text : get_elem? s.messages (length pre) ≡ some m =
      rw split (get_elem?-prefix pre post m) in
    let kept : take (length pre) s.messages ≡ pre = rw split (take-prefix pre (m ∷ post)) in
    elim (Bool-cases (is_running s.status)) [
      | inl r ↦ (
        record s {
          messages = take (length pre) s.messages;
          status = idle;
          continue_conversation = true;
          updated_time = some now;
        },
        ground arith,
        kept,
        refl,
      )
      | inr r ↦
          (record s { messages = take (length pre) s.messages }, ground arith, kept, ground arith)
    ]

-- A cancelled query changes no message where the user has sent none, and returns the empty text.
pub cancel_query-no_user :
    (now : ℕ) (s : Session)
    → (is_running s.status || is_idle s.status) ≡ true
    → any from_user s.messages ≡ false
    → (s' : Session) × (cancel_query now s ≡ ok (str "", s'))
      × (s'.messages ≡ s.messages)
      × (s'.status ≡ idle)
unfolding cancel_query
cancel_query-no_user now s can nobody =
    let at = last_user_index-none s.messages (length s.messages) nobody in
    elim (Bool-cases (is_running s.status)) [
      | inl r ↦ (
        record s { status = idle; continue_conversation = true; updated_time = some now },
        rw (r, at),
        refl,
        refl,
      )
      | inr r ↦ (s, rw (can, r, at), refl, ground arith)
    ]

-- On an idle session, cancelling is rewinding to the last user message: the same text, and the same
-- history left.
pub cancel_query-rewind_to :
    (now : ℕ) (s : Session) (pre post : List Message) (m : Message)
    → s.status ≡ idle
    → s.messages ≡ pre ++ m ∷ post
    → is_user m.message_type ≡ true
    → any from_user post ≡ false
    → (p : Value) × (c r : Session) × (cancel_query now s ≡ ok (p, c))
      × (rewind_to now (pos (length pre)) s ≡ ok (p, r))
      × (c.messages ≡ r.messages)
unfolding rewind_to
cancel_query-rewind_to now s pre post m rest split u none_after =
    let (c, e, kept, _) =
      cancel_query-last_user now s pre post m (ground arith) split u none_after in
    let text : get_elem? s.messages (length pre) ≡ some m =
      rw split (get_elem?-prefix pre post m) in
    (
      text_of m,
      c,
      record s {
        messages = take (length pre) s.messages;
        continue_conversation = true;
        updated_time = some now;
      },
      e,
      ground arith,
      kept ∙ sym (rw split (take-prefix pre (m ∷ post))),
    )

split_at :
    (ms : List Message) (n : ℕ) {m : Message}
    → get_elem? ms n ≡ some m
    → (ms ≡ take n ms ++ m ∷ drop (suc n) ms) × (length (take n ms) ≡ n)
split_at [] n e = absurd (ground arith)
split_at (x ∷ xs) zero {m} e = let d : x ≡ m = ground arith in (rw d, refl)
split_at (x ∷ xs) (suc n) {m} e =
    let (q, l) = split_at xs n e in (ap (λ (r : List Message). x ∷ r) q, ap suc l)

-- A rewind is accepted only on an idle session and at a user message; it then leaves exactly the
-- messages before that one, keeps the session idle, and returns the message's text.
pub rewind_to-ok :
    (now : ℕ) (i : ℤ) (s : Session) {p : Value} {s' : Session}
    → rewind_to now i s ≡ ok (p, s')
    → (m : Message) × (post : List Message) × (s.messages ≡ s'.messages ++ m ∷ post)
      × (i ≡ pos (length s'.messages))
      × (is_user m.message_type ≡ true)
      × (p ≡ text_of m)
      × (s.status ≡ idle)
      × (s'.status ≡ idle)
unfolding rewind_to
rewind_to-ok now (negsuc n) s h = absurd (ground arith)
rewind_to-ok now (pos n) s {p} {s'} h = elim (Option-cases (get_elem? s.messages n)) [
  | inl e ↦ absurd (ground arith)
  | inr (m, e) ↦
      let (q, l) = split_at s.messages n e in
      let kept : s'.messages ≡ take n s.messages = ground arith in
      (
        m,
        drop (suc n) s.messages,
        rw kept q,
        rw (kept, l),
        ground arith,
        ground arith,
        ground arith,
        ground arith,
      )
]
