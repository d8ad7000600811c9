-- ===== src/Delivery/InboxWorker/Finish.antt =====
-- The end of a round whose claim nobody has touched.
use velpos.Prelude.{
  ℕ, ◌≡◌, ◌<◌, refl, sym, ap, inl, inr, String, Bool, true, some, arith, List, [], ◌∷◌, Memᴰ, ◌==◌,
  nat_eq, Bool-cases, false, leb, or_text, take_chars, if◌then◌else◌,
}
use velpos.Prelude.Result.{ok}
use velpos.Values.{Runtime}
use velpos.Delivery.Inbox.{ImInboxEvent, ImInboxStatus, max_error_length}
use velpos.Delivery.Policy.{ImDeliveryPolicy}
use velpos.Delivery.InboxTable.{
  InboxRow, InboxTable, is_processing, find_row, update_row, apply, write, save, locked_owned_model,
  claim_next,
}
use velpos.Delivery.InboxTable.Claim.{claim_next-IsClaim, claimed_fields}
use velpos.Delivery.InboxWorker.{
  InboxOutcome, Notification, processed, retry, deferred, dead_letter, settle, finish_inbox,
  notify_terminal,
}

test_kept : (a b i : ℕ) {c : Bool} → a ≡ b → (b == i) ≡ c → (a == i) ≡ c
test_kept a b i e h = rw e h

find_row-update :
    (i : ℕ) (f : InboxRow → InboxRow) (rows : List InboxRow) {r : InboxRow}
    → ((x : InboxRow) → (f x).id ≡ x.id)
    → find_row i rows ≡ some r
    → find_row i (update_row i f rows) ≡ some (f r)
unfolding update_row
find_row-update i f [] keeps h = absurd (ground arith)
find_row-update i f (x ∷ xs) {r} keeps h = elim (Bool-cases (x.id == i)) [
  | inl a ↦
      let d : x ≡ r = ground arith in
      rw (a, test_kept (f x).id x.id i (keeps x) a) (ap (λ y. some (f y)) d)
  | inr a ↦ rw (a, a) (find_row-update i f xs keeps (rw a at h))
]

-- The holder's check passes on a row that carries its claim.
owned-claimed :
    (e : ImInboxEvent) (t : InboxTable) {r : InboxRow}
    → find_row e.id t.rows ≡ some r
    → is_processing e.status ≡ true
    → e.lease_attempt_count ≡ e.attempt_count
    → locked_owned_model e (write e t) ≡ ok (apply e r)
unfolding locked_owned_model apply
owned-claimed e t f busy snap =
    rw (find_row-update e.id (apply e) t.rows (λ x. refl) f) (ground arith)

find_row-some :
    (i : ℕ) (rows : List InboxRow) {r : InboxRow}
    → Memᴰ r rows
    → r.id ≡ i
    → (x : InboxRow) × (find_row i rows ≡ some x)
find_row-some i [] m e = elim m [ ]
find_row-some i (y ∷ ys) (Memᴰ.head d) e = (y, ground arith)
find_row-some i (y ∷ ys) (Memᴰ.tail m) e = elim (Bool-cases (y.id == i)) [
  | inl a ↦ (y, rw a)
  | inr a ↦ let (x, f) = find_row-some i ys m e in (x, rw a f)
]

settle-kept :
    (randbelow : ℕ → ℕ) (policy : ImDeliveryPolicy) (now : ℕ) (outcome : InboxOutcome)
    (message : String) (e : ImInboxEvent)
    → let s = settle randbelow policy now outcome message e in
      (s.id ≡ e.id) × (s.lease_attempt_count ≡ e.lease_attempt_count)
unfolding settle
settle-kept randbelow policy now processed message e = ground arith
settle-kept randbelow policy now retry message e = ground arith
settle-kept randbelow policy now deferred message e = ground arith
settle-kept randbelow policy now dead_letter message e = ground arith

-- The holder's own write passes too, since the check goes by the snapshot of the lease.
save-claimed :
    (e s : ImInboxEvent) (t : InboxTable) {r : InboxRow}
    → find_row e.id t.rows ≡ some r
    → is_processing e.status ≡ true
    → e.lease_attempt_count ≡ e.attempt_count
    → 0 < e.attempt_count
    → s.id ≡ e.id
    → s.lease_attempt_count ≡ e.lease_attempt_count
    → save s (write e t) ≡ ok (write s (write e t))
unfolding save locked_owned_model apply
save-claimed e s t f busy snap pos same lease =
    rw (same, find_row-update e.id (apply e) t.rows (λ x. refl) f) (ground arith)

-- The outcomes after which the event is given up: a refused one, and a failure at the last attempt.
abbrev pub gives_up : ImDeliveryPolicy → InboxOutcome → ImInboxEvent → Bool
gives_up policy processed e = false
gives_up policy deferred e = false
gives_up policy dead_letter e = true
gives_up policy retry e = leb policy.max_attempts e.attempt_count

-- One notification if the event is given up, none otherwise.
abbrev pub told : ImDeliveryPolicy → InboxOutcome → String → ImInboxEvent → List Notification
told policy outcome message e =
    if gives_up policy outcome e
    then record {
      session_id = e.session_id;
      delivery_id = e.id;
      error_message =
          take_chars max_error_length (or_text message "Maximum retry attempts reached");
    }
      ∷ []
    else []

-- The status that each outcome leaves.
abbrev pub status_after : ImDeliveryPolicy → InboxOutcome → ImInboxEvent → ImInboxStatus
status_after policy processed e = ImInboxStatus.processed
status_after policy deferred e = ImInboxStatus.retry
status_after policy dead_letter e = ImInboxStatus.dead
status_after policy retry e =
    if leb policy.max_attempts e.attempt_count then ImInboxStatus.dead else ImInboxStatus.retry

settle-told :
    (randbelow : ℕ → ℕ) (policy : ImDeliveryPolicy) (now : ℕ) (outcome : InboxOutcome)
    (message : String) (e : ImInboxEvent)
    → let s = settle randbelow policy now outcome message e in
      (notify_terminal s ≡ told policy outcome message e)
      × (s.status ≡ status_after policy outcome e)
unfolding settle
settle-told randbelow policy now processed message e = (refl, refl)
settle-told randbelow policy now deferred message e = (refl, refl)
settle-told randbelow policy now dead_letter message e = (refl, refl)
settle-told randbelow policy now retry message e =
    elim (Bool-cases (leb policy.max_attempts e.attempt_count)) [
      | inl h ↦ rw h (refl, refl)
      | inr h ↦ rw h (refl, refl)
    ]

-- A worker whose claim nobody touched finishes: for every outcome, also one that gives the attempt
-- back, the write is accepted, with the status of the outcome. The web client gets one notification,
-- with the event's session and the error message, if the event was refused or failed at its last
-- attempt, and none otherwise.
pub undisturbed_finish :
    (py : Runtime) (locked : ℕ → Bool) (now lease_seconds claim_now : ℕ) (t : InboxTable)
    {e : ImInboxEvent} {t' : InboxTable} (randbelow : ℕ → ℕ) (policy : ImDeliveryPolicy) (later : ℕ)
    (outcome : InboxOutcome) (message : String)
    → claim_next py locked now lease_seconds claim_now t ≡ ok (some e, t')
    → let s = settle randbelow policy later outcome message e in
      (finish_inbox randbelow policy later outcome message e t'
        ≡ ok (write s t', told policy outcome message e))
      × (s.status ≡ status_after policy outcome e)
unfolding finish_inbox
undisturbed_finish py locked now lease_seconds claim_now t {e} {t'} randbelow policy later outcome
      message q =
    let (row, c) = claim_next-IsClaim py locked now lease_seconds claim_now t q in
    let (same, count, snap, busy, _) = claimed_fields c in
    let (r, f) = find_row-some e.id t.rows c.present (sym same) in
    let (i, l) = settle-kept randbelow policy later outcome message e in
    let s = settle randbelow policy later outcome message e in
    let (notified, ended) = settle-told randbelow policy later outcome message e in
    (rw (c.written, save-claimed e s t f busy snap (omega arith) i l, notified) refl, ended)
