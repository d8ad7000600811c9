-- ===== src/Query/Prepare/Tagged.antt =====
-- Messages that later received the agent's identifier for them (`set_sdk_uuid_for_last_user_message`
-- of backend/domain/session/model/session.py), as the duplicate check reads them.
use velpos.Prelude.{
  String, false, List, [], ◌∷◌, ◌++◌, ◌≡◌, refl, ◌∙◌, ap, ◌==◌, text_eq, arith, Bool-cases, inl,
  inr,
}
use velpos.Prelude.Dict
use velpos.Prelude.Dict.{lookup-insert}
use velpos.Values.{str, Runtime}
use velpos.Session.Messages.{Message}
use velpos.Session.{set_last, awaits_uuid, with_uuid}
use velpos.Query.Command.{Language, RunQueryCommand}
use velpos.Query.Prepare.{
  is_message, find_user_message_index, same_prompt, validate_duplicate_payload,
}

pub data IsTagged : List Message → List Message → Type 0 where
  done : IsTagged [] []
  same : {ms ns : List Message} (m : Message) → IsTagged ms ns → IsTagged (m ∷ ms) (m ∷ ns)
  tagged :
      {ms ns : List Message} (m : Message) (uuid : String)
      → IsTagged ms ns
      → IsTagged (m ∷ ms) (with_uuid uuid m ∷ ns)

pub IsTagged-refl : (ms : List Message) → IsTagged ms ms
IsTagged-refl [] = done
IsTagged-refl (m ∷ ms) = same m (IsTagged-refl ms)

pub set_last-IsTagged :
    (py : Runtime) (uuid : String) (ms : List Message) → IsTagged ms (set_last py uuid ms).1
unfolding set_last
set_last-IsTagged py uuid [] = done
set_last-IsTagged py uuid (m ∷ ms) = elim (Bool-cases (set_last py uuid ms).0) [
  | inl e ↦ rw (set_last, e) (same m (set_last-IsTagged py uuid ms))
  | inr e ↦ elim (Bool-cases (awaits_uuid py m)) [
    | inl a ↦ rw (set_last, e, a) (tagged m uuid (set_last-IsTagged py uuid ms))
    | inr a ↦ rw (set_last, e, a) (same m (set_last-IsTagged py uuid ms))
  ]
]

other_key :
    (key uuid : String) (m : Message)
    → ("sdk_user_message_uuid" == key) ≡ false
    → Dict.lookup key (with_uuid uuid m).content ≡ Dict.lookup key m.content
other_key key uuid m e = lookup-insert "sdk_user_message_uuid" key (str uuid) m.content ∙ rw e refl

pub is_message-with_uuid :
    (id uuid : String) (m : Message) → is_message id (with_uuid uuid m) ≡ is_message id m
unfolding is_message
is_message-with_uuid id uuid m = ground (arith, other_key "message_id" uuid m refl)

pub validate-with_uuid :
    (py : Language) (uuid : String) (m : Message) (c : RunQueryCommand)
    → validate_duplicate_payload py (with_uuid uuid m) c ≡ validate_duplicate_payload py m c
unfolding validate_duplicate_payload same_prompt
validate-with_uuid py uuid m c =
    rw
      (
        other_key "text" uuid m refl,
        other_key "raw_prompt" uuid m refl,
        other_key "attachments" uuid m refl,
      )
      refl

pub find-IsTagged :
    (id : String) {ms ns : List Message}
    → IsTagged ms ns
    → find_user_message_index ns id ≡ find_user_message_index ms id
unfolding find_user_message_index
find-IsTagged id done = refl
find-IsTagged id (same m t) = ground (arith, find-IsTagged id t)
find-IsTagged id (tagged m uuid t) =
    ground (arith, find-IsTagged id t, is_message-with_uuid id uuid m)

-- A message that the duplicate check reads as another one.
pub record ReadsAs (own m : Message) : Type 0 where
  pub is_message-same : (id : String) → is_message id own ≡ is_message id m
  pub validate-same :
      (py : Language) (c : RunQueryCommand)
      → validate_duplicate_payload py own c ≡ validate_duplicate_payload py m c

ReadsAs-with_uuid : (uuid : String) (m : Message) → ReadsAs (with_uuid uuid m) m
ReadsAs-with_uuid uuid m = record {
  is_message-same = λ id. is_message-with_uuid id uuid m;
  validate-same = λ py c. validate-with_uuid py uuid m c;
}

ReadsAs-refl : (m : Message) → ReadsAs m m
ReadsAs-refl m = record { is_message-same = λ id. refl; validate-same = λ py c. refl }

pub IsTagged-last :
    (ms : List Message) (m : Message) {ns : List Message}
    → IsTagged (ms ++ m ∷ []) ns
    → (front : List Message) × (own : Message) × (ns ≡ front ++ own ∷ [])
      × IsTagged ms front
      × ReadsAs own m
IsTagged-last [] m (same m' done) = ([], m, refl, done, ReadsAs-refl m)
IsTagged-last [] m (tagged m' uuid done) =
    ([], with_uuid uuid m, refl, done, ReadsAs-with_uuid uuid m)
IsTagged-last (x ∷ ms) m (same x' t) =
    let (front, own, e, k, r) = IsTagged-last ms m t in
    (x ∷ front, own, ap (λ (l : List Message). x ∷ l) e, same x k, r)
IsTagged-last (x ∷ ms) m (tagged x' uuid t) =
    let (front, own, e, k, r) = IsTagged-last ms m t in
    (
      with_uuid uuid x ∷ front,
      own,
      ap (λ (l : List Message). with_uuid uuid x ∷ l) e,
      tagged x uuid k,
      r,
    )
