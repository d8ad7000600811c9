-- ===== src/Binding/ChannelInit/Life.antt =====
-- The life of a channel under the methods of `ChannelInit` (channel_init.py).
use velpos.Prelude.{
  ℕ, ◌≡◌, refl, String, Bool, true, false, [], ◌∷◌, arith, ◌||◌, not, Bool-cases, ◌==◌, text_eq,
  inl, inr,
}
use velpos.Prelude.Result.{Result, ok, err, ◌>>=◌}
use velpos.Prelude.Dict.{Dict, insert, update}
use velpos.Values.{Value}
use velpos.Binding.ImBinding.{ImChannelType}
use velpos.Binding.ChannelInit.{
  ChannelInit, ready, InitError, not_initializing, is_ready, create, rename, start_init,
  complete_init, fail_init, mark_credentials_expired, reset, update_config,
}

-- The methods of a channel.
pub data InitOp : Type 0 where
  name : String → InitOp
  start : InitOp
  complete : Dict Value → InitOp
  fail expire : String → InitOp
  clear : InitOp
  configure : Dict Value → InitOp

unfoldable pub run_op : (now : ℕ) → InitOp → ChannelInit → Result InitError ChannelInit
unfolding rename start_init complete_init fail_init mark_credentials_expired reset update_config
run_op now (name n) c = ok (rename now n c)
run_op now start c = start_init now c
run_op now (complete config) c = complete_init now config c
run_op now (fail message) c = fail_init now message c
run_op now (expire message) c = ok (mark_credentials_expired now message c)
run_op now clear c = ok (reset now c)
run_op now (configure updates) c = ok (update_config now updates c)

-- Accepted calls, one after another.
pub data InitHistory (c : ChannelInit) : ChannelInit → Type 0 where
  created : InitHistory c c
  call :
      {a b : ChannelInit} (now : ℕ) (op : InitOp)
      → InitHistory c a
      → run_op now op a ≡ ok b
      → InitHistory c b

abbrev pub has_entries : Dict Value → Bool
has_entries [] = false
has_entries (x ∷ d) = true

insert-has_entries : (k : String) (v : Value) (d : Dict Value) → has_entries (insert k v d) ≡ true
unfolding insert
insert-has_entries k v [] = refl
insert-has_entries k v ((j, w) ∷ d) = elim (Bool-cases (j == k)) [ inl e ↦ rw e | inr e ↦ rw e ]

update-has_entries : (d u : Dict Value) → has_entries d ≡ true → has_entries (update d u) ≡ true
unfolding update
update-has_entries d [] h = h
update-has_entries d ((k, v) ∷ u) h = update-has_entries (insert k v d) u (insert-has_entries k v d)

-- READY only with a configuration
abbrev is_sound : ChannelInit → Bool
is_sound c = not (is_ready c) || has_entries c.config

step-is_sound :
    (now : ℕ) (op : InitOp) (c : ChannelInit) {c' : ChannelInit}
    → is_sound c ≡ true
    → run_op now op c ≡ ok c'
    → is_sound c' ≡ true
unfolding run_op is_ready
step-is_sound now (configure u) c h q = ground (arith, update-has_entries c.config u)
step-is_sound now (complete []) c h q = ground arith
step-is_sound now (complete (x ∷ d)) c h q = ground arith
step-is_sound now _ c h q = ground arith

history-is_sound : {a c : ChannelInit} → InitHistory a c → is_sound a ≡ true → is_sound c ≡ true
history-is_sound created h = h
history-is_sound (call {a} now op past q) h = step-is_sound now op a (history-is_sound past h) q

-- However a new channel is used, it is ready only with a configuration.
pub ready_is_configured :
    (id : String) (now : ℕ) (t : ImChannelType) (channel_name : String) (user_id : ℕ)
    {c : ChannelInit}
    → InitHistory (create id now t channel_name user_id) c
    → is_ready c ≡ true
    → has_entries c.config ≡ true
unfolding is_ready create
ready_is_configured id now t channel_name user_id past h =
    let sound = history-is_sound past refl in ground arith

-- A ready channel whose credentials expired is not ready, refuses a completion until it is started
-- again, and is ready after a start and a completion with a configuration.
pub expired_starts_over :
    (now : ℕ) (message key : String) (value : Value) (rest : Dict Value) (c : ChannelInit)
    → is_ready c ≡ true
    → let config = (key, value) ∷ rest in
      let c' = mark_credentials_expired now message c in
      (is_ready c' ≡ false)
      × (complete_init now config c' ≡ err not_initializing)
      × (d : ChannelInit) × ((start_init now c' >>= complete_init now config) ≡ ok d)
      × (is_ready d ≡ true)
      × (d.config ≡ config)
unfolding is_ready mark_credentials_expired complete_init start_init
expired_starts_over now message key value rest c h = (
  ground arith,
  ground arith,
  record c {
    init_status = ready;
    config = (key, value) ∷ rest;
    error_message = "";
    updated_at = now;
  },
  ground arith,
  refl,
  refl,
)
