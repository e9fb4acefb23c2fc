-- ===== src/Base/Results.antt =====
-- Go's (value, error) results, with the run-time panic as a third outcome.
use Prim.Native.Nat.{ℕ}
use mathlib.Core.List.{List}
use mathlib.Core.Logic.{◌⊎◌, inl, inr}
use mathlib.Core.Path.{◌≡◌, refl}

-- The `errors.New` and `fmt.Errorf` values of pkg/public/tacplus, one constructor each.
pub data Error : Type 0 where
  bad_packet : Error
  user_too_large port_too_large rem_addr_too_large data_too_large : Error
  server_msg_too_large message_too_large too_many_args arg_too_long : Error
  session_closed session_id_in_use connection_closed invalid_seq_no : Error
  session_not_found unexpected_eof packet_queue_full packet_too_large : Error
  mux_not_supported too_many_packets : Error
  unsupported_major unsupported_authen_minor unsupported_author_minor : ℕ → Error
  unsupported_acct_minor invalid_session_type : ℕ → Error
  -- `fmt.Errorf("Bad ServerAddr ...: %s", err)` of the three kinds of reply.
  bad_authen_reply bad_author_response bad_acct_reply : Error → Error
  -- io.EOF, and any other error of the network connection or of a context, with its text.
  eof : Error
  external : List ℕ → Error

pub data Result {ℓ} (A : Type ℓ) : Type ℓ where
  ok : A → Result A
  err : Error → Result A
  panic : Result A

infixl 5 ◌>>=◌
abbrev pub ◌>>=◌ {ℓ κ} : {A : Type ℓ} {B : Type κ} → Result A → (A → Result B) → Result B
ok a >>= f = f a
err e >>= f = err e
panic >>= f = panic

-- An outcome of a decoder: a value or errBadPacket, and no run-time panic.
abbrev pub Decodes {ℓ} : {A : Type ℓ} → Result A → Type 0
Decodes (ok a) = Unit
Decodes (err bad_packet) = Unit
Decodes (err _) = ⊥
Decodes panic = ⊥

pub bind-Decodes {ℓ κ} :
    {A : Type ℓ} {B : Type κ} (m : Result A) (k : A → Result B)
    → Decodes m
    → ((a : A) → Decodes (k a))
    → Decodes (m >>= k)
bind-Decodes (ok a) k h f = f a
bind-Decodes (err bad_packet) k h f = tt
bind-Decodes (err _) k h f = absurd h
bind-Decodes panic k h f = h

pub Decodes-cases {ℓ} :
    {A : Type ℓ} (r : Result A) → Decodes r → ((a : A) × (r ≡ ok a)) ⊎ (r ≡ err bad_packet)
Decodes-cases (ok a) h = inl (a, refl)
Decodes-cases (err bad_packet) h = inr refl
Decodes-cases (err _) h = absurd h
Decodes-cases panic h = absurd h
