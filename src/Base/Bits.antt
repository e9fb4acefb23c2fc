-- ===== src/Base/Bits.antt =====
-- Laws of `^` and `&` on bytes, read off their tables.
use tacacs_plus_go.Base.Tests.{ltb, ◌==◌}
use tacacs_plus_go.Base.Bytes.{IsByte}
use Prim.Native.Nat.{ℕ, zero, suc, ◌<◌, bit_xor}
use mathlib.Core.Bool.{Bool, true, ◌&&◌}
use mathlib.Core.Path.{◌≡◌, refl}
use native.Mathlib.Omega.{arith}

-- A test passes at every number below a bound.
below_all : ℕ → (ℕ → Bool) → Bool
below_all zero p = true
below_all (suc n) p = p n && below_all n p

below_all_at : (n : ℕ) (p : ℕ → Bool) (x : ℕ) → below_all n p ≡ true → x < n → p x ≡ true
unfolding below_all
below_all_at zero p x h lt = absurd (omega arith)
below_all_at (suc n) p x h lt = ground (arith, below_all_at n p x)

xor_test : ℕ → ℕ → Bool
xor_test k x = (bit_xor (bit_xor x k) k == x) && ltb (bit_xor x k) 256

xor_row : ℕ → Bool
xor_row k = below_all 256 (xor_test k)

xor_table : below_all 256 xor_row ≡ true
unfolding below_all xor_row xor_test
xor_table = refl

xor_test_passes : (x k : ℕ) → IsByte x → IsByte k → xor_test k x ≡ true
unfolding xor_row
xor_test_passes x k hx hk =
    below_all_at 256 (xor_test k) x (below_all_at 256 xor_row k xor_table hk) hx

-- Masking a byte twice with the same byte gives it back, and a masked byte is a byte.
pub xor_twice :
    (x k : ℕ) → IsByte x → IsByte k → (bit_xor (bit_xor x k) k ≡ x) × IsByte (bit_xor x k)
unfolding xor_test
xor_twice x k hx hk = ground (arith, xor_test_passes x k hx hk)
