-- ===== src/Base/Bits.antt =====
-- Masks on one byte as arithmetic. Each fact is a table of at most 256 entries.
use Prim.Native.Nat.{ℕ, zero, suc, ◌+◌, ◌*◌, ◌/◌, ◌%◌, ◌<◌, bit_and, bit_or}
use mathlib.Core.Path.{◌≡◌, refl}
use mathlib.Core.Bool.{Bool, true, ◌&&◌}
use native.Mathlib.Omega.{arith}
use smithsnmp.Base.Tests.{◌==◌, ==_iff}

check_below : ℕ → (ℕ → Bool) → Bool
check_below zero p = true
check_below (suc n) p = p n && check_below n p

check_below_sound : (n : ℕ) (p : ℕ → Bool) → check_below n p ≡ true → (x : ℕ) → x < n → p x ≡ true
unfolding check_below
check_below_sound zero p h x lt = absurd (omega arith)
check_below_sound (suc n) p h x lt = ground (arith, check_below_sound n p (ground arith) x)

byte_law : (f g : ℕ → ℕ) → check_below 256 (λ x. f x == g x) ≡ true → (x : ℕ) → x < 256 → f x ≡ g x
byte_law f g h x lt = (==_iff (f x) (g x)).0 (check_below_sound 256 (λ x. f x == g x) h x lt)

-- `b & 0x7f`
pub bit_and_low7 : (b : ℕ) → b < 256 → bit_and b 0x7f ≡ b % 128
unfolding check_below
bit_and_low7 = byte_law (λ b. bit_and b 0x7f) (λ b. b % 128) refl

-- `b & 0x80`
pub bit_and_bit7 : (b : ℕ) → b < 256 → bit_and b 0x80 ≡ b / 128 * 128
unfolding check_below
bit_and_bit7 = byte_law (λ b. bit_and b 0x80) (λ b. b / 128 * 128) refl

-- `b | 0x80`
pub bit_or_bit7 : (b : ℕ) → b < 256 → bit_or b 0x80 ≡ b % 128 + 128
unfolding check_below
bit_or_bit7 = byte_law (λ b. bit_or b 0x80) (λ b. b % 128 + 128) refl
