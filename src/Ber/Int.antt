-- ===== src/Ber/Int.antt =====
-- Integers of core/snmp_encoder.c and core/snmp_decoder.c, on a little-endian machine. The bytes
-- that an encoder writes are its result, and their number is what the C function returns.
pub mod RoundTrip
use smithsnmp.Base.{
  ℕ, zero, suc, ◌+◌, ◌-◌, ◌*◌, ◌/◌, ◌%◌, ◌^◌, Bool, not, List, [], ◌∷◌, ◌++◌, ◌==◌, if◌then◌else◌,
  length, has_bit7, byte_of, is_negative, shl8_or,
}

-- `while (i > 0 && p(a.buf[i])) i--;`
unfoldable pub scan_down : (ℕ → Bool) → ℕ → ℕ → ℕ
scan_down p v zero = zero
scan_down p v (suc i) = if p (byte_of v (suc i)) then scan_down p v i else suc i

-- `while (i >= 0) buf[j++] = a.buf[i--];`
unfoldable pub bytes_down : ℕ → ℕ → List ℕ
bytes_down v zero = byte_of v 0 ∷ []
bytes_down v (suc i) = byte_of v (suc i) ∷ bytes_down v i

-- The index of the highest byte that carries information, and whether a sign byte is needed.
pub int_top : ℕ → ℕ
unfolding scan_down
int_top v = if is_negative v then scan_down (λ b. b == 0xff) v 3 else scan_down (λ b. b == 0) v 3

pub int_pad : ℕ → Bool
unfolding int_top
int_pad v =
    let top = byte_of v (int_top v) in if is_negative v then not (has_bit7 top) else has_bit7 top

pub ber_int_enc_try : ℕ → ℕ
unfolding int_pad
ber_int_enc_try v = (if int_pad v then 1 else 0) + (int_top v + 1)

unfoldable pub ber_int_enc : ℕ → List ℕ
unfolding int_pad bytes_down
ber_int_enc v =
    (if int_pad v then (if is_negative v then 0xff else 0) ∷ [] else []) ++ bytes_down v (int_top v)

unfoldable pub uint_top : ℕ → ℕ
unfolding scan_down
uint_top v = scan_down (λ b. b == 0) v 3

pub ber_uint_enc_try : ℕ → ℕ
unfolding uint_top
ber_uint_enc_try v = (if has_bit7 (byte_of v (uint_top v)) then 1 else 0) + (uint_top v + 1)

pub ber_uint_enc : ℕ → List ℕ
unfolding uint_top bytes_down
ber_uint_enc v =
    (if has_bit7 (byte_of v (uint_top v)) then 0 ∷ [] else []) ++ bytes_down v (uint_top v)

-- `while (i < len) *value = (*value << 8) | buf[i++];`
unfoldable pub shift_in : ℕ → List ℕ → ℕ
shift_in value [] = value
shift_in value (b ∷ bs) = shift_in (shl8_or value b) bs

-- The loop that fills the high bytes of a negative number with ones.
pub sign_fill : ℕ → ℕ → ℕ
sign_fill zero value = value
sign_fill (suc k) value = sign_fill k (shl8_or value 0xff)

-- `sizeof(int) - len` is unsigned. For more than four bytes it wraps, and the `int` counter meets
-- it modulo 2 ^ 32.
abbrev pub fill_rounds : ℕ → ℕ
fill_rounds len = (2 ^ 32 + 4 - len) % 2 ^ 32

-- The list is the `len` bytes at `buf`; the callers pass no empty one.
pub ber_int_dec : List ℕ → ℕ
unfolding shift_in sign_fill
ber_int_dec [] = 0
ber_int_dec (b ∷ bs) =
    if has_bit7 b
    then shift_in (sign_fill (fill_rounds (length (b ∷ bs))) 0) (b ∷ bs)
    else (if b == 0 then shift_in 0 bs else shift_in 0 (b ∷ bs))

pub ber_uint_dec : List ℕ → ℕ
unfolding shift_in
ber_uint_dec [] = 0
ber_uint_dec (b ∷ bs) = if b == 0 then shift_in 0 bs else shift_in 0 (b ∷ bs)
