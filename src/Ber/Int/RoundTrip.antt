-- ===== src/Ber/Int/RoundTrip.antt =====
-- Decoding gives back the encoded integer, and the length that is announced is the one written.
use smithsnmp.Base.{
  ℕ, zero, suc, ◌+◌, ◌^◌, ◌≤◌, ◌<◌, ◌≡◌, refl, arith, List, [], ◌∷◌, length, has_bit7, has_bit7_lem,
  byte_of, IsWord, leb,
}
use smithsnmp.Ber.Int.{
  bytes_down, int_top, ber_int_enc_try, ber_int_enc, uint_top, ber_uint_enc_try, ber_uint_enc,
  ber_int_dec, ber_uint_dec,
}

length-bytes_down : (v i : ℕ) → length (bytes_down v i) ≡ i + 1
unfolding bytes_down
length-bytes_down v zero = refl
length-bytes_down v (suc i) = omega (arith, length-bytes_down v i)

-- Every 32-bit number is read back by `ber_uint_dec` from what `ber_uint_enc` wrote.
pub ber_uint_dec-ber_uint_enc : (v : ℕ) → IsWord v → ber_uint_dec (ber_uint_enc v) ≡ v
unfolding ber_uint_dec ber_uint_enc
ber_uint_dec-ber_uint_enc v h = ground (
  arith,
  has_bit7_lem (byte_of v 0) (omega arith),
  has_bit7_lem (byte_of v 1) (omega arith),
  has_bit7_lem (byte_of v 2) (omega arith),
  has_bit7_lem (byte_of v 3) (omega arith),
)

module _ (v : ℕ) (h : IsWord v) where
  top_bits :
      (has_bit7 (byte_of v 0) ≡ leb 128 (byte_of v 0))
      × (has_bit7 (byte_of v 1) ≡ leb 128 (byte_of v 1))
      × (has_bit7 (byte_of v 2) ≡ leb 128 (byte_of v 2))
      × (has_bit7 (byte_of v 3) ≡ leb 128 (byte_of v 3))
  top_bits = (
    has_bit7_lem (byte_of v 0) (omega arith),
    has_bit7_lem (byte_of v 1) (omega arith),
    has_bit7_lem (byte_of v 2) (omega arith),
    has_bit7_lem (byte_of v 3) (omega arith),
  )

  small : v < 2 ^ 16 → ber_int_dec (ber_int_enc v) ≡ v
  unfolding ber_int_dec ber_int_enc
  small low = ground (arith, top_bits)

  large : 2 ^ 16 ≤ v → v < 2 ^ 31 → ber_int_dec (ber_int_enc v) ≡ v
  unfolding ber_int_dec ber_int_enc
  large high low = ground (arith, top_bits)

  negative : 2 ^ 31 ≤ v → ber_int_dec (ber_int_enc v) ≡ v
  unfolding ber_int_dec ber_int_enc
  negative high = ground (arith, top_bits)

-- Every 32-bit pattern is read back by `ber_int_dec` from what `ber_int_enc` wrote.
pub ber_int_dec-ber_int_enc : (v : ℕ) → IsWord v → ber_int_dec (ber_int_enc v) ≡ v
ber_int_dec-ber_int_enc v h = ground (arith, small v h, large v h, negative v h)

-- No shorter encoding stands for the same integer: the first nine bits are not all equal.
abbrev pub IsMinimal : List ℕ → Type 0
IsMinimal [] = ⊥
IsMinimal (b ∷ []) = Unit
IsMinimal (b ∷ c ∷ bs) = ¬ ((b ≡ 0) × (c < 128)) × ¬ ((b ≡ 255) × (128 ≤ c))

-- `ber_int_enc` writes the shortest two's complement of a 32-bit pattern: its first nine bits are
-- not all equal.
pub ber_int_enc-IsMinimal : (v : ℕ) → IsWord v → IsMinimal (ber_int_enc v)
unfolding ber_int_enc
ber_int_enc-IsMinimal v h = ground (arith, top_bits v h)

pub ber_int_enc_try-length :
    (v : ℕ) → IsWord v → (ber_int_enc_try v ≡ length (ber_int_enc v)) × (ber_int_enc_try v ≤ 4)
unfolding ber_int_enc_try ber_int_enc
ber_int_enc_try-length v h = ground (arith, top_bits v h)

pub ber_uint_enc_try-length :
    (v : ℕ) → IsWord v → (ber_uint_enc_try v ≡ length (ber_uint_enc v)) × (ber_uint_enc_try v ≤ 5)
unfolding ber_uint_enc_try ber_uint_enc
ber_uint_enc_try-length v h = ground (arith, top_bits v h)

pub ber_int_enc-nonempty : (v : ℕ) → 0 < length (ber_int_enc v)
unfolding ber_int_enc
ber_int_enc-nonempty v = ground (arith, length-bytes_down v (int_top v))

pub ber_uint_enc-nonempty : (v : ℕ) → 0 < length (ber_uint_enc v)
unfolding ber_uint_enc
ber_uint_enc-nonempty v = ground (arith, length-bytes_down v (uint_top v))
