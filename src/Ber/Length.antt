-- ===== src/Ber/Length.antt =====
-- Length octets of core/snmp_encoder.c and core/snmp_decoder.c.
pub mod RoundTrip
use smithsnmp.Base.{
  ℕ, zero, suc, ◌+◌, ◌*◌, ◌%◌, ◌^◌, bit_and, bit_or, Option, none, some, List, [], ◌∷◌, ◌++◌, ltb,
  leb, ◌==◌, if◌then◌else◌, length, take, has_bit7, byte_of,
}
use smithsnmp.Ber.Int.{bytes_down, shift_in, uint_top}

-- The index `i` at which the scan of the four bytes stops is that of the unsigned encoder.
unfoldable pub ber_length_enc_try : ℕ → ℕ
unfolding uint_top
ber_length_enc_try value = (if ltb 127 value then 1 else 0) + (uint_top value + 1)

unfoldable pub ber_length_enc : ℕ → List ℕ
unfolding uint_top bytes_down
ber_length_enc value =
    (if ltb 127 value then bit_or 0x80 (uint_top value + 1) ∷ [] else [])
    ++ bytes_down value (uint_top value)

-- The next `n` bytes; `none` is a read behind the end of the buffer.
pub read_bytes : ℕ → List ℕ → Option (List ℕ)
read_bytes n bs = if leb n (length bs) then some (take n bs) else none

pub ber_length_dec_try : List ℕ → Option ℕ
ber_length_dec_try [] = none
ber_length_dec_try (b ∷ bs) = some (1 + (if has_bit7 b then bit_and b 0x7f else 0))

-- The number of length octets, and the length that they stand for.
unfoldable pub ber_length_dec : List ℕ → Option (ℕ × ℕ)
unfolding read_bytes shift_in
ber_length_dec [] = none
ber_length_dec (b ∷ bs) =
    if has_bit7 b
    then elim (read_bytes (bit_and b 0x7f) bs) [
      | none ↦ none
      | some octets ↦ some (1 + bit_and b 0x7f, shift_in 0 octets)
    ]
    else some (1, shift_in 0 (b ∷ []))
