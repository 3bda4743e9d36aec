-- ===== src/Ber/Value/Sizes.antt =====
-- The sizes that the callers allocate are those that the codecs use.
use smithsnmp.Base.{
  ℕ, ◌<◌, ◌≤◌, ◌≡◌, refl, arith, List, [], ◌∷◌, length, IsByte, All, read32, read32-IsWord,
  read_words-IsWord, length-read_words, read_words, length-take,
}
use smithsnmp.Asn1.{asn1_tag_objid}
use smithsnmp.Ber.Int.RoundTrip.{ber_int_enc_try-length, ber_uint_enc_try-length}
use smithsnmp.Ber.Oid.Sizes.{oid_size-length, ber_oid_dec_try-length, oid_size_exact}
use smithsnmp.Ber.Value.{value_size, ber_value_enc, ber_value_dec_try, ber_value_dec}

-- `ber_value_dec_try` is the number of elements that `ber_value_dec` reads, for every buffer and
-- type.
pub ber_value_dec_try-ber_value_dec :
    (buf : List ℕ) (type : ℕ) → ber_value_dec_try buf type ≡ (ber_value_dec buf type).0
unfolding ber_value_dec_try ber_value_dec
ber_value_dec_try-ber_value_dec [] type = refl
ber_value_dec_try-ber_value_dec (b ∷ bs) type = ground (arith, ber_oid_dec_try-length b bs)

-- `value_size` is the number of bytes that `ber_value_enc` writes, for memory that holds
-- bytes, at least one for each element; an object identifier has at most 52 numbers.
pub value_size-ber_value_enc :
    (value : List ℕ) (len type : ℕ)
    → All IsByte value
    → len ≤ length value
    → (type ≡ asn1_tag_objid → len ≤ 52)
    → value_size value len type ≡ length (ber_value_enc value len type)
unfolding value_size ber_value_enc
value_size-ber_value_enc value len type bytes room short = ground (
  arith,
  ber_int_enc_try-length (read32 value) (read32-IsWord value bytes),
  ber_uint_enc_try-length (read32 value) (read32-IsWord value bytes),
  oid_size_exact (read_words value len) (read_words-IsWord value len bytes),
  length-read_words value len,
  length-take len value,
)

-- What is announced for an identifier is a byte.
pub value_size-objid : (value : List ℕ) (len : ℕ) → value_size value len asn1_tag_objid < 256
unfolding value_size
value_size-objid value len = omega (arith, oid_size-length (read_words value len))
