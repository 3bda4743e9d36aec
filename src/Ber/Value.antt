-- ===== src/Ber/Value.antt =====
-- The dispatch on the tag in core/snmp_encoder.c and core/snmp_decoder.c. A value is the memory
-- that the `void *` points to: a word for a number, an array of words for an object identifier, and
-- bytes for a string.
pub mod RoundTrip
pub mod Sizes
use smithsnmp.Base.{
  ℕ, Bool, ◌||◌, Option, some, List, [], ◌∷◌, ◌==◌, if◌then◌else◌, length, take, le32, read32,
  read_words, words,
}
use smithsnmp.Asn1.{
  asn1_tag_int, asn1_tag_cnt, asn1_tag_gau, asn1_tag_timeticks, asn1_tag_objid, asn1_tag_octstr,
  asn1_tag_ipaddr,
}
use smithsnmp.Ber.Int.{
  ber_int_enc_try, ber_int_enc, ber_uint_enc_try, ber_uint_enc, ber_int_dec, ber_uint_dec,
}
use smithsnmp.Ber.Oid.{oid_size, ber_oid_enc_try, ber_oid_enc, ber_oid_dec, ber_oid_dec_try}

-- The cases of the `switch` statements.
abbrev pub is_signed : ℕ → Bool
is_signed type = type == asn1_tag_int || type == asn1_tag_cnt

abbrev pub is_unsigned : ℕ → Bool
is_unsigned type = type == asn1_tag_gau || type == asn1_tag_timeticks

abbrev pub is_octets : ℕ → Bool
is_octets type = type == asn1_tag_octstr || type == asn1_tag_ipaddr

-- The size of an encoded value; for an object identifier, where the loop of `ber_oid_enc_try` ends.
unfoldable pub value_size : List ℕ → ℕ → ℕ → ℕ
value_size value len type =
    if is_signed type
    then ber_int_enc_try (read32 value)
    else if is_unsigned type
    then ber_uint_enc_try (read32 value)
    else if type == asn1_tag_objid
    then oid_size (read_words value len)
    else if is_octets type
    then len
    else 0

-- `none` where the loop does not end.
unfoldable pub ber_value_enc_try : List ℕ → ℕ → ℕ → Option ℕ
unfolding ber_oid_enc_try value_size
ber_value_enc_try value len type =
    if type == asn1_tag_objid
    then ber_oid_enc_try (read_words value len)
    else some (value_size value len type)

unfoldable pub ber_value_enc : List ℕ → ℕ → ℕ → List ℕ
ber_value_enc value len type =
    if is_signed type
    then ber_int_enc (read32 value)
    else if is_unsigned type
    then ber_uint_enc (read32 value)
    else if type == asn1_tag_objid
    then ber_oid_enc (read_words value len)
    else if is_octets type
    then take len value
    else []

-- Here `buf` is the `len` bytes of the encoded value.
pub ber_value_dec_try : List ℕ → ℕ → ℕ
ber_value_dec_try [] type = 0
ber_value_dec_try (b ∷ bs) type =
    if is_signed type || is_unsigned type
    then 1
    else if type == asn1_tag_objid
    then ber_oid_dec_try (b ∷ bs)
    else if is_octets type
    then length (b ∷ bs)
    else 0

-- The number of elements, and the bytes that are stored at `value`.
pub ber_value_dec : List ℕ → ℕ → ℕ × List ℕ
ber_value_dec [] type = (0, [])
ber_value_dec (b ∷ bs) type =
    if is_signed type
    then (1, le32 (ber_int_dec (b ∷ bs)))
    else if is_unsigned type
    then (1, le32 (ber_uint_dec (b ∷ bs)))
    else if type == asn1_tag_objid
    then (length (ber_oid_dec (b ∷ bs)), words (ber_oid_dec (b ∷ bs)))
    else if is_octets type
    then (length (b ∷ bs), b ∷ bs)
    else (0, [])
