-- ===== src/Ber/Value/RoundTrip.antt =====
-- Every value that fits its tag survives encoding and decoding.
use smithsnmp.Base.{
  take-length, ℕ, ◌<◌, ◌≡◌, refl, ap, ◌∙◌, arith, true, List, [], ◌∷◌, append-nil, sym, length,
  take, le32, read32, read32-le32, read_words, words, read_words-words, IsWord, All,
}
use smithsnmp.Asn1.{asn1_tag_objid}
use smithsnmp.Ber.Int.{ber_int_enc, ber_uint_enc, ber_int_dec, ber_uint_dec}
use smithsnmp.Ber.Int.RoundTrip.{
  ber_int_dec-ber_int_enc, ber_uint_dec-ber_uint_enc, ber_int_enc-nonempty, ber_uint_enc-nonempty,
}
use smithsnmp.Ber.Oid.{ber_oid_enc, ber_oid_dec}
use smithsnmp.Ber.Oid.RoundTrip.{IsOid, ber_oid_enc-nonempty, ber_oid_dec-ber_oid_enc}
use smithsnmp.Ber.Value.{is_signed, is_unsigned, is_octets, ber_value_enc, ber_value_dec}

-- `Fits type len value`: the memory holds a value of that type with `len` elements.
pub data Fits : ℕ → ℕ → List ℕ → Type 0 where
  signed : {type : ℕ} (v : ℕ) → is_signed type ≡ true → IsWord v → Fits type 1 (le32 v)
  unsigned : {type : ℕ} (v : ℕ) → is_unsigned type ≡ true → IsWord v → Fits type 1 (le32 v)
  objid :
      {type : ℕ} (oid : List ℕ)
      → type ≡ asn1_tag_objid
      → IsOid oid
      → Fits type (length oid) (words oid)
  octets : {type : ℕ} (s : List ℕ) → is_octets type ≡ true → Fits type (length s) s

module _ (type : ℕ) where
  dec_signed :
      (bs : List ℕ)
      → is_signed type ≡ true
      → 0 < length bs
      → ber_value_dec bs type ≡ (1, le32 (ber_int_dec bs))
  unfolding ber_value_dec
  dec_signed [] e h = absurd (omega arith)
  dec_signed (b ∷ bs) e h = rw e

  dec_unsigned :
      (bs : List ℕ)
      → is_unsigned type ≡ true
      → 0 < length bs
      → ber_value_dec bs type ≡ (1, le32 (ber_uint_dec bs))
  unfolding ber_value_dec
  dec_unsigned [] e h = absurd (omega arith)
  dec_unsigned (b ∷ bs) e h = ground arith

  dec_objid :
      (bs : List ℕ)
      → type ≡ asn1_tag_objid
      → 0 < length bs
      → ber_value_dec bs type ≡ (length (ber_oid_dec bs), words (ber_oid_dec bs))
  unfolding ber_value_dec
  dec_objid [] e h = absurd (omega arith)
  dec_objid (b ∷ bs) e h = ground arith

  pub dec_octets : (bs : List ℕ) → is_octets type ≡ true → ber_value_dec bs type ≡ (length bs, bs)
  unfolding ber_value_dec
  dec_octets [] e = refl
  dec_octets (b ∷ bs) e = ground arith

  pub enc_signed :
      (value : List ℕ) (len : ℕ)
      → is_signed type ≡ true
      → ber_value_enc value len type ≡ ber_int_enc (read32 value)
  unfolding ber_value_enc
  enc_signed value len e = rw e

  enc_unsigned :
      (value : List ℕ) (len : ℕ)
      → is_unsigned type ≡ true
      → ber_value_enc value len type ≡ ber_uint_enc (read32 value)
  unfolding ber_value_enc
  enc_unsigned value len e = ground arith

  enc_objid :
      (value : List ℕ) (len : ℕ)
      → type ≡ asn1_tag_objid
      → ber_value_enc value len type ≡ ber_oid_enc (read_words value len)
  unfolding ber_value_enc
  enc_objid value len e = ground arith

  pub enc_octets :
      (value : List ℕ) (len : ℕ)
      → is_octets type ≡ true
      → ber_value_enc value len type ≡ take len value
  unfolding ber_value_enc
  enc_octets value len e = ground arith

pub read_word : (v : ℕ) → IsWord v → read32 (le32 v) ≡ v
read_word v h = read32-le32 v [] h

oid_words : (oid : List ℕ) → IsOid oid → All IsWord oid
oid_words [] h = absurd h
oid_words (a ∷ []) h = absurd h
oid_words (a ∷ b ∷ ids) h = (omega arith, (omega arith, h.2))

pub read_oid : (oid : List ℕ) → IsOid oid → read_words (words oid) (length oid) ≡ oid
read_oid oid h =
    ap (λ m. read_words m (length oid)) (sym (append-nil (words oid)))
    ∙ read_words-words oid [] (oid_words oid h)

-- A value that fits its tag (a word for the integer tags, an identifier whose first two numbers fit
-- one byte, any string that is not empty) is read back, with its number of elements, from what
-- `ber_value_enc` wrote.
pub ber_value_dec-ber_value_enc :
    {type len : ℕ} {value : List ℕ}
    → Fits type len value
    → ber_value_dec (ber_value_enc value len type) type ≡ (len, value)
ber_value_dec-ber_value_enc {type} (signed v e h) =
    ap (λ bs. ber_value_dec bs type) (enc_signed type (le32 v) 1 e ∙ ap ber_int_enc (read_word v h))
    ∙ dec_signed type (ber_int_enc v) e (ber_int_enc-nonempty v)
    ∙ ap (λ (w : ℕ). (1, le32 w)) (ber_int_dec-ber_int_enc v h)
ber_value_dec-ber_value_enc {type} (unsigned v e h) =
    ap (λ bs. ber_value_dec bs type)
      (enc_unsigned type (le32 v) 1 e ∙ ap ber_uint_enc (read_word v h))
    ∙ dec_unsigned type (ber_uint_enc v) e (ber_uint_enc-nonempty v)
    ∙ ap (λ (w : ℕ). (1, le32 w)) (ber_uint_dec-ber_uint_enc v h)
ber_value_dec-ber_value_enc {type} (objid oid e h) =
    ap (λ bs. ber_value_dec bs type)
      (enc_objid type (words oid) (length oid) e ∙ ap ber_oid_enc (read_oid oid h))
    ∙ dec_objid type (ber_oid_enc oid) e (ber_oid_enc-nonempty oid h)
    ∙ ap (λ (o : List ℕ). (length o, words o)) (ber_oid_dec-ber_oid_enc oid h)
ber_value_dec-ber_value_enc {type} (octets s e) =
    ap (λ bs. ber_value_dec bs type) (enc_octets type s (length s) e ∙ take-length s)
    ∙ dec_octets type s e
