-- ===== src/Snmp/Message/Fields.antt =====
-- A field is read back from the front of what was written for it (core/snmp_msg_in.c,
-- core/snmp_msg_out.c).
use smithsnmp.Base.{
  take-length, ℕ, ◌+◌, ◌%◌, ◌^◌, ◌<◌, false, ltb, ◌≡◌, refl, ap, ◌∙◌, arith, List, ◌∷◌, ◌++◌,
  length, take, length-append, append_assoc, drop-length-append, IsWord, le32,
}
use smithsnmp.Asn1.{asn1_tag_int, asn1_tag_octstr}
use smithsnmp.Ber.Length.{ber_length_enc_try, ber_length_enc}
use smithsnmp.Ber.Length.RoundTrip.{ber_length_dec-ber_length_enc, ber_length_enc_try-length}
use smithsnmp.Ber.Value.{ber_value_enc, ber_value_dec}
use smithsnmp.Ber.Value.RoundTrip.{
  signed, dec_octets, enc_octets, read_word, ber_value_dec-ber_value_enc,
}
use smithsnmp.Parse.{get_bytes-append}
use smithsnmp.Snmp.Message.{
  SnmpErrCode, decoded, Number, Octets, get_byte, get_length, get_header, get_int, get_octets,
  get_string, put_header, put_int, put_octets,
}

-- The length of a number is that of its encoding.
abbrev pub IsNumber : Number → Type 0
IsNumber n =
    IsWord n.value × (n.len ≡ length (ber_value_enc (le32 n.value) 1 asn1_tag_int)) × IsWord n.len

-- The length of a string is that of its bytes.
abbrev pub IsOctets : ℕ → Octets → Type 0
IsOctets room s = (s.len ≡ length s.value) × (s.len < room) × IsWord room

pub get_length-ber_length_enc :
    (len : ℕ) (rest : List ℕ)
    → IsWord len
    → get_length (ber_length_enc len ++ rest) ≡ decoded (len, rest)
unfolding get_length
get_length-ber_length_enc len rest h =
    rw
      (
        get_length,
        ber_length_dec-ber_length_enc len rest h,
        drop-length-append (ber_length_enc len) rest,
      )
      refl

pub get_header-put_header :
    (tag len : ℕ) (err : SnmpErrCode) (rest : List ℕ)
    → IsWord len
    → get_header tag err (put_header tag len rest) ≡ decoded (len, rest)
unfolding get_header put_header
get_header-put_header tag len err rest h = ground (arith, get_length-ber_length_enc len rest h)

pub get_int-put_int :
    (err : SnmpErrCode) (n : Number) (rest : List ℕ)
    → IsNumber n
    → get_int err (put_int n rest) ≡ decoded (n, rest)
unfolding get_int put_int
get_int-put_int err n rest (w, e, l) =
    rw
      (
        get_header-put_header asn1_tag_int n.len err
            (ber_value_enc (le32 n.value) 1 asn1_tag_int ++ rest) l,
        get_bytes-append n.len (ber_value_enc (le32 n.value) 1 asn1_tag_int) rest e,
        ber_value_dec-ber_value_enc {type = asn1_tag_int} (signed n.value refl w),
      )
      (ap (λ v. decoded (record n { value = v }, rest)) (read_word n.value w))

pub octets_enc :
    (s : Octets) → s.len ≡ length s.value → ber_value_enc s.value s.len asn1_tag_octstr ≡ s.value
octets_enc s e =
    enc_octets asn1_tag_octstr s.value s.len refl ∙ ap (λ n. take n s.value) e ∙ take-length s.value

octets_dec : (v : List ℕ) → (ber_value_dec v asn1_tag_octstr).1 ≡ v
octets_dec v = ap (λ p. p.1) (dec_octets asn1_tag_octstr v refl)

pub get_octets-append :
    (s : Octets) (rest : List ℕ)
    → s.len ≡ length s.value
    → get_octets s.len (ber_value_enc s.value s.len asn1_tag_octstr ++ rest) ≡ decoded (s, rest)
unfolding get_octets
get_octets-append s rest e =
    let q : ber_value_enc s.value s.len asn1_tag_octstr ≡ s.value = octets_enc s e in
    rw (q, get_bytes-append s.len s.value rest e, octets_dec s.value) refl

pub get_string-put_octets :
    (room : ℕ) (err err_len : SnmpErrCode) (s : Octets) (rest : List ℕ)
    → IsOctets room s
    → get_string room err err_len (put_octets s rest) ≡ decoded (s, rest)
unfolding get_string put_octets
get_string-put_octets room err err_len s rest (e, l, w) =
    let short : ltb room s.len ≡ false = ground arith in
    let fits : ltb room ((s.len + 1) % 2 ^ 32) ≡ false = ground arith in
    rw
      (
        get_header-put_header asn1_tag_octstr s.len err
            (ber_value_enc s.value s.len asn1_tag_octstr ++ rest) (omega arith),
        fits,
        short,
        get_octets-append s rest e,
      )
      refl

pub get_byte-put_header :
    (tag len : ℕ) (rest : List ℕ)
    → get_byte {E = SnmpErrCode} (put_header tag len rest)
      ≡ decoded (tag, ber_length_enc len ++ rest)
unfolding get_byte put_header
get_byte-put_header tag len rest = refl

pub put_header-append :
    (tag len : ℕ) (a b : List ℕ) → put_header tag len a ++ b ≡ put_header tag len (a ++ b)
unfolding put_header
put_header-append tag len a b = ap (λ t. tag ∷ t) (append_assoc (ber_length_enc len) a b)

pub length-put_header :
    (tag len : ℕ) (rest : List ℕ)
    → IsWord len
    → length (put_header tag len rest) ≡ 1 + ber_length_enc_try len + length rest
unfolding put_header
length-put_header tag len rest w =
    let e = (ber_length_enc_try-length len w).0 in
    omega (arith, length-append (ber_length_enc len) rest, e)
