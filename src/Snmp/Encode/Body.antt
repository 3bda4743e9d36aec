-- ===== src/Snmp/Encode/Body.antt =====
-- One variable binding that `snmp_response` writes (core/snmp_msg_out.c) is read back by
-- `var_bind_alloc` (core/snmp_msg_in.c).
use smithsnmp.Base.{
  ℕ, ◌+◌, ◌≤◌, ◌≡◌, refl, ap, ◌∙◌, arith, false, List, [], ◌∷◌, ◌++◌, append_assoc, length,
  length-append, All, IsByte, IsWord, words, ltb, le32, le32-IsByte, All-append,
}
use smithsnmp.Asn1.{asn1_tag_objid, asn1_oid_max_len, asn1_value_max_len}
use smithsnmp.Ber.Oid.RoundTrip.{IsOid}
use smithsnmp.Ber.Value.{value_size, ber_value_enc, ber_value_dec_try, ber_value_dec}
use smithsnmp.Ber.Value.RoundTrip.{objid, read_oid, ber_value_dec-ber_value_enc}
use smithsnmp.Ber.Value.Sizes.{
  value_size-ber_value_enc, ber_value_dec_try-ber_value_dec, value_size-objid,
}
use smithsnmp.Snmp.Request.{VarBind, vb_length}
use smithsnmp.Parse.{get_bytes-append}
use smithsnmp.Snmp.Message.{decoded, snmp_err_vb_oid_type, put_header}
use smithsnmp.Snmp.Message.Fields.{
  get_length-ber_length_enc, get_header-put_header, get_byte-put_header, put_header-append,
  length-put_header,
}
use smithsnmp.Snmp.Decode.Pdu.{var_bind_alloc}
use smithsnmp.Snmp.Encode.{tlv_len}

-- A binding as `add_binding` makes it: the identifier can be encoded, and the length is that of the
-- encoding.
abbrev pub IsBinding : VarBind → Type 0
IsBinding vb =
    IsOid vb.oid
    × All IsWord vb.oid
    × (length vb.oid ≤ 52)
    × (length vb.value ≤ asn1_value_max_len)
    × (vb.vb_len ≡ vb_length vb.oid (length vb.value))

-- The length of all bindings.
unfoldable pub list_length : List VarBind → ℕ
list_length [] = 0
list_length (vb ∷ vbs) = tlv_len vb.vb_len + list_length vbs

-- A binding as it is received, and a list of them.
abbrev pub received : List VarBind → List VarBind
received [] = []
received (vb ∷ vbs) = record vb { vb_len = 0 } ∷ received vbs

pub words-IsByte : (vs : List ℕ) → All IsByte (words vs)
words-IsByte [] = tt
words-IsByte (v ∷ vs) = All-append IsByte (le32 v) (words vs) (le32-IsByte v) (words-IsByte vs)

pub length-words : (vs : List ℕ) → length vs ≤ length (words vs)
length-words [] = omega arith
length-words (v ∷ vs) = omega (arith, length-words vs)

module _ (vb : VarBind) (b : IsBinding vb) where
  unfoldable pub code : List ℕ
  code = ber_value_enc (words vb.oid) (length vb.oid) asn1_tag_objid

  unfoldable pub code_len : ℕ
  code_len = value_size (words vb.oid) (length vb.oid) asn1_tag_objid

  pub code_len_lem : code_len ≡ length code
  unfolding code_len code
  code_len_lem =
      value_size-ber_value_enc (words vb.oid) (length vb.oid) asn1_tag_objid (words-IsByte vb.oid)
        (length-words vb.oid) (λ e. b.2)

  pub code_dec : ber_value_dec code asn1_tag_objid ≡ (length vb.oid, words vb.oid)
  unfolding code
  code_dec = ber_value_dec-ber_value_enc {type = asn1_tag_objid} (objid vb.oid refl b.0)

  pub code_short : ltb asn1_oid_max_len (ber_value_dec_try code asn1_tag_objid) ≡ false
  code_short =
      let e = ber_value_dec_try-ber_value_dec code asn1_tag_objid ∙ ap (λ p. p.0) code_dec in
      let l = b.2 in rw e (ground arith)

  -- What is behind the header of the binding, before the rest.
  pub body : List ℕ
  body =
      put_header asn1_tag_objid code_len
        (code ++ put_header vb.value_type (length vb.value) vb.value)

  pub body-append :
      (rest : List ℕ)
      → body ++ rest
        ≡ put_header asn1_tag_objid code_len
            (code ++ put_header vb.value_type (length vb.value) (vb.value ++ rest))
  unfolding body
  body-append rest =
      put_header-append asn1_tag_objid code_len _ rest
      ∙ ap (λ t. put_header asn1_tag_objid code_len t)
          (append_assoc code _ rest
            ∙ ap (λ t. code ++ t) (put_header-append vb.value_type (length vb.value) vb.value rest))

  pub code_len-IsWord : IsWord code_len
  unfolding code_len
  code_len-IsWord = omega (arith, value_size-objid (words vb.oid) (length vb.oid))

  pub length-body : length body ≡ vb.vb_len
  unfolding body vb_length put_header code_len
  length-body =
      let v = b.3 in
      omega (
        arith,
        b.4,
        code_len_lem,
        length-put_header asn1_tag_objid code_len
            (code ++ put_header vb.value_type (length vb.value) vb.value) code_len-IsWord,
        length-append code (put_header vb.value_type (length vb.value) vb.value),
        length-put_header vb.value_type (length vb.value) vb.value (omega arith),
      )

  pub alloc-body :
      (rest : List ℕ) → var_bind_alloc (body ++ rest) ≡ decoded (record vb { vb_len = 0 })
  unfolding var_bind_alloc
  alloc-body rest =
      let v : ltb asn1_value_max_len (length vb.value) ≡ false = let l = b.3 in ground arith in
      rw
        (
          body-append rest,
          get_header-put_header asn1_tag_objid code_len snmp_err_vb_oid_type
              (code ++ put_header vb.value_type (length vb.value) (vb.value ++ rest))
              code_len-IsWord,
          get_bytes-append code_len code
              (put_header vb.value_type (length vb.value) (vb.value ++ rest)) code_len_lem,
          code_short,
          get_byte-put_header vb.value_type (length vb.value) (vb.value ++ rest),
          get_length-ber_length_enc (length vb.value) (vb.value ++ rest)
              (let l = b.3 in omega arith),
          v,
          get_bytes-append (length vb.value) vb.value rest refl,
          code_dec,
          read_oid vb.oid b.0,
        )
        refl
