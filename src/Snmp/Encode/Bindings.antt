-- ===== src/Snmp/Encode/Bindings.antt =====
-- The variable bindings that `snmp_response` writes (core/snmp_msg_out.c) are read back by
-- `var_bind_parse` (core/snmp_msg_in.c).
use smithsnmp.Base.{
  ℕ, zero, suc, ◌+◌, ◌-◌, ◌^◌, ◌<◌, ◌≤◌, ◌≡◌, refl, sym, ap, ◌∙◌, arith, List, [], ◌∷◌, ◌++◌,
  length, length-append, drop, drop-length-append, All, IsWord,
}
use smithsnmp.Asn1.{asn1_tag_seq}
use smithsnmp.Snmp.Request.{VarBind}
use smithsnmp.Parse.{less}
use smithsnmp.Snmp.Message.{
  decoded, ◌>>=◌, snmp_err_vb_seq, snmp_err_vb_list_seq, get_header, put_header,
}
use smithsnmp.Snmp.Message.Fields.{get_header-put_header, length-put_header}
use smithsnmp.Snmp.Decode.Pdu.{var_bind_alloc, var_binds, var_bind_parse}
use smithsnmp.Snmp.Encode.{tlv_len, bindings_encode}
use smithsnmp.Snmp.Encode.Body.{
  IsBinding, list_length, received, code, code_len, body, body-append, length-body, alloc-body,
}

-- A round of the loop, at a length that is not 0.
var_binds_step :
    (k n : ℕ) (buf : List ℕ)
    → 0 < n
    → var_binds (suc k) n buf ≡ (
        get_header asn1_tag_seq snmp_err_vb_seq buf >>= λ (vb_len, behind).
        var_bind_alloc behind >>= λ vb.
        var_binds k (less n (length buf - length behind + vb_len)) (drop vb_len behind) >>= λ vbs.
        decoded (vb ∷ vbs))
unfolding var_binds
var_binds_step k zero buf h = absurd (omega arith)
var_binds_step k (suc n) buf h = refl

var_binds-nil : (k : ℕ) (buf : List ℕ) → var_binds k 0 buf ≡ decoded []
unfolding var_binds
var_binds-nil zero buf = refl
var_binds-nil (suc k) buf = refl

encode_cons :
    (vb : VarBind) (b : IsBinding vb) (vbs : List VarBind)
    → bindings_encode (vb ∷ vbs)
      ≡ put_header asn1_tag_seq vb.vb_len (body vb b ++ bindings_encode vbs)
unfolding bindings_encode code code_len
encode_cons vb b vbs =
    ap (λ t. put_header asn1_tag_seq vb.vb_len t) (sym (body-append vb b (bindings_encode vbs)))

length-cons :
    (vb : VarBind) (b : IsBinding vb) (rest : List ℕ)
    → IsWord vb.vb_len
    → length (put_header asn1_tag_seq vb.vb_len (body vb b ++ rest))
      ≡ tlv_len vb.vb_len + length rest
unfolding tlv_len
length-cons vb b rest w = omega (
  arith,
  length-put_header asn1_tag_seq vb.vb_len (body vb b ++ rest) w,
  length-append (body vb b) rest,
  length-body vb b,
)

tlv_len-bounds : (n : ℕ) → suc n ≤ tlv_len n
unfolding tlv_len
tlv_len-bounds n = omega arith

pub length-bindings_encode :
    (vbs : List VarBind)
    → All IsBinding vbs
    → list_length vbs < 2 ^ 32
    → (length (bindings_encode vbs) ≡ list_length vbs) × (length vbs ≤ list_length vbs)
unfolding list_length bindings_encode
length-bindings_encode [] h w = (refl, omega arith)
length-bindings_encode (vb ∷ vbs) h w =
    let t = tlv_len-bounds vb.vb_len in
    let (e, l) = length-bindings_encode vbs h.1 (omega arith) in
    (
      ap (λ bs. length bs) (encode_cons vb h.0 vbs)
          ∙ length-cons vb h.0 (bindings_encode vbs) (omega arith)
          ∙ ap (λ n. tlv_len vb.vb_len + n) e,
      omega arith,
    )

drop-body :
    (vb : VarBind) (b : IsBinding vb) (rest : List ℕ) → drop vb.vb_len (body vb b ++ rest) ≡ rest
drop-body vb b rest =
    ap (λ n. drop n (body vb b ++ rest)) (sym (length-body vb b))
    ∙ drop-length-append (body vb b) rest

less_step :
    (vb : VarBind) (b : IsBinding vb) (rest : List ℕ) (total : ℕ)
    → tlv_len vb.vb_len + total < 2 ^ 32
    → less (tlv_len vb.vb_len + total) (
        length (put_header asn1_tag_seq vb.vb_len (body vb b ++ rest))
        - length (body vb b ++ rest)
        + vb.vb_len)
      ≡ total
less_step vb b rest total w =
    let t = tlv_len-bounds vb.vb_len in
    let n = length-cons vb b rest (omega arith) in
    omega (arith, length-append (body vb b) rest, length-body vb b, n)

pub var_binds-bindings_encode :
    (k : ℕ) (vbs : List VarBind)
    → All IsBinding vbs
    → length vbs ≤ k
    → list_length vbs < 2 ^ 32
    → var_binds k (list_length vbs) (bindings_encode vbs) ≡ decoded (received vbs)
unfolding list_length
var_binds-bindings_encode k [] h l w = var_binds-nil k (bindings_encode [])
var_binds-bindings_encode zero (vb ∷ vbs) h l w = absurd (omega arith)
var_binds-bindings_encode (suc k) (vb ∷ vbs) h l w =
    let rest = bindings_encode vbs in
    let t = tlv_len-bounds vb.vb_len in
    let ih = var_binds-bindings_encode k vbs h.1 (omega arith) (omega arith) in
    let buf = put_header asn1_tag_seq vb.vb_len (body vb h.0 ++ rest) in
    ap (λ bs. var_binds (suc k) (tlv_len vb.vb_len + list_length vbs) bs) (encode_cons vb h.0 vbs)
    ∙ var_binds_step k (tlv_len vb.vb_len + list_length vbs) buf (omega arith)
    ∙ rw
        (
          get_header-put_header asn1_tag_seq vb.vb_len snmp_err_vb_seq (body vb h.0 ++ rest)
              (omega arith),
          alloc-body vb h.0 rest,
          less_step vb h.0 rest (list_length vbs) w,
          drop-body vb h.0 rest,
          ih,
        )
        refl

pub var_bind_parse-bindings_encode :
    (vbs : List VarBind)
    → All IsBinding vbs
    → list_length vbs < 2 ^ 32
    → var_bind_parse (put_header asn1_tag_seq (list_length vbs) (bindings_encode vbs))
      ≡ decoded (received vbs)
unfolding var_bind_parse
var_bind_parse-bindings_encode vbs h w =
    let l = length-bindings_encode vbs h w in
    rw
      (get_header-put_header asn1_tag_seq (list_length vbs) snmp_err_vb_list_seq
        (bindings_encode vbs) w)
      (var_binds-bindings_encode (length (bindings_encode vbs)) vbs h (omega arith) w)
