-- ===== src/Snmp/Encode/Sizes.antt =====
-- The sizes of the parts of a message that core/snmp_msg_out.c writes.
use smithsnmp.Base.{
  ℕ, ◌+◌, ◌≤◌, ◌≡◌, refl, ap, ◌∙◌, arith, List, ◌++◌, length, length-append, IsWord, le32, inl, inr,
}
use smithsnmp.Asn1.{asn1_tag_int, asn1_tag_octstr, asn1_tag_seq}
use smithsnmp.Ber.Int.{ber_int_enc}
use smithsnmp.Ber.Int.RoundTrip.{ber_int_enc_try-length}
use smithsnmp.Ber.Length.{ber_length_enc_try}
use smithsnmp.Ber.Length.RoundTrip.{ber_length_enc_try-length}
use smithsnmp.Ber.Value.{ber_value_enc}
use smithsnmp.Ber.Value.RoundTrip.{enc_signed, read_word}
use smithsnmp.Snmp.Message.{
  Number, Octets, GlobalData, SecurityParameter, put_header, put_int, put_octets,
}
use smithsnmp.Snmp.Message.Fields.{IsNumber, length-put_header, octets_enc}
use smithsnmp.Snmp.Encode.{
  snmpv3_engine_id, tlv_len, global_data_encode_try, global_data_encode,
  security_parameter_encode_try, security_parameter_encode,
}
use smithsnmp.Snmp.Encode.Right.{IsGlobalData, IsPara, IsSecurity}

-- The header of a length.
pub tlv_len-bounds : (n : ℕ) → IsWord n → tlv_len n ≤ n + 6
unfolding tlv_len
tlv_len-bounds n w = omega (arith, (ber_length_enc_try-length n w).1)

pub tlv_len_lem : (n : ℕ) → tlv_len n ≡ 1 + ber_length_enc_try n + n
unfolding tlv_len
tlv_len_lem n = refl

pub length-header :
    (tag len : ℕ) (rest : List ℕ)
    → IsWord len
    → length rest ≡ len
    → length (put_header tag len rest) ≡ tlv_len len
unfolding tlv_len
length-header tag len rest w e = omega (arith, length-put_header tag len rest w)

pub header_len :
    (tag len : ℕ) (rest : List ℕ) (behind : ℕ)
    → IsWord len
    → length rest ≡ len + behind
    → length (put_header tag len rest) ≡ tlv_len len + behind
unfolding tlv_len
header_len tag len rest behind w e = omega (arith, length-put_header tag len rest w)

pub int_len : (v : ℕ) → IsWord v → length (ber_value_enc (le32 v) 1 asn1_tag_int) ≤ 4
int_len v w =
    let e =
      ap (λ bs. length bs)
        (enc_signed asn1_tag_int (le32 v) 1 refl ∙ ap ber_int_enc (read_word v w)) in
    omega (arith, ber_int_enc_try-length v w, e)

pub length-put_int :
    (n : Number) (rest : List ℕ)
    → IsNumber n
    → (length (put_int n rest) ≡ tlv_len n.len + length rest) × (tlv_len n.len ≤ 10)
unfolding put_int tlv_len
length-put_int n rest (w, e, l) =
    let code = ber_value_enc (le32 n.value) 1 asn1_tag_int in
    (
      omega (arith, length-put_header asn1_tag_int n.len (code ++ rest) l, length-append code rest),
      omega (arith, int_len n.value w, (ber_length_enc_try-length n.len l).1),
    )

pub length-put_octets :
    (s : Octets) (rest : List ℕ)
    → s.len ≡ length s.value
    → s.len ≤ 255
    → (length (put_octets s rest) ≡ tlv_len s.len + length rest) × (tlv_len s.len ≤ s.len + 6)
unfolding put_octets tlv_len
length-put_octets s rest e l =
    let code = ber_value_enc s.value s.len asn1_tag_octstr in
    let q = ap (λ bs. length bs) (octets_enc s e) in
    (
      omega (
        arith,
        length-put_header asn1_tag_octstr s.len (code ++ rest) (omega arith),
        length-append code rest,
        q,
      ),
      tlv_len-bounds s.len (omega arith),
    )

pub global_len :
    (g : GlobalData) (rest : List ℕ)
    → IsGlobalData g
    → (length (global_data_encode g rest) ≡ tlv_len (global_data_encode_try g) + length rest)
      × (tlv_len (global_data_encode_try g) ≤ 44)
unfolding global_data_encode global_data_encode_try
global_len g rest (a, b, (e, l, w), d) =
    let t3 = put_int g.msg_security_model rest in
    let t2 = put_octets g.msg_flags t3 in
    let t1 = put_int g.msg_max_size t2 in
    let (q0, m0) = length-put_int g.msg_id t1 a in
    let (q1, m1) = length-put_int g.msg_max_size t2 b in
    let (q2, m2) = length-put_octets g.msg_flags t3 e (omega arith) in
    let (q3, m3) = length-put_int g.msg_security_model rest d in
    let n = global_data_encode_try g in
    let s : n ≤ 38 = omega arith in
    let t = tlv_len-bounds n (omega arith) in
    (
      header_len asn1_tag_seq n (put_int g.msg_id t1) (length rest) (omega arith) (omega arith),
      omega arith,
    )

pub para_len : (n : ℕ) (s : Octets) → IsPara n s → s.len ≤ n
para_len n s (e, inl q, w) = omega arith
para_len n s (e, inr q, w) = omega arith

pub security_len :
    (sp : SecurityParameter) (rest : List ℕ)
    → IsSecurity sp
    → (length (security_parameter_encode sp rest)
        ≡ tlv_len (security_parameter_encode_try sp) + length rest)
      × (tlv_len (security_parameter_encode_try sp) ≤ 200)
unfolding security_parameter_encode security_parameter_encode_try
security_len sp rest (a, b, (e, l, w), c, d) =
    let t4 = put_octets sp.priv_para rest in
    let t3 = put_octets sp.auth_para t4 in
    let t2 = put_octets sp.user_name t3 in
    let t1 = put_int sp.engine_time t2 in
    let t0 = put_int sp.engine_boots t1 in
    let lc = para_len 12 sp.auth_para c in
    let ld = para_len 8 sp.priv_para d in
    let (q, m) = length-put_octets snmpv3_engine_id t0 refl (omega arith) in
    let (q0, m0) = length-put_int sp.engine_boots t1 a in
    let (q1, m1) = length-put_int sp.engine_time t2 b in
    let (q2, m2) = length-put_octets sp.user_name t3 e (omega arith) in
    let (q3, m3) = length-put_octets sp.auth_para t4 c.0 (omega arith) in
    let (q4, m4) = length-put_octets sp.priv_para rest d.0 (omega arith) in
    let n = security_parameter_encode_try sp in
    let s : n ≤ 190 = omega arith in
    let t = tlv_len-bounds n (omega arith) in
    (
      header_len asn1_tag_seq n (put_octets snmpv3_engine_id t0) (length rest) (omega arith)
          (omega arith),
      omega arith,
    )
