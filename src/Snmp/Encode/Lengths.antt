-- ===== src/Snmp/Encode/Lengths.antt =====
-- The length that `snmp_response` (core/snmp_msg_out.c) announces is that of what it writes.
use smithsnmp.Base.{
  ℕ, ◌+◌, ◌%◌, ◌^◌, ◌≤◌, ◌≡◌, refl, ap, ◌∙◌, arith, true, false, List, length, inl, inr,
}
use smithsnmp.Asn1.{asn1_tag_octstr, asn1_tag_seq}
use smithsnmp.Ber.Length.{ber_length_enc_try}
use smithsnmp.Snmp.Message.{put_header, put_int, put_octets}
use smithsnmp.Snmp.Decode.{has_v3}
use smithsnmp.Snmp.Decode.Security.{has_flag, snmp_secur_flag_encrypt}
use smithsnmp.Snmp.Encode.{
  Response, snmpv3_engine_id, tlv_len, global_data_encode_try, security_parameter_encode_try,
  security_parameter_encode, pdu_len, scope_len, secur_str_len, data_len, bindings_encode,
  pdu_encode, secured_encode, snmp_response,
}
use smithsnmp.Snmp.Encode.Right.{IsGlobalData, IsSecurity, IsResponse}
use smithsnmp.Snmp.Encode.Bindings.{length-bindings_encode}
use smithsnmp.Snmp.Encode.Sizes.{
  tlv_len-bounds, tlv_len_lem, length-header, header_len, length-put_int, length-put_octets,
  global_len, security_len,
}

module _ (r : Response) (h : IsResponse r) where
  pdu_lem :
      (length (pdu_encode r) ≡ tlv_len (pdu_len r)) × (tlv_len (pdu_len r) ≤ r.vb_list_len + 60)
  unfolding pdu_encode pdu_len
  pdu_lem =
      let (a, b, c) = h.pdu_hdr in
      let (e, l) = h.list_len in
      let vbs = bindings_encode r.vb_out_list in
      let lb = (length-bindings_encode r.vb_out_list h.bindings (omega arith)).0 in
      let t3 = put_header asn1_tag_seq r.vb_list_len vbs in
      let t2 = put_int r.pdu_hdr.err_idx t3 in
      let t1 = put_int r.pdu_hdr.err_stat t2 in
      let (q0, m0) = length-put_int r.pdu_hdr.req_id t1 a in
      let (q1, m1) = length-put_int r.pdu_hdr.err_stat t2 b in
      let (q2, m2) = length-put_int r.pdu_hdr.err_idx t3 c in
      let q3 = length-header asn1_tag_seq r.vb_list_len vbs (omega arith) (omega arith) in
      let m3 = tlv_len-bounds r.vb_list_len (omega arith) in
      let n = pdu_len r in
      let s : n ≤ r.vb_list_len + 36 = omega arith in
      let t = tlv_len-bounds n (omega arith) in
      (
        length-header r.pdu_hdr.pdu_type n (put_int r.pdu_hdr.req_id t1) (omega arith)
            (omega arith),
        omega arith,
      )

  scoped : List ℕ
  scoped = put_octets r.context_name (pdu_encode r)

  scoped_len :
      (length scoped ≡ tlv_len r.context_name.len + tlv_len (pdu_len r))
      × (tlv_len r.context_name.len ≤ 47)
  unfolding scoped
  scoped_len =
      let (e, l, w) = h.context_name in
      let (q, m) = length-put_octets r.context_name (pdu_encode r) e (omega arith) in
      (omega (arith, pdu_lem.0), omega arith)

  -- What the version is in front of, for another version.
  plain_len : has_v3 r.version ≡ false → length (snmp_response r) ≡ tlv_len (data_len r)
  unfolding snmp_response data_len scope_len scoped
  plain_len v =
      let (q, m) = length-put_int r.version scoped h.version in
      let (p, n) = scoped_len in
      let (a, b) = pdu_lem in
      let e = h.list_len in
      let s : scope_len r ≡ length scoped = rw v (omega arith) in
      let d : data_len r ≡ length (put_int r.version scoped) = rw v (omega arith) in
      rw v (length-header asn1_tag_seq _ (put_int r.version scoped) (omega arith) (omega arith))

  secured_len :
      has_v3 r.version ≡ true
      → IsGlobalData r.global_data
      → IsSecurity r.security
      → (length (secured_encode r scoped)
          ≡ tlv_len (global_data_encode_try r.global_data)
            + tlv_len (secur_str_len r)
            + tlv_len (scope_len r))
        × (tlv_len (global_data_encode_try r.global_data) ≤ 44)
        × (tlv_len (secur_str_len r) ≤ 206)
        × (scope_len r ≤ r.vb_list_len + 200)
  unfolding secured_encode secur_str_len scope_len
  secured_len v g s =
      let ctx = put_octets snmpv3_engine_id scoped in
      let scope = put_header asn1_tag_seq (scope_len r) ctx in
      let sec =
        put_header asn1_tag_octstr (secur_str_len r) (security_parameter_encode r.security scope) in
      let (p, n) = scoped_len in
      let (a, b) = pdu_lem in
      let e = h.list_len in
      let (q, m) = length-put_octets snmpv3_engine_id scoped refl (omega arith) in
      let len : scope_len r ≡ length ctx = rw v (omega arith) in
      let scope_q = length-header asn1_tag_seq (scope_len r) ctx (omega arith) (omega arith) in
      let (c, d) = security_len r.security scope s in
      let str : secur_str_len r ≡ tlv_len (security_parameter_encode_try r.security) =
        omega arith in
      let str_q =
        header_len asn1_tag_octstr (secur_str_len r) (security_parameter_encode r.security scope)
          (length scope) (omega arith) (omega arith) in
      let str_b = tlv_len-bounds (secur_str_len r) (omega arith) in
      let (x, y) = global_len r.global_data sec g in (omega arith, y, omega arith, omega arith)

  full_data_len :
      has_v3 r.version ≡ true
      → has_flag snmp_secur_flag_encrypt r.global_data ≡ false
      → data_len r
        ≡ (tlv_len (global_data_encode_try r.global_data)
            + tlv_len (secur_str_len r)
            + 1
            + ber_length_enc_try (scope_len r)
            + scope_len r
            + tlv_len r.version.len)
          % 2 ^ 32
  unfolding data_len
  full_data_len v p = rw (v, p) (omega arith)

  full_response :
      has_v3 r.version ≡ true
      → snmp_response r
        ≡ put_header asn1_tag_seq (data_len r) (put_int r.version (secured_encode r scoped))
  unfolding snmp_response scoped
  full_response v = rw v refl

  full_len :
      has_v3 r.version ≡ true
      → IsGlobalData r.global_data
      → IsSecurity r.security
      → has_flag snmp_secur_flag_encrypt r.global_data ≡ false
      → length (snmp_response r) ≡ tlv_len (data_len r)
  full_len v g s p =
      let rest = secured_encode r scoped in
      let (q, m) = length-put_int r.version rest h.version in
      let (a, b, c, d) = secured_len v g s in
      let e = h.list_len in
      let t = tlv_len-bounds (scope_len r) (omega arith) in
      let n = full_data_len v p in
      let u = tlv_len_lem (scope_len r) in
      let len : data_len r ≡ length (put_int r.version rest) = omega arith in
      ap (λ bs. length bs) (full_response v)
      ∙ length-header asn1_tag_seq (data_len r) (put_int r.version rest) (omega arith) (omega arith)

  -- The number of bytes that `snmp_response` writes for a message of which the lengths are right,
  -- and which is neither to be authenticated nor to be encrypted, is the length that stands at its
  -- front and that of the front.
  pub snmp_response-length : length (snmp_response r) ≡ tlv_len (data_len r)
  snmp_response-length = elim h.secured [
    | inl v ↦ plain_len v
    | inr (v, g, s, f, p) ↦ full_len v g s p
  ]
