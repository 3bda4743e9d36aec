-- ===== src/Snmp/Encode/Parts.antt =====
-- The parts of a message that core/snmp_msg_out.c writes are read back by core/snmp_msg_in.c.
use smithsnmp.Base.{
  ℕ, ◌^◌, ◌<◌, ◌≡◌, refl, arith, false, not, ◌&&◌, List, ◌++◌, length, IsWord, ltb, ◌==◌,
  if◌then◌else◌, inl, inr,
}
use smithsnmp.Asn1.{asn1_tag_octstr, asn1_tag_seq}
use smithsnmp.Ber.Value.{ber_value_enc}
use smithsnmp.Mib.User.{MibUser, mib_user_search}
use smithsnmp.Snmp.Message.{
  SnmpErrCode, decoded, Octets, GlobalData, SecurityParameter, PduHdr, Secured, Message, unsecured,
  put_header, put_int, put_octets, snmp_err_pdu_reqid, snmp_err_pdu_errstat, snmp_err_pdu_erridx,
  snmp_err_global_id, snmp_err_global_size, snmp_err_global_flags, snmp_err_global_model,
  snmp_err_security_str, snmp_err_security_seq, snmp_err_security_engine_id,
  snmp_err_security_engine_id_len, snmp_err_security_engine_boots, snmp_err_security_engine_time,
  snmp_err_security_user_name, snmp_err_security_user_name_len, snmp_err_security_auth_para,
  snmp_err_security_auth_para_len, snmp_err_security_priv_para_len,
}
use smithsnmp.Snmp.Message.Fields.{
  IsOctets, get_length-ber_length_enc, get_header-put_header, get_byte-put_header, get_int-put_int,
  get_octets-append, get_string-put_octets,
}
use smithsnmp.Snmp.Decode.{has_v3}
use smithsnmp.Snmp.Decode.Pdu.{pdu_hdr_parse}
use smithsnmp.Snmp.Decode.Security.{
  global_data_decode, get_para, security_parameter_decode, c_string, snmp_msg_auth_para_len,
  snmp_msg_encrypt_para_len,
}
use smithsnmp.Snmp.Encode.{Response, snmpv3_engine_id}
use smithsnmp.Snmp.Encode.Right.{IsPduHdr, IsGlobalData, IsPara, IsSecurity}
use smithsnmp.Snmp.Encode.Body.{received}

-- What is received of a response: the engine identifier is that of the sender.
abbrev pub received_secured : List MibUser → Response → Secured
received_secured users r = record {
  global_data = r.global_data;
  security = record r.security { engine_id = snmpv3_engine_id };
  user = mib_user_search users (c_string r.security.user_name.value);
  auth_err = 0;
  context_id = snmpv3_engine_id;
}

abbrev pub received_message : List MibUser → Response → Message
received_message users r = record {
  version = r.version;
  secured = if has_v3 r.version then received_secured users r else unsecured;
  context_name = r.context_name;
  pdu_hdr = r.pdu_hdr;
  vb_in_list = received r.vb_out_list;
}

pub pdu_hdr_lem :
    (h : PduHdr) (len : ℕ) (rest : List ℕ)
    → IsWord len
    → IsPduHdr h
    → pdu_hdr_parse
        (put_header h.pdu_type len (put_int h.req_id (put_int h.err_stat (put_int h.err_idx rest))))
      ≡ decoded (h, rest)
unfolding pdu_hdr_parse
pdu_hdr_lem h len rest w (a, b, c) =
    rw
      (
        get_byte-put_header h.pdu_type len
            (put_int h.req_id (put_int h.err_stat (put_int h.err_idx rest))),
        get_length-ber_length_enc len
            (put_int h.req_id (put_int h.err_stat (put_int h.err_idx rest))) w,
        get_int-put_int snmp_err_pdu_reqid h.req_id (put_int h.err_stat (put_int h.err_idx rest)) a,
        get_int-put_int snmp_err_pdu_errstat h.err_stat (put_int h.err_idx rest) b,
        get_int-put_int snmp_err_pdu_erridx h.err_idx rest c,
      )
      refl

pub global_data_lem :
    (g : GlobalData) (rest : List ℕ)
    → IsGlobalData g
    → (global_data_decode (
        put_int g.msg_id
          (put_int g.msg_max_size (put_octets g.msg_flags (put_int g.msg_security_model rest)))))
      ≡ decoded (g, rest)
unfolding global_data_decode put_octets
global_data_lem g rest (a, b, (e, l, w), d) =
    let behind = put_int g.msg_security_model rest in
    let s = g.msg_flags in
    let short : ltb 1 s.len ≡ false = ground arith in
    rw
      (
        get_int-put_int snmp_err_global_id g.msg_id (put_int g.msg_max_size (put_octets s behind))
            a,
        get_int-put_int snmp_err_global_size g.msg_max_size (put_octets s behind) b,
        get_header-put_header asn1_tag_octstr s.len snmp_err_global_flags
            (ber_value_enc s.value s.len asn1_tag_octstr ++ behind) (omega arith),
        short,
        get_octets-append s behind e,
        get_int-put_int snmp_err_global_model g.msg_security_model rest d,
      )
      refl

pub get_para-put_octets :
    (n : ℕ) (err err_len : SnmpErrCode) (s : Octets) (rest : List ℕ)
    → IsPara n s
    → get_para n err err_len (put_octets s rest) ≡ decoded (s, rest)
unfolding get_para put_octets
get_para-put_octets n err err_len s rest (e, c, w) =
    let l : s.len < 2 ^ 32 = elim c [ inl q ↦ omega arith | inr q ↦ omega arith ] in
    let ok : (not (s.len == 0) && not (s.len == n)) ≡ false = elim c [
      | inl q ↦ ground arith
      | inr q ↦ ground arith
    ] in
    rw
      (
        get_header-put_header asn1_tag_octstr s.len err
            (ber_value_enc s.value s.len asn1_tag_octstr ++ rest) l,
        ok,
        get_octets-append s rest e,
      )
      refl

pub engine_id-IsOctets : IsOctets 33 snmpv3_engine_id
engine_id-IsOctets = (refl, omega arith, omega arith)

pub security_lem :
    (sp : SecurityParameter) (str_len para_len : ℕ) (rest : List ℕ)
    → IsWord str_len
    → IsWord para_len
    → IsSecurity sp
    → security_parameter_decode (
        put_header asn1_tag_octstr str_len (
          put_header asn1_tag_seq para_len (
            put_octets snmpv3_engine_id (
              put_int sp.engine_boots (
                put_int sp.engine_time (
                  put_octets sp.user_name
                    (put_octets sp.auth_para (put_octets sp.priv_para rest))))))))
      ≡ decoded
          (record sp { engine_id = snmpv3_engine_id }, length (put_octets sp.priv_para rest), rest)
unfolding security_parameter_decode
security_lem sp str_len para_len rest v w (a, b, c, d, e) =
    let t5 = put_octets sp.priv_para rest in
    let t4 = put_octets sp.auth_para t5 in
    let t3 = put_octets sp.user_name t4 in
    let t2 = put_int sp.engine_time t3 in
    let t1 = put_int sp.engine_boots t2 in
    let t0 = put_octets snmpv3_engine_id t1 in
    rw
      (
        get_header-put_header asn1_tag_octstr str_len snmp_err_security_str
            (put_header asn1_tag_seq para_len t0) v,
        get_header-put_header asn1_tag_seq para_len snmp_err_security_seq t0 w,
        get_string-put_octets 33 snmp_err_security_engine_id snmp_err_security_engine_id_len
            snmpv3_engine_id t1 engine_id-IsOctets,
        get_int-put_int snmp_err_security_engine_boots sp.engine_boots t2 a,
        get_int-put_int snmp_err_security_engine_time sp.engine_time t3 b,
        get_string-put_octets 41 snmp_err_security_user_name snmp_err_security_user_name_len
            sp.user_name t4 c,
        get_para-put_octets snmp_msg_auth_para_len snmp_err_security_auth_para
            snmp_err_security_auth_para_len sp.auth_para t5 d,
        get_para-put_octets snmp_msg_encrypt_para_len snmp_err_security_engine_time
            snmp_err_security_priv_para_len sp.priv_para rest e,
      )
      refl
