-- ===== src/Snmp/Encode/RoundTrip.antt =====
-- `snmp_decode` (core/snmp_msg_in.c) reads what `snmp_response` (core/snmp_msg_out.c) writes.
use smithsnmp.Base.{
  ℕ, ◌≡◌, refl, ap, ◌∙◌, arith, false, List, length, IsWord, if◌then◌else◌, inl, inr,
}
use smithsnmp.Asn1.{asn1_tag_octstr, asn1_tag_seq}
use smithsnmp.Mib.User.{MibUser, mib_user_search}
use smithsnmp.Snmp.Access.{snmp_secur_flag_auth}
use smithsnmp.Snmp.Message.{
  decoded, GlobalData, SecurityParameter, unsecured, put_header, put_int, put_octets, get_byte,
  snmp_err_version, snmp_err_context_name, snmp_err_context_name_len, snmp_err_global_data_len,
  snmp_err_scope_pdu_seq, snmp_err_context_id, snmp_err_context_id_len,
}
use smithsnmp.Snmp.Message.Fields.{
  get_length-ber_length_enc, get_header-put_header, get_byte-put_header, get_int-put_int,
  get_string-put_octets,
}
use smithsnmp.Snmp.Decode.{snmp_decode, has_v3}
use smithsnmp.Snmp.Decode.Pdu.{pdu_hdr_parse, var_bind_parse}
use smithsnmp.Snmp.Decode.Security.{
  Crypto, c_string, has_flag, user_security, secured_decode, blanked,
}
use smithsnmp.Snmp.Encode.{
  Response, snmpv3_engine_id, global_data_encode_try, global_data_encode,
  security_parameter_encode_try, security_parameter_encode, pdu_len, scope_len, secur_str_len,
  data_len, bindings_encode, pdu_encode, secured_encode, snmp_response,
}
use smithsnmp.Snmp.Encode.Right.{IsGlobalData, IsSecurity, IsResponse}
use smithsnmp.Snmp.Encode.Bindings.{var_bind_parse-bindings_encode}
use smithsnmp.Snmp.Encode.Body.{received}
use smithsnmp.Snmp.Encode.Parts.{
  received_secured, received_message, pdu_hdr_lem, global_data_lem, engine_id-IsOctets,
  security_lem,
}

no_security :
    (crypto : Crypto) (users : List MibUser) (whole : List ℕ) (g : GlobalData)
    (sp : SecurityParameter) (buf : List ℕ)
    → has_flag snmp_secur_flag_auth g ≡ false
    → user_security crypto users whole g sp buf
      ≡ decoded (mib_user_search users (c_string sp.user_name.value), 0, buf)
unfolding user_security
no_security crypto users whole g sp buf e = rw e refl

global_len-IsWord : (g : GlobalData) → IsWord (global_data_encode_try g)
unfolding global_data_encode_try
global_len-IsWord g = omega arith

para_len-IsWord : (sp : SecurityParameter) → IsWord (security_parameter_encode_try sp)
unfolding security_parameter_encode_try
para_len-IsWord sp = omega arith

secur_str_len-IsWord : (r : Response) → IsWord (secur_str_len r)
unfolding secur_str_len
secur_str_len-IsWord r = omega arith

scope_len-IsWord : (r : Response) → IsWord (scope_len r)
unfolding scope_len
scope_len-IsWord r = omega arith

pdu_len-IsWord : (r : Response) → IsWord (pdu_len r)
unfolding pdu_len
pdu_len-IsWord r = omega arith

pub data_len-IsWord : (r : Response) → IsWord (data_len r)
unfolding data_len
data_len-IsWord r = omega arith

secured_lem :
    (crypto : Crypto) (users : List MibUser) (whole : List ℕ) (r : Response) (rest : List ℕ)
    → IsGlobalData r.global_data
    → IsSecurity r.security
    → has_flag snmp_secur_flag_auth r.global_data ≡ false
    → secured_decode crypto users whole (secured_encode r rest)
      ≡ decoded (received_secured users r, rest)
unfolding secured_decode secured_encode global_data_encode security_parameter_encode
secured_lem crypto users whole r rest g s f =
    let ctx = put_octets snmpv3_engine_id rest in
    let scope = put_header asn1_tag_seq (scope_len r) ctx in
    let sp = r.security in
    let sec = put_header asn1_tag_octstr (secur_str_len r) (security_parameter_encode sp scope) in
    let gd = r.global_data in
    let sp' : SecurityParameter = record sp { engine_id = snmpv3_engine_id } in
    let behind = length (put_octets sp.priv_para scope) in
    rw
      (
        get_header-put_header asn1_tag_seq (global_data_encode_try gd) snmp_err_global_data_len
            (put_int gd.msg_id (
              put_int gd.msg_max_size
                (put_octets gd.msg_flags (put_int gd.msg_security_model sec))))
            (global_len-IsWord gd),
        global_data_lem gd sec g,
        security_lem sp (secur_str_len r) (security_parameter_encode_try sp) scope
            (secur_str_len-IsWord r) (para_len-IsWord sp) s,
        no_security crypto users (blanked whole sp.auth_para.len behind) gd sp' scope f,
        get_header-put_header asn1_tag_seq (scope_len r) snmp_err_scope_pdu_seq ctx
            (scope_len-IsWord r),
        get_string-put_octets 33 snmp_err_context_id snmp_err_context_id_len snmpv3_engine_id rest
            engine_id-IsOctets,
      )
      refl

module _ (crypto : Crypto) (users : List MibUser) (r : Response) (h : IsResponse r) where
  context : List ℕ
  context = put_octets r.context_name (pdu_encode r)

  after_version :
      (whole : List ℕ)
      → ((if has_v3 r.version
            then secured_decode crypto users whole
                (if has_v3 r.version then secured_encode r context else context)
            else decoded
                (unsecured, (if has_v3 r.version then secured_encode r context else context)))
          ≡ decoded (if has_v3 r.version then received_secured users r else unsecured, context))
  after_version whole = elim h.secured [
    | inl e ↦ rw e refl
    | inr (v, g, s, f, p) ↦ rw v (secured_lem crypto users whole r context g s f)
  ]

  pdu_lem :
      pdu_hdr_parse (pdu_encode r)
      ≡ decoded (r.pdu_hdr, put_header asn1_tag_seq r.vb_list_len (bindings_encode r.vb_out_list))
  unfolding pdu_encode
  pdu_lem =
      pdu_hdr_lem r.pdu_hdr (pdu_len r)
        (put_header asn1_tag_seq r.vb_list_len (bindings_encode r.vb_out_list)) (pdu_len-IsWord r)
        h.pdu_hdr

  bindings_lem :
      var_bind_parse (put_header asn1_tag_seq r.vb_list_len (bindings_encode r.vb_out_list))
      ≡ decoded (received r.vb_out_list)
  bindings_lem =
      let (e, l) = h.list_len in
      rw e (var_bind_parse-bindings_encode r.vb_out_list h.bindings (omega arith))

  tail : List ℕ
  unfolding context
  tail = if has_v3 r.version then secured_encode r context else context

  decode_lem :
      (whole : List ℕ)
      → whole ≡ put_header asn1_tag_seq (data_len r) (put_int r.version tail)
      → snmp_decode crypto users whole ≡ decoded (received_message users r)
  unfolding snmp_decode tail context
  decode_lem whole q =
      let behind = put_int r.version tail in
      rw
        (
          ap (λ t. get_byte t) q ∙ get_byte-put_header asn1_tag_seq (data_len r) behind,
          get_length-ber_length_enc (data_len r) behind (data_len-IsWord r),
          get_int-put_int snmp_err_version r.version tail h.version,
          after_version whole,
          get_string-put_octets 41 snmp_err_context_name snmp_err_context_name_len r.context_name
              (pdu_encode r) h.context_name,
          pdu_lem,
          bindings_lem,
        )
        refl

  -- `snmp_decode` reads back what `snmp_response` wrote for a message of any version of which the
  -- lengths are right, and which is neither to be authenticated nor to be encrypted: all fields and
  -- bindings, for version 3 with the engine identifier of the sender and the user of the given
  -- name.
  pub snmp_decode-snmp_response :
      snmp_decode crypto users (snmp_response r) ≡ decoded (received_message users r)
  unfolding snmp_response tail context
  snmp_decode-snmp_response = decode_lem (snmp_response r) refl
