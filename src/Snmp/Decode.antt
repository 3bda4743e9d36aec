-- ===== src/Snmp/Decode.antt =====
-- The decoding of a message: core/snmp_msg_in.c. The bytes that are not read yet are the buffer; the
-- lengths of the sequences are stored by the code and used nowhere, so they are left out here, but
-- for those of the variable bindings.
pub mod Pdu
pub mod Rounds
pub mod Security
use smithsnmp.Base.{
  ℕ, zero, suc, ◌+◌, ◌-◌, ◌/◌, ◌%◌, ◌^◌, bit_and, Bool, not, ◌&&◌, ◌||◌, Option, none, some, List,
  [], ◌∷◌, ◌++◌, ltb, leb, ◌==◌, if◌then◌else◌, length, take, drop, get_or, byte_of, is_negative,
  read_words, overlay,
}
use smithsnmp.Asn1.{
  asn1_tag_int, asn1_tag_octstr, asn1_tag_objid, asn1_tag_seq, asn1_oid_max_len, asn1_value_max_len,
}
use smithsnmp.Ber.Value.{ber_value_dec_try, ber_value_dec}
use smithsnmp.Mib.View.{same_name}
use smithsnmp.Mib.User.{MibUser, mib_user_search}
use smithsnmp.Snmp.Access.{snmp_secur_flag_auth}
use smithsnmp.Snmp.Request.{VarBind}
use smithsnmp.Snmp.Message.{
  SnmpErrCode, snmp_err_version, snmp_err_global_data_len, snmp_err_global_id, snmp_err_global_size,
  snmp_err_global_flags, snmp_err_global_model, snmp_err_security_str, snmp_err_security_seq,
  snmp_err_security_engine_id, snmp_err_security_engine_id_len, snmp_err_security_engine_boots,
  snmp_err_security_engine_time, snmp_err_security_user_name, snmp_err_security_user_name_len,
  snmp_err_security_auth_para, snmp_err_security_auth_para_len, snmp_err_security_priv_para_len,
  snmp_err_scope_pdu_seq, snmp_err_context_id, snmp_err_context_id_len, snmp_err_context_name,
  snmp_err_context_name_len, snmp_err_pdu_reqid, snmp_err_pdu_errstat, snmp_err_pdu_erridx,
  snmp_err_vb_list_seq, snmp_err_vb_seq, snmp_err_vb_oid_type, snmp_err_vb_value_len,
  snmp_err_vb_oid_len, snmp_err_encrypt_pdu_tag, Decoded, decoded, rejected, overrun, ◌>>=◌, ◌>>◌,
  check, Number, Octets, GlobalData, SecurityParameter, PduHdr, Secured, Message, unsecured,
  get_byte, get_length, get_header, get_bytes, get_int, get_octets, get_string,
}
use smithsnmp.Snmp.Decode.Pdu.{pdu_hdr_parse, var_bind_parse}
use smithsnmp.Snmp.Decode.Security.{Crypto, secured_decode}

-- `version >= 3`
abbrev pub has_v3 : Number → Bool
has_v3 version = leb 3 version.value && not (is_negative version.value)

-- A message that is rejected leaves the datagram cleared. The tag in front was tested before.
unfoldable pub snmp_decode : Crypto → List MibUser → List ℕ → Decoded Message
unfolding get_byte get_length get_int secured_decode get_string pdu_hdr_parse var_bind_parse
snmp_decode crypto users whole = do
  (tag, buf) ← get_byte whole
  (data_len, buf) ← get_length buf
  (version, buf) ← get_int snmp_err_version buf
  (secured, buf) ←
      if has_v3 version then secured_decode crypto users whole buf else decoded (unsecured, buf)
  (context_name, buf) ← get_string 41 snmp_err_context_name snmp_err_context_name_len buf
  (pdu_hdr, buf) ← pdu_hdr_parse buf
  vb_in_list ← var_bind_parse buf
  decoded (record {
    version = version;
    secured = secured;
    context_name = context_name;
    pdu_hdr = pdu_hdr;
    vb_in_list = vb_in_list;
  })
