-- ===== src/Snmp/Encode.antt =====
-- The encoding of a response without cryptography: core/snmp_msg_out.c. What the code writes from front
-- to back is put in front of what follows it.
pub mod Body
pub mod Bindings
pub mod Sizes
pub mod Lengths
pub mod Right
pub mod Parts
pub mod RoundTrip
use smithsnmp.Base.{ℕ, ◌+◌, ◌%◌, ◌^◌, Bool, List, [], ◌∷◌, ◌++◌, if◌then◌else◌, length, words}
use smithsnmp.Asn1.{asn1_tag_int, asn1_tag_octstr, asn1_tag_objid, asn1_tag_seq}
use smithsnmp.Ber.Length.{ber_length_enc_try, ber_length_enc}
use smithsnmp.Ber.Value.{value_size, ber_value_enc}
use smithsnmp.Snmp.Request.{VarBind}
use smithsnmp.Snmp.Message.{
  Number, Octets, GlobalData, SecurityParameter, PduHdr, Secured, put_header, put_int, put_octets,
}
use smithsnmp.Snmp.Decode.{has_v3}
use smithsnmp.Snmp.Decode.Security.{has_flag, snmp_secur_flag_encrypt}

-- What `snmp_response` reads of `snmp_datagram`.
pub record Response : Type 0 where
  pub version : Number
  pub global_data : GlobalData
  pub security : SecurityParameter
  pub context_name : Octets
  pub pdu_hdr : PduHdr
  pub vb_list_len : ℕ
  pub vb_out_list : List VarBind

-- The array of 15 bytes; the last one is not given, so it is 0.
abbrev pub snmpv3_engine_id : Octets
snmpv3_engine_id = record {
  len = 15;
  value = 0x80 ∷ 0 ∷ 0 ∷ 0 ∷ 4 ∷ 83 ∷ 109 ∷ 97 ∷ 114 ∷ 116 ∷ 83 ∷ 78 ∷ 77 ∷ 80 ∷ 0 ∷ [];
}

-- `tag_len + len_len + len`
unfoldable pub tlv_len : ℕ → ℕ
tlv_len len = 1 + ber_length_enc_try len + len

unfoldable pub global_data_encode_try : GlobalData → ℕ
unfolding tlv_len
global_data_encode_try g =
    (tlv_len g.msg_id.len
      + tlv_len g.msg_max_size.len
      + tlv_len g.msg_flags.len
      + tlv_len g.msg_security_model.len)
    % 2 ^ 32

-- The length of the sequence, and then its fields.
unfoldable pub global_data_encode : GlobalData → List ℕ → List ℕ
unfolding global_data_encode_try put_header put_int put_octets
global_data_encode g rest = put_header asn1_tag_seq (global_data_encode_try g) (
    put_int g.msg_id
      (put_int g.msg_max_size (put_octets g.msg_flags (put_int g.msg_security_model rest))))

-- The engine identifier of the request is replaced.
unfoldable pub security_parameter_encode_try : SecurityParameter → ℕ
unfolding tlv_len
security_parameter_encode_try sp =
    (tlv_len snmpv3_engine_id.len
      + tlv_len sp.engine_boots.len
      + tlv_len sp.engine_time.len
      + tlv_len sp.user_name.len
      + tlv_len sp.auth_para.len
      + tlv_len sp.priv_para.len)
    % 2 ^ 32

unfoldable pub security_parameter_encode : SecurityParameter → List ℕ → List ℕ
unfolding security_parameter_encode_try put_header put_int put_octets
security_parameter_encode sp rest = put_header asn1_tag_seq (security_parameter_encode_try sp) (
    put_octets snmpv3_engine_id (
      put_int sp.engine_boots (
        put_int sp.engine_time
          (put_octets sp.user_name (put_octets sp.auth_para (put_octets sp.priv_para rest))))))

-- The lengths that `asn1_encode` stores, of `uint32_t`.
unfoldable pub pdu_len : Response → ℕ
unfolding tlv_len
pdu_len r =
    (tlv_len r.vb_list_len
      + tlv_len r.pdu_hdr.req_id.len
      + tlv_len r.pdu_hdr.err_stat.len
      + tlv_len r.pdu_hdr.err_idx.len)
    % 2 ^ 32

unfoldable pub scope_len : Response → ℕ
unfolding tlv_len pdu_len
scope_len r =
    (tlv_len (pdu_len r)
      + tlv_len r.context_name.len
      + (if has_v3 r.version then tlv_len snmpv3_engine_id.len else 0))
    % 2 ^ 32

unfoldable pub secur_str_len : Response → ℕ
unfolding tlv_len security_parameter_encode_try
secur_str_len r = tlv_len (security_parameter_encode_try r.security) % 2 ^ 32

-- The encryption adds a header.
unfoldable pub data_len : Response → ℕ
unfolding tlv_len scope_len secur_str_len global_data_encode_try
data_len r =
    let secured =
      tlv_len (global_data_encode_try r.global_data)
      + tlv_len (secur_str_len r)
      + 1
      + ber_length_enc_try (scope_len r)
      + (if has_flag snmp_secur_flag_encrypt r.global_data
          then 1 + ber_length_enc_try (tlv_len (scope_len r) % 2 ^ 32)
          else 0) in
    ((if has_v3 r.version then secured else 0) + scope_len r + tlv_len r.version.len) % 2 ^ 32

-- The loop of `snmp_response`, for identifiers whose size was found when the bindings were made.
unfoldable pub bindings_encode : List VarBind → List ℕ
unfolding put_header
bindings_encode [] = []
bindings_encode (vb ∷ vbs) =
    let oid_len = value_size (words vb.oid) (length vb.oid) asn1_tag_objid in
    put_header asn1_tag_seq vb.vb_len (
      put_header asn1_tag_objid oid_len (
        ber_value_enc (words vb.oid) (length vb.oid) asn1_tag_objid
        ++ put_header vb.value_type (length vb.value) (vb.value ++ bindings_encode vbs)))

-- The PDU with its header.
unfoldable pub pdu_encode : Response → List ℕ
unfolding put_header put_int pdu_len bindings_encode
pdu_encode r = put_header r.pdu_hdr.pdu_type (pdu_len r) (
    put_int r.pdu_hdr.req_id (
      put_int r.pdu_hdr.err_stat (
        put_int r.pdu_hdr.err_idx
          (put_header asn1_tag_seq r.vb_list_len (bindings_encode r.vb_out_list)))))

-- What version 3 has in front of the context name.
unfoldable pub secured_encode : Response → List ℕ → List ℕ
unfolding put_header put_octets global_data_encode security_parameter_encode scope_len secur_str_len
secured_encode r rest = global_data_encode r.global_data (
    put_header asn1_tag_octstr (secur_str_len r) (
      security_parameter_encode r.security
        (put_header asn1_tag_seq (scope_len r) (put_octets snmpv3_engine_id rest))))

-- What `asn1_encode` and the loop behind it write. A message that is to be authenticated is then signed,
-- and encrypted before that; for one to be encrypted only, the buffer goes on behind what is written.
unfoldable pub snmp_response : Response → List ℕ
unfolding put_header put_int put_octets secured_encode pdu_encode data_len
snmp_response r =
    let scoped = put_octets r.context_name (pdu_encode r) in
    put_header asn1_tag_seq (data_len r)
      (put_int r.version (if has_v3 r.version then secured_encode r scoped else scoped))
