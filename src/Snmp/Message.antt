-- ===== src/Snmp/Message.antt =====
-- A message: the parts of `snmp_datagram` (core/snmp.h) that are sent, the error codes of decoding, and
-- how single fields are read and written in core/snmp_msg_in.c and core/snmp_msg_out.c.
pub mod Fields
use smithsnmp.Base.{
  ℕ, ◌+◌, ◌%◌, ◌^◌, Bool, true, false, Option, none, some, List, [], ◌∷◌, ◌++◌, ltb, leb, ◌==◌,
  if◌then◌else◌, length, take, drop, le32, read32,
}
pub use smithsnmp.Parse.{Parsed, decoded, rejected, overrun, ◌>>=◌, ◌>>◌, check}
unfoldable pub use smithsnmp.Parse.{get_byte, get_bytes}
use smithsnmp.Asn1.{asn1_tag_int, asn1_tag_octstr, asn1_tag_seq}
use smithsnmp.Ber.Length.{ber_length_enc, ber_length_dec}
use smithsnmp.Ber.Value.{ber_value_enc, ber_value_dec}
use smithsnmp.Mib.User.{MibUser}
use smithsnmp.Snmp.Request.{VarBind}

-- `SNMP_ERR_CODE_E`, but for `SNMP_ERR_OK`.
pub data SnmpErrCode : Type 0 where
  snmp_err_version snmp_err_global_data_len snmp_err_global_id snmp_err_global_size : SnmpErrCode
  snmp_err_global_flags snmp_err_global_model snmp_err_security_str : SnmpErrCode
  snmp_err_security_seq snmp_err_security_engine_id snmp_err_security_engine_id_len : SnmpErrCode
  snmp_err_security_engine_boots snmp_err_security_engine_time : SnmpErrCode
  snmp_err_security_user_name snmp_err_security_user_name_len : SnmpErrCode
  snmp_err_security_auth_para snmp_err_security_auth_para_len : SnmpErrCode
  snmp_err_security_priv_para snmp_err_security_priv_para_len : SnmpErrCode
  snmp_err_scope_pdu_seq snmp_err_context_id snmp_err_context_id_len : SnmpErrCode
  snmp_err_context_name snmp_err_context_name_len snmp_err_pdu_type snmp_err_pdu_len : SnmpErrCode
  snmp_err_pdu_reqid snmp_err_pdu_errstat snmp_err_pdu_erridx snmp_err_vb_list_seq : SnmpErrCode
  snmp_err_vb_seq snmp_err_vb_oid_type snmp_err_vb_var snmp_err_vb_value_len : SnmpErrCode
  snmp_err_vb_oid_len snmp_err_auth_no_such_user snmp_err_auth_fail : SnmpErrCode
  snmp_err_encrypt_pdu_tag : SnmpErrCode

abbrev pub Decoded {ℓ} : Type ℓ → Type ℓ
Decoded A = Parsed SnmpErrCode A

-- A number or a string in the message, with the length that stands before it.
pub record Number : Type 0 where
  pub len : ℕ
  pub value : ℕ

pub record Octets : Type 0 where
  pub len : ℕ
  pub value : List ℕ

-- The fields of global data.
pub record GlobalData : Type 0 where
  pub msg_id : Number
  pub msg_max_size : Number
  pub msg_flags : Octets
  pub msg_security_model : Number

-- The security parameter.
pub record SecurityParameter : Type 0 where
  pub engine_id : Octets
  pub engine_boots : Number
  pub engine_time : Number
  pub user_name : Octets
  pub auth_para : Octets
  pub priv_para : Octets

-- `pdu_hdr`
pub record PduHdr : Type 0 where
  pub pdu_type : ℕ
  pub req_id : Number
  pub err_stat : Number
  pub err_idx : Number

-- What only a message of version 3 has.
pub record Secured : Type 0 where
  pub global_data : GlobalData
  pub security : SecurityParameter
  pub user : Option MibUser
  pub auth_err : ℕ
  pub context_id : Octets

-- `snmp_datagram` after decoding.
pub record Message : Type 0 where
  pub version : Number
  pub secured : Secured
  pub context_name : Octets
  pub pdu_hdr : PduHdr
  pub vb_in_list : List VarBind

abbrev pub no_number : Number
no_number = record { len = 0; value = 0 }

abbrev pub no_octets : Octets
no_octets = record { len = 0; value = [] }

-- The cleared fields of a message of another version.
abbrev pub unsecured : Secured
unsecured = record {
  global_data = record {
    msg_id = no_number;
    msg_max_size = no_number;
    msg_flags = no_octets;
    msg_security_model = no_number;
  };
  security = record {
    engine_id = no_octets;
    engine_boots = no_number;
    engine_time = no_number;
    user_name = no_octets;
    auth_para = no_octets;
    priv_para = no_octets;
  };
  user = none;
  auth_err = 0;
  context_id = no_octets;
}

-- The length at the front of a buffer, and what is behind it.
unfoldable pub get_length : List ℕ → Decoded (ℕ × List ℕ)
unfolding ber_length_dec
get_length buf = elim (ber_length_dec buf) [
  | none ↦ overrun
  | some (len_len, len) ↦ decoded (len, drop len_len buf)
]

-- `*buf++ != tag`, and the length behind it.
unfoldable pub get_header : ℕ → SnmpErrCode → List ℕ → Decoded (ℕ × List ℕ)
unfolding get_length
get_header tag err [] = overrun
get_header tag err (b ∷ buf) = if b == tag then get_length buf else rejected err

-- A field of type `integer_t`, which was cleared before. A value of no bytes is not stored.
unfoldable pub get_int : SnmpErrCode → List ℕ → Decoded (Number × List ℕ)
unfolding get_header get_bytes
get_int err buf = do
  (len, buf) ← get_header asn1_tag_int err buf
  (bytes, buf) ← get_bytes len buf
  decoded (record { len = len; value = read32 (ber_value_dec bytes asn1_tag_int).1 }, buf)

-- The value of a field of type `octstr_t` or of bytes.
unfoldable pub get_octets : ℕ → List ℕ → Decoded (Octets × List ℕ)
unfolding get_bytes
get_octets len buf = do
  (bytes, buf) ← get_bytes len buf
  decoded (record { len = len; value = (ber_value_dec bytes asn1_tag_octstr).1 }, buf)

-- A string for an array of `room` elements, of which the last is for the end of the string. The sum
-- `len + 1` is that of a `uint32_t`: the array ends before a string of the length 2 ^ 32 - 1 that
-- passes the test.
unfoldable pub get_string : ℕ → SnmpErrCode → SnmpErrCode → List ℕ → Decoded (Octets × List ℕ)
unfolding get_header get_octets
get_string room err err_len buf = do
  (len, buf) ← get_header asn1_tag_octstr err buf
  check (ltb room ((len + 1) % 2 ^ 32)) err_len
  if ltb room len then overrun else get_octets len buf

-- The fields as they are written before the rest of a message.
unfoldable pub put_header : ℕ → ℕ → List ℕ → List ℕ
unfolding ber_length_enc
put_header tag len rest = tag ∷ (ber_length_enc len ++ rest)

unfoldable pub put_int : Number → List ℕ → List ℕ
unfolding put_header
put_int n rest = put_header asn1_tag_int n.len (ber_value_enc (le32 n.value) 1 asn1_tag_int ++ rest)

unfoldable pub put_octets : Octets → List ℕ → List ℕ
unfolding put_header
put_octets s rest =
    put_header asn1_tag_octstr s.len (ber_value_enc s.value s.len asn1_tag_octstr ++ rest)
