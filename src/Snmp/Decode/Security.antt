-- ===== src/Snmp/Decode/Security.antt =====
-- What a message of version 3 has in front of its PDU: `global_data_decode`,
-- `security_parameter_decode`, `snmp_msg_authen` and `snmp_msg_decrypt` of core/snmp_msg_in.c, and the
-- part of `snmp_decode` that calls them.
use smithsnmp.Base.{
  zeros, ℕ, ◌-◌, bit_and, Bool, not, ◌&&◌, Option, none, some, List, [], ◌∷◌, ◌++◌, ltb, ◌==◌,
  if◌then◌else◌, length, take, drop, get_or, byte_of, overlay,
}
use smithsnmp.Asn1.{asn1_tag_octstr, asn1_tag_seq}
use smithsnmp.Mib.View.{same_name}
use smithsnmp.Mib.User.{MibUser, mib_user_search}
use smithsnmp.Snmp.Access.{snmp_secur_flag_auth}
use smithsnmp.Snmp.Message.{
  SnmpErrCode, snmp_err_global_data_len, snmp_err_global_id, snmp_err_global_size,
  snmp_err_global_flags, snmp_err_global_model, snmp_err_security_str, snmp_err_security_seq,
  snmp_err_security_engine_id, snmp_err_security_engine_id_len, snmp_err_security_engine_boots,
  snmp_err_security_engine_time, snmp_err_security_user_name, snmp_err_security_user_name_len,
  snmp_err_security_auth_para, snmp_err_security_auth_para_len, snmp_err_security_priv_para_len,
  snmp_err_scope_pdu_seq, snmp_err_context_id, snmp_err_context_id_len, snmp_err_encrypt_pdu_tag,
  Decoded, decoded, overrun, ◌>>=◌, ◌>>◌, check, Octets, GlobalData, SecurityParameter, Secured,
  get_header, get_bytes, get_int, get_octets, get_string,
}

-- `msg_flags` is one character: more bytes are written over what is behind it.
unfoldable pub global_data_decode : List ℕ → Decoded (GlobalData × List ℕ)
unfolding get_int get_header get_octets
global_data_decode buf = do
  (msg_id, buf) ← get_int snmp_err_global_id buf
  (msg_max_size, buf) ← get_int snmp_err_global_size buf
  (len, buf) ← get_header asn1_tag_octstr snmp_err_global_flags buf
  (msg_flags, buf) ← if ltb 1 len then overrun else get_octets len buf
  (msg_security_model, buf) ← get_int snmp_err_global_model buf
  decoded (
    record {
      msg_id = msg_id;
      msg_max_size = msg_max_size;
      msg_flags = msg_flags;
      msg_security_model = msg_security_model;
    },
    buf,
  )

abbrev pub snmp_msg_auth_para_len : ℕ
snmp_msg_auth_para_len = 12

abbrev pub snmp_msg_encrypt_para_len : ℕ
snmp_msg_encrypt_para_len = 8

-- A parameter of a given length, or of none.
unfoldable pub get_para : ℕ → SnmpErrCode → SnmpErrCode → List ℕ → Decoded (Octets × List ℕ)
unfolding get_header get_octets
get_para para_len err err_len buf = do
  (len, buf) ← get_header asn1_tag_octstr err buf
  check (not (len == 0) && not (len == para_len)) err_len
  get_octets len buf

-- The parameter, and how many bytes of the message are behind the code of authentication, which is
-- blanked. The error of the last tag is that of the engine time.
unfoldable pub security_parameter_decode : List ℕ → Decoded (SecurityParameter × ℕ × List ℕ)
unfolding get_header get_int get_string get_para
security_parameter_decode buf = do
  (secur_str_len, buf) ← get_header asn1_tag_octstr snmp_err_security_str buf
  (secur_para_len, buf) ← get_header asn1_tag_seq snmp_err_security_seq buf
  (engine_id, buf) ← get_string 33 snmp_err_security_engine_id snmp_err_security_engine_id_len buf
  (engine_boots, buf) ← get_int snmp_err_security_engine_boots buf
  (engine_time, buf) ← get_int snmp_err_security_engine_time buf
  (user_name, buf) ← get_string 41 snmp_err_security_user_name snmp_err_security_user_name_len buf
  (auth_para, behind) ←
      get_para snmp_msg_auth_para_len snmp_err_security_auth_para snmp_err_security_auth_para_len
        buf
  (priv_para, buf) ←
      get_para snmp_msg_encrypt_para_len snmp_err_security_engine_time
        snmp_err_security_priv_para_len behind
  decoded (
    record {
      engine_id = engine_id;
      engine_boots = engine_boots;
      engine_time = engine_time;
      user_name = user_name;
      auth_para = auth_para;
      priv_para = priv_para;
    },
    length behind,
    buf,
  )

-- `memset(buf, 0, auth_para_len)` in the message `whole`, with `behind` bytes behind what is cleared.
unfoldable pub blanked : List ℕ → ℕ → ℕ → List ℕ
blanked whole len behind =
    take (length whole - behind - len) whole ++ zeros len ++ drop (length whole - behind) whole

-- A string in an array, up to its end.
abbrev pub c_string : List ℕ → List ℕ
c_string [] = []
c_string (c ∷ s) = let rest = c_string s in if c == 0 then [] else c ∷ rest

-- The functions of 3rd/crypto with the keys of a user: the code of a message, if the user has a mode
-- of authentication, and a text, by the vector, if the user has a mode of encryption.
pub record Crypto : Type 0 where
  pub hmac : MibUser → List ℕ → Option (List ℕ)
  pub aes_decrypt : MibUser → List ℕ → List ℕ → Option (List ℕ)

abbrev pub snmp_err_stat_gen_err : ℕ
snmp_err_stat_gen_err = 5

abbrev pub snmp_err_stat_authorization : ℕ
snmp_err_stat_authorization = 16

abbrev pub snmp_secur_flag_encrypt : ℕ
snmp_secur_flag_encrypt = 2

-- The new `auth_err`, which was cleared before.
unfoldable pub snmp_msg_authen : Crypto → MibUser → List ℕ → SecurityParameter → ℕ
unfolding same_name
snmp_msg_authen crypto user whole sp = elim (crypto.hmac user whole) [
  | none ↦ snmp_err_stat_gen_err
  | some mac ↦
      if same_name (take sp.auth_para.len mac) (take sp.auth_para.len sp.auth_para.value)
      then 0
      else snmp_err_stat_authorization
]

-- `ntohl`, as the bytes in memory.
abbrev pub be32 : ℕ → List ℕ
be32 v = byte_of v 3 ∷ byte_of v 2 ∷ byte_of v 1 ∷ byte_of v 0 ∷ []

-- The buffer after the text was written over it.
unfoldable pub snmp_msg_decrypt : Crypto → MibUser → SecurityParameter → List ℕ → List ℕ → List ℕ
snmp_msg_decrypt crypto user sp cipher buf =
    let iv = be32 sp.engine_boots.value ++ be32 sp.engine_time.value ++ sp.priv_para.value in
    elim (crypto.aes_decrypt user iv cipher) [ none ↦ buf | some plain ↦ overlay plain buf ]

-- `msg_flags & flag`
abbrev pub has_flag : ℕ → GlobalData → Bool
has_flag flag g = not (bit_and (get_or g.msg_flags.value 0 0) flag == 0)

-- The decryption of an authentic message.
unfoldable pub decrypt_scope :
    Crypto → MibUser → SecurityParameter → List ℕ → Decoded (Option MibUser × ℕ × List ℕ)
unfolding snmp_msg_decrypt get_header get_bytes
decrypt_scope crypto user sp buf = do
  (scope_len, cipher) ← get_header asn1_tag_octstr snmp_err_encrypt_pdu_tag buf
  (text, behind) ← get_bytes scope_len cipher
  decoded (some user, 0, snmp_msg_decrypt crypto user sp text buf)

-- `User security model`: the user, the error of the authentication, and the buffer.
unfoldable pub user_security :
    Crypto
    → List MibUser
    → List ℕ
    → GlobalData
    → SecurityParameter
    → List ℕ
    → Decoded (Option MibUser × ℕ × List ℕ)
unfolding mib_user_search snmp_msg_authen decrypt_scope
user_security crypto users whole g sp buf =
    let user = mib_user_search users (c_string sp.user_name.value) in
    if has_flag snmp_secur_flag_auth g
    then elim user [
      | none ↦ decoded (none, 0, buf)
      | some u ↦
          let auth_err = snmp_msg_authen crypto u whole sp in
          if auth_err == 0 && has_flag snmp_secur_flag_encrypt g
          then decrypt_scope crypto u sp buf
          else decoded (some u, auth_err, buf)
    ]
    else decoded (user, 0, buf)

-- The part of `snmp_decode` for version 3.
unfoldable pub secured_decode : Crypto → List MibUser → List ℕ → List ℕ → Decoded (Secured × List ℕ)
unfolding get_header global_data_decode security_parameter_decode user_security get_string blanked
secured_decode crypto users whole buf = do
  (msg_len, buf) ← get_header asn1_tag_seq snmp_err_global_data_len buf
  (global_data, buf) ← global_data_decode buf
  (security, behind, buf) ← security_parameter_decode buf
  (user, auth_err, buf) ←
      user_security crypto users (blanked whole security.auth_para.len behind) global_data security
        buf
  (scope_len, buf) ← get_header asn1_tag_seq snmp_err_scope_pdu_seq buf
  (context_id, buf) ← get_string 33 snmp_err_context_id snmp_err_context_id_len buf
  decoded (
    record {
      global_data = global_data;
      security = security;
      user = user;
      auth_err = auth_err;
      context_id = context_id;
    },
    buf,
  )
