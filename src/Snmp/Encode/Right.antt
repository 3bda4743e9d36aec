-- ===== src/Snmp/Encode/Right.antt =====
-- Responses of which the lengths are right, for `snmp_response` (core/snmp_msg_out.c).
use smithsnmp.Base.{ℕ, ◌+◌, ◌^◌, ◌<◌, ◌≤◌, ◌≡◌, true, false, length, All, ◌⊎◌}
use smithsnmp.Snmp.Access.{snmp_secur_flag_auth}
use smithsnmp.Snmp.Message.{Octets, GlobalData, SecurityParameter, PduHdr}
use smithsnmp.Snmp.Message.Fields.{IsNumber, IsOctets}
use smithsnmp.Snmp.Decode.{has_v3}
use smithsnmp.Snmp.Decode.Security.{
  has_flag, snmp_secur_flag_encrypt, snmp_msg_auth_para_len, snmp_msg_encrypt_para_len,
}
use smithsnmp.Snmp.Encode.{Response}
use smithsnmp.Snmp.Encode.Body.{IsBinding, list_length}

abbrev pub IsPduHdr : PduHdr → Type 0
IsPduHdr h = IsNumber h.req_id × IsNumber h.err_stat × IsNumber h.err_idx

-- The flags are at most one byte.
abbrev pub IsGlobalData : GlobalData → Type 0
IsGlobalData g =
    IsNumber g.msg_id
    × IsNumber g.msg_max_size
    × IsOctets 2 g.msg_flags
    × IsNumber g.msg_security_model

-- A parameter has its length, or none.
abbrev pub IsPara : ℕ → Octets → Type 0
IsPara n s = (s.len ≡ length s.value) × ((s.len ≡ 0) ⊎ (s.len ≡ n)) × (n ≤ 255)

abbrev pub IsSecurity : SecurityParameter → Type 0
IsSecurity sp =
    IsNumber sp.engine_boots
    × IsNumber sp.engine_time
    × IsOctets 41 sp.user_name
    × IsPara snmp_msg_auth_para_len sp.auth_para
    × IsPara snmp_msg_encrypt_para_len sp.priv_para

-- The lengths in the response are those of what they stand before, and it is not of version 3, or its
-- fields of version 3 are right too and it is neither to be authenticated nor to be encrypted.
pub record IsResponse (r : Response) : Type 0 where
  pub version : IsNumber r.version
  pub context_name : IsOctets 41 r.context_name
  pub pdu_hdr : IsPduHdr r.pdu_hdr
  pub bindings : All IsBinding r.vb_out_list
  pub list_len : (r.vb_list_len ≡ list_length r.vb_out_list) × (r.vb_list_len + 1024 < 2 ^ 32)
  pub secured :
      (has_v3 r.version ≡ false)
      ⊎ ((has_v3 r.version ≡ true)
          × IsGlobalData r.global_data
          × IsSecurity r.security
          × (has_flag snmp_secur_flag_auth r.global_data ≡ false)
          × (has_flag snmp_secur_flag_encrypt r.global_data ≡ false))
