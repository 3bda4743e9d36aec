-- ===== src/Snmp/Decode/Pdu.antt =====
-- `pdu_hdr_parse` and `var_bind_parse` of core/snmp_msg_in.c.
use smithsnmp.Base.{ℕ, zero, suc, ◌+◌, ◌-◌, List, [], ◌∷◌, ltb, length, drop, read_words}
use smithsnmp.Asn1.{asn1_tag_objid, asn1_tag_seq, asn1_oid_max_len, asn1_value_max_len}
use smithsnmp.Ber.Value.{ber_value_dec_try, ber_value_dec}
use smithsnmp.Snmp.Request.{VarBind}
use smithsnmp.Parse.{less}
use smithsnmp.Snmp.Message.{
  snmp_err_pdu_reqid, snmp_err_pdu_errstat, snmp_err_pdu_erridx, snmp_err_vb_list_seq,
  snmp_err_vb_seq, snmp_err_vb_oid_type, snmp_err_vb_value_len, snmp_err_vb_oid_len, Decoded,
  decoded, overrun, ◌>>=◌, ◌>>◌, check, PduHdr, get_byte, get_length, get_header, get_bytes,
  get_int,
}

-- The binding at the front of a buffer. Its own length is not stored.
unfoldable pub var_bind_alloc : List ℕ → Decoded VarBind
unfolding get_header get_bytes get_byte get_length
var_bind_alloc buf = do
  (oid_len, buf) ← get_header asn1_tag_objid snmp_err_vb_oid_type buf
  (oid_bytes, buf) ← get_bytes oid_len buf
  check (ltb asn1_oid_max_len (ber_value_dec_try oid_bytes asn1_tag_objid)) snmp_err_vb_oid_len
  (val_type, buf) ← get_byte buf
  (val_len, buf) ← get_length buf
  check (ltb asn1_value_max_len val_len) snmp_err_vb_value_len
  (value, buf) ← get_bytes val_len buf
  let (oid_dec_len, oid) = ber_value_dec oid_bytes asn1_tag_objid
  decoded (record {
    oid = read_words oid oid_dec_len;
    vb_len = 0;
    value_type = val_type;
    value = value;
  })

unfoldable pub pdu_hdr_parse : List ℕ → Decoded (PduHdr × List ℕ)
unfolding get_byte get_length get_int
pdu_hdr_parse buf = do
  (pdu_type, buf) ← get_byte buf
  (pdu_len, buf) ← get_length buf
  (req_id, buf) ← get_int snmp_err_pdu_reqid buf
  (err_stat, buf) ← get_int snmp_err_pdu_errstat buf
  (err_idx, buf) ← get_int snmp_err_pdu_erridx buf
  decoded
      (record { pdu_type = pdu_type; req_id = req_id; err_stat = err_stat; err_idx = err_idx }, buf)

-- The loop over the bindings, for a number of rounds. A round reads two bytes at least.
unfoldable pub var_binds : ℕ → ℕ → List ℕ → Decoded (List VarBind)
unfolding get_header var_bind_alloc
var_binds k zero buf = decoded []
var_binds zero (suc vb_list_len) buf = overrun
var_binds (suc k) (suc vb_list_len) buf = do
  (vb_len, behind) ← get_header asn1_tag_seq snmp_err_vb_seq buf
  vb ← var_bind_alloc behind
  vbs ←
      var_binds k (less (suc vb_list_len) (length buf - length behind + vb_len))
        (drop vb_len behind)
  decoded (vb ∷ vbs)

unfoldable pub var_bind_parse : List ℕ → Decoded (List VarBind)
unfolding get_header var_binds
var_bind_parse buf = do
  (vb_list_len, buf) ← get_header asn1_tag_seq snmp_err_vb_list_seq buf
  var_binds (length buf) vb_list_len buf
