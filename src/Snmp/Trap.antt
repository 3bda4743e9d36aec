-- ===== src/Snmp/Trap.antt =====
-- Traps: core/snmp_trap.c without the socket, the Lua handler and the event loop. The request identifier,
-- a random number, is a parameter.
pub mod Sent
use smithsnmp.Base.{
  ℕ, ◌+◌, ◌-◌, ◌%◌, ◌^◌, Bool, Option, none, some, List, [], ◌∷◌, ◌++◌, ◌==◌, if◌then◌else◌, length,
  take, le32, words,
}
use smithsnmp.Asn1.{asn1_tag_int, asn1_tag_objid, asn1_tag_octstr, asn1_tag_seq}
use smithsnmp.Ber.Value.{value_size, ber_value_enc_try}
use smithsnmp.Mib.Instance.{Variable}
use smithsnmp.Snmp.Request.{VarBind, vb_length, encoded}
use smithsnmp.Snmp.Message.{Number, Octets, no_number, no_octets, put_header, put_int, put_octets}
use smithsnmp.Snmp.Encode.{tlv_len, bindings_encode}

abbrev pub trap_v1 : ℕ
trap_v1 = 1

abbrev pub trap_v2 : ℕ
trap_v2 = 2

abbrev pub snmp_trap_v1 : ℕ
snmp_trap_v1 = 0xA4

abbrev pub snmp_trap_v2 : ℕ
snmp_trap_v2 = 0xA7

-- `trap_hdr` with the union by its member for version 2.
pub record TrapHdr : Type 0 where
  pub pdu_type : ℕ
  pub pdu_len : ℕ
  pub req_id : Number
  pub err_stat : Number
  pub err_idx : Number

-- `trap_datagram` without the socket, the handler and the buffer. The length of the community stands
-- before it.
pub record TrapDatagram : Type 0 where
  pub send_len : ℕ
  pub data_len : ℕ
  pub version : Number
  pub community : Octets
  pub trap_hdr : TrapHdr
  pub vb_list_len : ℕ
  pub vb_cnt : ℕ
  pub vb_list : List VarBind

-- The static variable at the start.
abbrev pub no_trap : TrapDatagram
no_trap = record {
  send_len = 0;
  data_len = 0;
  version = no_number;
  community = no_octets;
  trap_hdr = record {
    pdu_type = 0;
    pdu_len = 0;
    req_id = no_number;
    err_stat = no_number;
    err_idx = no_number;
  };
  vb_list_len = 0;
  vb_cnt = 0;
  vb_list = [];
}

abbrev pub trap_datagram_clear : TrapDatagram → TrapDatagram
trap_datagram_clear tdg = record tdg {
  send_len = 0;
  data_len = 0;
  trap_hdr = record (tdg.trap_hdr) { pdu_len = 0 };
  vb_list_len = 0;
  vb_cnt = 0;
  vb_list = [];
}

-- A binding at the end of the list.
unfoldable pub add_varbind : List ℕ → ℕ → List ℕ → TrapDatagram → TrapDatagram
unfolding vb_length tlv_len
add_varbind oid value_type value tdg =
    let vb_len = vb_length oid (length value) in
    record tdg {
      vb_list_len = (tdg.vb_list_len + tlv_len vb_len) % 2 ^ 32;
      vb_cnt = tdg.vb_cnt + 1;
      vb_list =
          tdg.vb_list
          ++ (record { oid = oid; vb_len = vb_len; value_type = value_type; value = value } ∷ []);
    }

-- A variable at the end of the list; `none` where its value exceeds the memory that was allocated by its
-- size, or a size is not found.
unfoldable pub snmp_trap_varbind : List ℕ → Variable → TrapDatagram → Option TrapDatagram
unfolding encoded ber_value_enc_try add_varbind
snmp_trap_varbind oid var tdg = elim (encoded (λ val_len. var.len) var) [
  | none ↦ none
  | some value ↦ elim (ber_value_enc_try (words oid) (length oid) asn1_tag_objid) [
    | none ↦ none
    | some id_len ↦ some (add_varbind oid var.tag value tdg)
  ]
]

unfoldable pub snmp_trapv2_header : TrapHdr → List ℕ → List ℕ
unfolding put_int
snmp_trapv2_header hdr rest = put_int hdr.req_id (put_int hdr.err_stat (put_int hdr.err_idx rest))

-- The lengths that `snmp_trap_encode` adds to those in the datagram, of `uint32_t`.
unfoldable pub with_lengths : TrapDatagram → TrapDatagram
unfolding tlv_len
with_lengths tdg =
    let hdr = tdg.trap_hdr in
    let pdu_len : ℕ =
      (hdr.pdu_len
        + tlv_len tdg.vb_list_len
        + tlv_len hdr.req_id.len
        + tlv_len hdr.err_stat.len
        + tlv_len hdr.err_idx.len)
      % 2 ^ 32 in
    let data_len : ℕ =
      (tdg.data_len + tlv_len pdu_len + tlv_len tdg.community.len + tlv_len tdg.version.len)
      % 2 ^ 32 in
    record tdg {
      send_len = (tdg.send_len + tlv_len data_len) % 2 ^ 32;
      data_len = data_len;
      trap_hdr = record hdr { pdu_len = pdu_len };
    }

-- The bytes, with the lengths of the datagram. The version on the wire is one less.
unfoldable pub trap_bytes : TrapDatagram → List ℕ
unfolding put_header put_int put_octets snmp_trapv2_header bindings_encode
trap_bytes tdg = put_header asn1_tag_seq tdg.data_len (
    put_int (record (tdg.version) { value = (tdg.version.value + 2 ^ 32 - 1) % 2 ^ 32 })
      (put_octets tdg.community (
        put_header tdg.trap_hdr.pdu_type tdg.trap_hdr.pdu_len (
          snmp_trapv2_header tdg.trap_hdr
            (put_header asn1_tag_seq tdg.vb_list_len (bindings_encode tdg.vb_list))))))

-- The datagram and the buffer. For another version than 2 the buffer is freed.
unfoldable pub snmp_trap_encode : TrapDatagram → TrapDatagram × Option (List ℕ)
unfolding with_lengths trap_bytes
snmp_trap_encode tdg =
    let tdg = with_lengths tdg in
    (tdg, if tdg.version.value == trap_v2 then some (trap_bytes tdg) else none)

-- `snmp_trap_send` up to the encoding; the size of an integer is always found. The lengths of the error status and index are computed from the
-- lengths before.
unfoldable pub prepare : ℕ → List ℕ → ℕ → TrapDatagram → TrapDatagram
unfolding value_size
prepare version community req_id tdg =
    let hdr = tdg.trap_hdr in
    record tdg {
      version = record { len = 1; value = version };
      community = record { len = length community; value = community };
      trap_hdr = record hdr {
        pdu_type =
            if version == trap_v1
            then snmp_trap_v1
            else if version == trap_v2
            then snmp_trap_v2
            else hdr.pdu_type;
        req_id = record { len = value_size (le32 req_id) 1 asn1_tag_int; value = req_id };
        err_stat = record { len = value_size (le32 hdr.err_stat.len) 1 asn1_tag_int; value = 0 };
        err_idx = record { len = value_size (le32 hdr.err_idx.len) 1 asn1_tag_int; value = 0 };
      };
    }

-- What is sent, and the datagram after it. `none` is the use of a buffer that was freed.
unfoldable pub snmp_trap_send : ℕ → List ℕ → ℕ → TrapDatagram → Option (List ℕ × TrapDatagram)
unfolding prepare snmp_trap_encode
snmp_trap_send version community req_id tdg =
    let (tdg, buf) = snmp_trap_encode (prepare version community req_id tdg) in
    elim buf [ none ↦ none | some bytes ↦ some (take tdg.send_len bytes, trap_datagram_clear tdg) ]
