-- ===== src/Agentx/Encode.antt =====
-- The AgentX messages that are sent: core/agentx_msg_out.c on a little-endian machine. A buffer is
-- cleared when it is allocated, so the bytes that are stepped over are 0. A context or a description is
-- the bytes of a C string, whose length the callers pass. A failed assertion is `none`.
use smithsnmp.Base.{
  ℕ, ◌+◌, ◌-◌, ◌*◌, ◌/◌, ◌%◌, ◌^◌, bit_or, ◌&&◌, ◌||◌, Option, none, some, List, [], ◌∷◌, ◌++◌,
  ◌==◌, ltb, leb, if◌then◌else◌, length, take, drop, get_or, byte_of, le32, read32, read_words,
  words, zeros,
}
use smithsnmp.Asn1.{asn1_tag_cnt64, asn1_tag_objid, asn1_oid_max_len, asn1_value_max_len}
use smithsnmp.Ber.Value.{is_octets}
use smithsnmp.Agentx.{is_word, uint_sizeof}
use smithsnmp.Agentx.Message.{
  XPduHdr, XVarBind, AgentxDatagram, agentx_pdu_open, agentx_pdu_close, agentx_pdu_reg,
  agentx_pdu_unreg, agentx_pdu_ping, agentx_pdu_response, instance_registration,
}

-- `x_pdu_buf`
pub record XPduBuf : Type 0 where
  pub buf : List ℕ
  pub len : ℕ

-- A store of half a word.
abbrev pub le16 : ℕ → List ℕ
le16 v = byte_of v 0 ∷ byte_of v 1 ∷ []

-- The header of a message of `len` bytes, with the identifiers of `hdr`. The reserved byte is 0.
unfoldable pub hdr_enc : ℕ → ℕ → ℕ → XPduHdr → ℕ → List ℕ
hdr_enc version type flags hdr len =
    version
    ∷ type
    ∷ flags
    ∷ 0
    ∷ (le32 hdr.session_id ++ le32 hdr.transaction_id ++ le32 hdr.packet_id ++ le32 (len - 20))

-- `x_objid_t`: the first four numbers of an identifier are left out, and the fifth is one byte.
-- An identifier of no more numbers is without a prefix.
unfoldable pub objid_enc : List ℕ → List ℕ
objid_enc oid = (length oid - 5) % 256 ∷ get_or oid 4 0 % 256 ∷ 0 ∷ 0 ∷ words (drop 5 oid)

-- `x_octstr_t` of a room of `len` bytes.
unfoldable pub octstr_enc : ℕ → List ℕ → List ℕ
octstr_enc len str = le32 len ++ str ++ zeros (len - length str)

-- The context, if it is not empty, and its room.
unfoldable pub context_enc : List ℕ → List ℕ
unfolding octstr_enc
context_enc context =
    let ctx_len = uint_sizeof (length context) in
    if ltb 0 ctx_len then octstr_enc ctx_len context else []

abbrev pub context_room : List ℕ → ℕ
context_room context =
    let ctx_len = uint_sizeof (length context) in if ltb 0 ctx_len then 4 + ctx_len else 0

-- `xdg->pdu_hdr.packet_id += 1`
abbrev pub next_packet : AgentxDatagram → AgentxDatagram
next_packet xdg = record xdg {
  pdu_hdr = record (xdg.pdu_hdr) { packet_id = (xdg.pdu_hdr.packet_id + 1) % 2 ^ 32 };
}

-- The datagram is not changed.
unfoldable pub agentx_open_pdu :
    AgentxDatagram → List ℕ → List ℕ → Option (AgentxDatagram × XPduBuf)
unfolding hdr_enc objid_enc octstr_enc
agentx_open_pdu xdg oid descr =
    let descr_len = uint_sizeof (length descr) in
    let len = 20 + 4 + 4 + (length oid - 5) * 4 + (4 + descr_len) in
    if length oid == 0
      || ltb 4 (length oid)
        && leb (length oid + 5) asn1_oid_max_len
        && leb (length descr) asn1_value_max_len
    then some (
      xdg,
      record {
        buf =
            hdr_enc 1 agentx_pdu_open 0 (record (xdg.pdu_hdr) { packet_id = 1 }) len
            ++ (le32 0 ++ (objid_enc oid ++ octstr_enc descr_len descr));
        len = len;
      },
    )
    else none

unfoldable pub agentx_close_pdu : AgentxDatagram → ℕ → AgentxDatagram × XPduBuf
unfolding hdr_enc
agentx_close_pdu xdg reason =
    let xdg = next_packet xdg in
    let hdr = xdg.pdu_hdr in
    (
      xdg,
      record {
        buf = hdr_enc hdr.version agentx_pdu_close hdr.flags hdr 24 ++ le32 reason;
        len = 24;
      },
    )

-- What REGISTER and UNREGISTER messages share. The first byte of the special fields is the timeout.
unfoldable pub region_pdu :
    ℕ → AgentxDatagram → List ℕ → List ℕ → ℕ → ℕ → ℕ → ℕ → Option (AgentxDatagram × XPduBuf)
unfolding hdr_enc objid_enc context_enc
region_pdu type xdg oid context timeout priority range_subid upper_bound =
    let xdg = next_packet xdg in
    let hdr = xdg.pdu_hdr in
    let upper_len = if range_subid == 0 then 0 else 4 in
    let upper = if range_subid == 0 then [] else le32 upper_bound in
    let len = 20 + context_room context + (4 + 4 + (length oid - 5) * 4) + upper_len in
    if ltb 4 (length oid) && leb (length oid + 5) asn1_oid_max_len && leb (length context) 40
    then some (
      xdg,
      record {
        buf =
            hdr_enc hdr.version type (bit_or hdr.flags instance_registration) hdr len
            ++ (context_enc context
                ++ ((timeout ∷ priority ∷ range_subid ∷ 0 ∷ []) ++ (objid_enc oid ++ upper)));
        len = len;
      },
    )
    else none

unfoldable pub agentx_register_pdu :
    AgentxDatagram → List ℕ → List ℕ → ℕ → ℕ → ℕ → ℕ → Option (AgentxDatagram × XPduBuf)
unfolding region_pdu
agentx_register_pdu xdg oid context timeout priority range_subid upper_bound =
    region_pdu agentx_pdu_reg xdg oid context timeout priority range_subid upper_bound

-- The timeout is not written.
unfoldable pub agentx_unregister_pdu :
    AgentxDatagram → List ℕ → List ℕ → ℕ → ℕ → ℕ → ℕ → Option (AgentxDatagram × XPduBuf)
unfolding region_pdu
agentx_unregister_pdu xdg oid context timeout priority range_subid upper_bound =
    region_pdu agentx_pdu_unreg xdg oid context 0 priority range_subid upper_bound

unfoldable pub agentx_ping_pdu : AgentxDatagram → List ℕ → Option (AgentxDatagram × XPduBuf)
unfolding hdr_enc context_enc
agentx_ping_pdu xdg context =
    let xdg = next_packet xdg in
    let hdr = xdg.pdu_hdr in
    let len = 20 + context_room context in
    if ltb (length context) 40
    then some (
      xdg,
      record {
        buf = hdr_enc hdr.version agentx_pdu_ping hdr.flags hdr len ++ context_enc context;
        len = len;
      },
    )
    else none

-- The bytes of a value, and those that it has room for. The length of an identifier is a multiple of 4.
unfoldable pub data_room : XVarBind → ℕ
data_room vb =
    if is_word vb.val_type
    then 4
    else if vb.val_type == asn1_tag_cnt64
    then 8
    else if is_octets vb.val_type
    then 4 + uint_sizeof vb.val_len
    else if vb.val_type == asn1_tag_objid
    then (if ltb 20 vb.val_len then 4 + vb.val_len - 20 else 4)
    else 0

unfoldable pub data_enc : XVarBind → List ℕ
unfolding objid_enc octstr_enc
data_enc vb =
    if is_word vb.val_type
    then le32 (read32 vb.value)
    else if vb.val_type == asn1_tag_cnt64
    then le32 (read32 vb.value) ++ le32 (read32 (drop 4 vb.value))
    else if is_octets vb.val_type
    then le32 vb.val_len ++ take vb.val_len vb.value ++ zeros (uint_sizeof vb.val_len - vb.val_len)
    else if vb.val_type == asn1_tag_objid
    then objid_enc (read_words vb.value (vb.val_len / 4))
    else []

unfoldable pub var_bind_room : XVarBind → ℕ
unfolding data_room
var_bind_room vb =
    (if ltb 5 (length vb.oid) then 4 + 4 + (length vb.oid - 5) * 4 else 4 + 4) + data_room vb

unfoldable pub var_bind_enc : XVarBind → List ℕ
unfolding objid_enc data_enc
var_bind_enc vb = le16 vb.val_type ++ (0 ∷ 0 ∷ []) ++ objid_enc vb.oid ++ data_enc vb

unfoldable pub list_room : List XVarBind → ℕ
unfolding var_bind_room
list_room [] = 0
list_room (vb ∷ vbs) = var_bind_room vb + list_room vbs

unfoldable pub list_enc : List XVarBind → List ℕ
unfolding var_bind_enc
list_enc [] = []
list_enc (vb ∷ vbs) = var_bind_enc vb ++ list_enc vbs

-- The system's uptime is not written. The length of a message is below 2 ^ 32.
unfoldable pub agentx_response_pdu : AgentxDatagram → XPduBuf
unfolding hdr_enc list_room list_enc
agentx_response_pdu xdg =
    let hdr = xdg.pdu_hdr in
    let len = 20 + 4 + 2 * 2 + list_room xdg.vb_out_list in
    record {
      buf =
          hdr_enc hdr.version agentx_pdu_response hdr.flags hdr len
          ++ le32 0
          ++ le16 xdg.response.error
          ++ le16 xdg.response.index
          ++ list_enc xdg.vb_out_list;
      len = len;
    }

-- What is sent.
abbrev pub agentx_response : AgentxDatagram → List ℕ
agentx_response xdg = let x_pdu = agentx_response_pdu xdg in take x_pdu.len x_pdu.buf
