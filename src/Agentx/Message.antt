-- ===== src/Agentx/Message.antt =====
-- The messages of AgentX: the types of core/agentx.h, and how single fields are read in
-- core/agentx_msg_in.c on a little-endian machine.
use smithsnmp.Base.{
  ℕ, ◌+◌, ◌-◌, ◌*◌, ◌/◌, bit_and, Bool, not, none, some, List, ◌==◌, if◌then◌else◌, length, ltb,
  leb, ◌||◌, drop, read32, byte_of, get_or,
}
use smithsnmp.Asn1.{asn1_tag_cnt64, asn1_tag_objid, asn1_oid_max_len}
use smithsnmp.Parse.{Parsed, decoded, overrun, ◌>>=◌, ◌>>◌, check, get_bytes}
use smithsnmp.Ber.Value.{is_octets}
use smithsnmp.Agentx.{is_word, agentx_value_dec_try, agentx_value_dec}

-- `AGENTX_PDU_TYPE_E`, those that the code tells apart.
abbrev pub agentx_pdu_open : ℕ
agentx_pdu_open = 1

abbrev pub agentx_pdu_close : ℕ
agentx_pdu_close = 2

abbrev pub agentx_pdu_reg : ℕ
agentx_pdu_reg = 3

abbrev pub agentx_pdu_unreg : ℕ
agentx_pdu_unreg = 4

abbrev pub agentx_pdu_get : ℕ
agentx_pdu_get = 5

abbrev pub agentx_pdu_getnext : ℕ
agentx_pdu_getnext = 6

abbrev pub agentx_pdu_getbulk : ℕ
agentx_pdu_getbulk = 7

abbrev pub agentx_pdu_testset : ℕ
agentx_pdu_testset = 8

abbrev pub agentx_pdu_commitset : ℕ
agentx_pdu_commitset = 9

abbrev pub agentx_pdu_undoset : ℕ
agentx_pdu_undoset = 10

abbrev pub agentx_pdu_cleanupset : ℕ
agentx_pdu_cleanupset = 11

abbrev pub agentx_pdu_ping : ℕ
agentx_pdu_ping = 13

abbrev pub agentx_pdu_response : ℕ
agentx_pdu_response = 18

-- The flags of a header.
abbrev pub instance_registration : ℕ
instance_registration = 0x1

abbrev pub non_default_context : ℕ
non_default_context = 0x8

abbrev pub netword_byte_order : ℕ
netword_byte_order = 0x10

abbrev pub flag_set : ℕ → ℕ → Bool
flag_set flags flag = not (bit_and flags flag == 0)

-- `AGENTX_ERR_CODE_E`, but for `AGENTX_ERR_OK`.
pub data AgentxErrCode : Type 0 where
  agentx_err_pdu_ctx_len agentx_err_vb_var agentx_err_vb_value_len : AgentxErrCode
  agentx_err_vb_oid_len agentx_err_sr_var agentx_err_sr_oid_len : AgentxErrCode

abbrev pub Read {ℓ} : Type ℓ → Type ℓ
Read A = Parsed AgentxErrCode A

-- `x_pdu_hdr`
pub record XPduHdr : Type 0 where
  pub version : ℕ
  pub type : ℕ
  pub flags : ℕ
  pub reserved : ℕ
  pub session_id : ℕ
  pub transaction_id : ℕ
  pub packet_id : ℕ
  pub payload_length : ℕ

-- `x_search_range`; the length of an identifier is that of the list.
pub record XSearchRange : Type 0 where
  pub start : List ℕ
  pub end : List ℕ
  pub start_include : ℕ
  pub end_include : ℕ

-- `x_var_bind`; the value is the memory behind the structure.
pub record XVarBind : Type 0 where
  pub oid : List ℕ
  pub val_type : ℕ
  pub val_len : ℕ
  pub value : List ℕ

-- The union of `agentx_datagram` by its longest member. The reason of a CLOSE message is the lowest byte
-- of `sys_up_time`, and the two numbers of a GETBULK message are its halves.
pub record XResponse : Type 0 where
  pub sys_up_time : ℕ
  pub error : ℕ
  pub index : ℕ

-- `agentx_datagram` without the socket and the buffers. The list `sr_out_list` is never filled.
pub record AgentxDatagram : Type 0 where
  pub context : List ℕ
  pub pdu_hdr : XPduHdr
  pub response : XResponse
  pub vb_in_cnt : ℕ
  pub vb_out_cnt : ℕ
  pub vb_in_list : List XVarBind
  pub vb_out_list : List XVarBind
  pub sr_in_cnt : ℕ
  pub sr_in_list : List XSearchRange

-- The swaps of `byteswap.h`.
abbrev pub bswap_16 : ℕ → ℕ
bswap_16 x = byte_of x 0 * 256 + byte_of x 1

abbrev pub bswap_32 : ℕ → ℕ
bswap_32 x = byte_of x 0 * 16777216 + byte_of x 1 * 65536 + byte_of x 2 * 256 + byte_of x 3

abbrev pub axtoh16 : ℕ → ℕ → ℕ
axtoh16 x flags = if flag_set flags netword_byte_order then bswap_16 x else x

abbrev pub axtoh32 : ℕ → ℕ → ℕ
axtoh32 x flags = if flag_set flags netword_byte_order then bswap_32 x else x

-- A load of half a word.
abbrev pub read16 : List ℕ → ℕ
read16 m = get_or m 0 0 + 256 * get_or m 1 0

-- `axtoh16(*(uint16_t *)buf, flags)`, and what is behind.
unfoldable pub get16 : ℕ → List ℕ → Read (ℕ × List ℕ)
unfolding get_bytes
get16 flags buf = do (bytes, buf) ← get_bytes 2 buf; decoded (axtoh16 (read16 bytes) flags, buf)

unfoldable pub get32 : ℕ → List ℕ → Read (ℕ × List ℕ)
unfolding get_bytes
get32 flags buf = do (bytes, buf) ← get_bytes 4 buf; decoded (axtoh32 (read32 bytes) flags, buf)

-- The bytes that `agentx_value_dec_try` looks at.
abbrev pub probed : ℕ → ℕ
probed type =
    if is_word type || type == asn1_tag_cnt64
    then 0
    else if is_octets type
    then 4
    else if type == asn1_tag_objid
    then 2
    else 0

-- The room for a value, and the value.
unfoldable pub value_room : ℕ → List ℕ → Read ℕ
unfolding agentx_value_dec_try
value_room type buf =
    if leb (probed type) (length buf) then decoded (agentx_value_dec_try buf type) else overrun

unfoldable pub get_value : ℕ → List ℕ → Read (ℕ × List ℕ × List ℕ)
unfolding agentx_value_dec
get_value type buf = elim (agentx_value_dec buf type) [ none ↦ overrun | some r ↦ decoded r ]

-- The room for an identifier, and what is behind an identifier of this room.
unfoldable pub oid_room : AgentxErrCode → List ℕ → Read ℕ
unfolding value_room
oid_room err buf = do
  oid_len ← value_room asn1_tag_objid buf
  check (ltb asn1_oid_max_len (oid_len / 4)) err
  decoded oid_len

abbrev pub behind_oid : ℕ → List ℕ → List ℕ
behind_oid oid_len buf = drop (if ltb 0 oid_len then 4 + oid_len - 20 else 4) buf
