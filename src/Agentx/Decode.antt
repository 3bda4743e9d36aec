-- ===== src/Agentx/Decode.antt =====
-- Decoding of AgentX messages: core/agentx_msg_in.c. What a rejected message leaves in the datagram, of
-- which the lists are freed, is not part of the result.
use smithsnmp.Base.{
  ℕ, zero, suc, ◌+◌, ◌-◌, ◌*◌, ◌%◌, ◌^◌, Bool, ◌||◌, List, [], ◌∷◌, ◌==◌, if◌then◌else◌, length,
  ltb, drop, read_words,
}
use smithsnmp.Asn1.{asn1_tag_objid, asn1_value_max_len}
use smithsnmp.Parse.{decoded, overrun, ◌>>=◌, ◌>>◌, check, get_byte, get_bytes, less}
use smithsnmp.Agentx.{uint_sizeof}
use smithsnmp.Agentx.Message.{
  agentx_pdu_close, agentx_pdu_get, agentx_pdu_getnext, agentx_pdu_getbulk, agentx_pdu_testset,
  agentx_pdu_response, non_default_context, flag_set, agentx_err_pdu_ctx_len,
  agentx_err_vb_value_len, agentx_err_vb_oid_len, agentx_err_sr_oid_len, Read, XPduHdr,
  XSearchRange, XVarBind, XResponse, AgentxDatagram, get16, get32, value_room, get_value, oid_room,
  behind_oid,
}

unfoldable pub var_bind_alloc : ℕ → List ℕ → Read (XVarBind × List ℕ)
unfolding get16 value_room get_value oid_room
var_bind_alloc flags buf = do
  (type, buf) ← get16 flags buf
  let buf1 = drop 2 buf
  oid_len ← oid_room agentx_err_vb_oid_len buf1
  let buf2 = behind_oid oid_len buf1
  room ← value_room (type % 256) buf2
  check (ltb asn1_value_max_len room) agentx_err_vb_value_len
  (n, oid, _) ← get_value asn1_tag_objid buf1
  (val_len, value, buf) ← get_value (type % 256) buf2
  decoded
      (record { oid = read_words oid n; val_type = type; val_len = val_len; value = value }, buf)

-- The third byte of an identifier, its flag.
unfoldable pub include_of : List ℕ → Read ℕ
include_of buf = do (_, behind) ← get_bytes 2 buf; (include, _) ← get_byte behind; decoded include

unfoldable pub search_range_alloc : List ℕ → Read (XSearchRange × List ℕ)
unfolding get_value oid_room include_of
search_range_alloc buf = do
  start_len ← oid_room agentx_err_sr_oid_len buf
  start_include ← include_of buf
  let buf1 = behind_oid start_len buf
  end_len ← oid_room agentx_err_sr_oid_len buf1
  end_include ← include_of buf1
  (m, start, _) ← get_value asn1_tag_objid buf
  (n, end, rest) ← get_value asn1_tag_objid buf1
  decoded (
    record {
      start = read_words start m;
      end = read_words end n;
      start_include = start_include;
      end_include = end_include;
    },
    rest,
  )

-- The loop over the rest of a message, for a number of rounds.
module _ {A : Type 0} (alloc : List ℕ → Read (A × List ℕ)) where
  unfoldable pub parse_loop : ℕ → ℕ → List ℕ → Read (List A)
  parse_loop k zero buf = decoded []
  parse_loop zero (suc payload_length) buf = overrun
  parse_loop (suc k) (suc payload_length) buf = do
    (x, behind) ← alloc buf
    xs ← parse_loop k (less (suc payload_length) (length buf - length behind)) behind
    decoded (x ∷ xs)

-- What is in the message behind the words of the header: the context.
unfoldable pub get_context : ℕ → ℕ → List ℕ → Read (List ℕ × ℕ × List ℕ)
unfolding get32 get_bytes
get_context flags payload_length buf =
    if flag_set flags non_default_context
    then (do
      (ctx_len, buf) ← get32 flags buf
      check (ltb 41 ((ctx_len + 1) % 2 ^ 32)) agentx_err_pdu_ctx_len
      (context, _) ← if ltb 41 ctx_len then overrun else get_bytes ctx_len buf
      decoded
          (context, less payload_length (4 + uint_sizeof ctx_len), drop (uint_sizeof ctx_len) buf))
    else decoded ([], payload_length, buf)

-- Additional data, by the type of the message.
unfoldable pub get_additional : ℕ → ℕ → ℕ → List ℕ → Read (XResponse × ℕ × List ℕ)
unfolding get16 get32 get_byte
get_additional type flags payload_length buf =
    if type == agentx_pdu_close
    then (do
      (reason, _) ← get_byte buf
      decoded (
        record { sys_up_time = reason; error = 0; index = 0 },
        less payload_length 4,
        drop 4 buf,
      ))
    else if type == agentx_pdu_getbulk
    then (do
      (non_rep, buf) ← get16 flags buf
      (max_rep, buf) ← get16 flags buf
      decoded (
        record { sys_up_time = non_rep + 65536 * max_rep; error = 0; index = 0 },
        less payload_length 4,
        buf,
      ))
    else if type == agentx_pdu_response
    then (do
      (sys_up_time, buf) ← get32 flags buf
      (error, buf) ← get16 flags buf
      (index, buf) ← get16 flags buf
      decoded (
        record { sys_up_time = sys_up_time; error = error; index = index },
        less payload_length 8,
        buf,
      ))
    else decoded (record { sys_up_time = 0; error = 0; index = 0 }, payload_length, buf)

unfoldable pub pdu_hdr_parse : List ℕ → Read (AgentxDatagram × List ℕ)
unfolding get32 get_byte get_context get_additional
pdu_hdr_parse buf = do
  (version, buf) ← get_byte buf
  (type, buf) ← get_byte buf
  (flags, buf) ← get_byte buf
  (reserved, buf) ← get_byte buf
  (session_id, buf) ← get32 flags buf
  (transaction_id, buf) ← get32 flags buf
  (packet_id, buf) ← get32 flags buf
  (payload_length, buf) ← get32 flags buf
  (context, payload_length, buf) ← get_context flags payload_length buf
  (response, payload_length, buf) ← get_additional type flags payload_length buf
  decoded (
    record {
      context = context;
      pdu_hdr = record {
        version = version;
        type = type;
        flags = flags;
        reserved = reserved;
        session_id = session_id;
        transaction_id = transaction_id;
        packet_id = packet_id;
        payload_length = payload_length;
      };
      response = response;
      vb_in_cnt = 0;
      vb_out_cnt = 0;
      vb_in_list = [];
      vb_out_list = [];
      sr_in_cnt = 0;
      sr_in_list = [];
    },
    buf,
  )

-- The loops end with no payload left.
abbrev pub paid : AgentxDatagram → XPduHdr
paid xdg = record (xdg.pdu_hdr) { payload_length = 0 }

unfoldable pub var_bind_parse : AgentxDatagram → List ℕ → Read AgentxDatagram
unfolding var_bind_alloc parse_loop
var_bind_parse xdg buf = do
  vbs ← parse_loop (var_bind_alloc xdg.pdu_hdr.flags) (length buf) xdg.pdu_hdr.payload_length buf
  decoded (record xdg { pdu_hdr = paid xdg; vb_in_cnt = length vbs; vb_in_list = vbs })

unfoldable pub search_range_parse : AgentxDatagram → List ℕ → Read AgentxDatagram
unfolding search_range_alloc parse_loop
search_range_parse xdg buf = do
  srs ← parse_loop search_range_alloc (length buf) xdg.pdu_hdr.payload_length buf
  decoded (record xdg { pdu_hdr = paid xdg; sr_in_cnt = length srs; sr_in_list = srs })

-- The cases of the body of a message.
abbrev pub has_ranges : ℕ → Bool
has_ranges type = type == agentx_pdu_get || type == agentx_pdu_getnext || type == agentx_pdu_getbulk

abbrev pub has_bindings : ℕ → Bool
has_bindings type = type == agentx_pdu_testset || type == agentx_pdu_response

unfoldable pub agentx_decode : List ℕ → Read AgentxDatagram
unfolding pdu_hdr_parse var_bind_parse search_range_parse
agentx_decode buf = do
  (xdg, buf) ← pdu_hdr_parse buf
  if has_ranges xdg.pdu_hdr.type
      then search_range_parse xdg buf
      else if has_bindings xdg.pdu_hdr.type
      then var_bind_parse xdg buf
      else decoded xdg
