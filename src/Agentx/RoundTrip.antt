-- ===== src/Agentx/RoundTrip.antt =====
-- An AgentX response (core/agentx_msg_out.c) as it is decoded (core/agentx_msg_in.c).
use smithsnmp.Base.{
  ℕ, zero, suc, ◌+◌, ◌-◌, ◌*◌, ◌%◌, ◌^◌, ◌≤◌, ◌<◌, ◌≡◌, refl, ap, ◌∙◌, arith, true, false, List, [],
  ◌∷◌, ◌++◌, map, ◌==◌, length, take, le32, IsWord, All, length-append, take-length,
}
use smithsnmp.Asn1.{asn1_tag_objid}
use smithsnmp.Parse.{decoded, get_byte, less}
use smithsnmp.Agentx.Sizes.{length-words}
use smithsnmp.Agentx.Message.{
  Read, XVarBind, AgentxDatagram, flag_set, non_default_context, agentx_pdu_response,
}
use smithsnmp.Agentx.Encode.{
  hdr_enc, le16, var_bind_enc, var_bind_room, list_enc, list_room, agentx_response_pdu,
  agentx_response,
}
use smithsnmp.Agentx.Decode.{
  var_bind_alloc, parse_loop, get_context, get_additional, pdu_hdr_parse, var_bind_parse,
  agentx_decode,
}
use smithsnmp.Agentx.Fields.{IsLittle, get16-le16, get32-le32}
use smithsnmp.Agentx.Bindings.{
  IsXValue, one_word, two_words, octets, identifier, nothing, IsXVarBind, received,
  var_bind_alloc-var_bind_enc,
}
use smithsnmp.Agentx.Lengths.{
  IsMeasured, length-var_bind_enc, length-list_enc, agentx_response_pdu-IsFramed,
}

value_measured :
    {type val_len : ℕ} {value : List ℕ}
    → IsXValue type val_len value
    → (val_len ≤ length value) × ((type == asn1_tag_objid) ≡ true → val_len % 4 ≡ 0)
value_measured (one_word type v t h) = (omega arith, λ e. omega arith)
value_measured (two_words v w h i) = (omega arith, λ e. omega arith)
value_measured (octets type s t h) = (omega arith, λ e. ground arith)
value_measured (identifier oid i) = (omega (arith, length-words oid), λ e. omega arith)
value_measured (nothing type t) = (omega arith, λ e. omega arith)

pub IsXVarBind-IsMeasured : (vb : XVarBind) → IsXVarBind vb → IsMeasured vb
IsXVarBind-IsMeasured vb right =
    let m = value_measured right.value in record { stored = m.0; whole = m.1 }

pub All-IsMeasured : (vbs : List XVarBind) → All IsXVarBind vbs → All IsMeasured vbs
All-IsMeasured [] r = tt
All-IsMeasured (vb ∷ vbs) r = (IsXVarBind-IsMeasured vb r.0, All-IsMeasured vbs r.1)

room_positive : (vb : XVarBind) → 0 < var_bind_room vb
unfolding var_bind_room
room_positive vb = ground arith

module _ (flags : ℕ) (little : IsLittle flags) where
  abbrev loop : ℕ → ℕ → List ℕ → Read (List XVarBind)
  loop k n buf = parse_loop (var_bind_alloc flags) k n buf

  -- One round.
  round_read :
      (k n : ℕ) (vb : XVarBind) (vbs : List XVarBind)
      → IsXVarBind vb
      → var_bind_room vb + list_room vbs ≡ n
      → n < 2 ^ 32
      → loop k (list_room vbs) (list_enc vbs) ≡ decoded (map received vbs)
      → loop (suc k) n (list_enc (vb ∷ vbs)) ≡ decoded (map received (vb ∷ vbs))
  unfolding parse_loop list_enc
  round_read k zero vb vbs r e h rest = absurd (omega (arith, room_positive vb))
  round_read k (suc n) vb vbs r e h rest =
      let step = length-var_bind_enc vb (IsXVarBind-IsMeasured vb r) in
      let whole = length-append (var_bind_enc vb) (list_enc vbs) in
      let left : less (suc n) (length (list_enc (vb ∷ vbs)) - length (list_enc vbs))
          ≡ list_room vbs =
        omega (arith, step, whole) in
      rw (var_bind_alloc-var_bind_enc flags vb (list_enc vbs) little r, left, rest) refl

  loop-list_enc :
      (k : ℕ) (vbs : List XVarBind)
      → All IsXVarBind vbs
      → length vbs ≤ k
      → list_room vbs < 2 ^ 32
      → loop k (list_room vbs) (list_enc vbs) ≡ decoded (map received vbs)
  unfolding parse_loop list_enc list_room
  loop-list_enc k [] r l h = refl
  loop-list_enc zero (vb ∷ vbs) r l h = absurd (omega arith)
  loop-list_enc (suc k) (vb ∷ vbs) r l h =
      round_read k (var_bind_room vb + list_room vbs) vb vbs r.0 refl (omega arith)
        (loop-list_enc k vbs r.1 (omega arith) (omega (arith, room_positive vb)))

few : (vbs : List XVarBind) → length vbs ≤ list_room vbs
unfolding list_room
few [] = omega arith
few (vb ∷ vbs) = omega (arith, few vbs, room_positive vb)

-- A response that is decoded: its fields are bytes or words in the order of this machine, there is no
-- context, and the bindings can be sent.
pub record IsXResponse (xdg : AgentxDatagram) : Type 0 where
  pub little : IsLittle xdg.pdu_hdr.flags
  pub plain : flag_set xdg.pdu_hdr.flags non_default_context ≡ false
  pub session_id : IsWord xdg.pdu_hdr.session_id
  pub transaction_id : IsWord xdg.pdu_hdr.transaction_id
  pub packet_id : IsWord xdg.pdu_hdr.packet_id
  pub error : xdg.response.error < 2 ^ 16
  pub index : xdg.response.index < 2 ^ 16
  pub bindings : All IsXVarBind xdg.vb_out_list
  pub room : list_room xdg.vb_out_list < 2 ^ 32 - 28

-- The datagram that the other side has then.
abbrev pub received_response : AgentxDatagram → AgentxDatagram
received_response xdg = record {
  context = [];
  pdu_hdr = record (xdg.pdu_hdr) { type = agentx_pdu_response; reserved = 0; payload_length = 0 };
  response = record (xdg.response) { sys_up_time = 0 };
  vb_in_cnt = length (map received xdg.vb_out_list);
  vb_out_cnt = 0;
  vb_in_list = map received xdg.vb_out_list;
  vb_out_list = [];
  sr_in_cnt = 0;
  sr_in_list = [];
}

module _ (xdg : AgentxDatagram) (r : IsXResponse xdg) where
  flags : ℕ
  flags = xdg.pdu_hdr.flags

  room : ℕ
  room = list_room xdg.vb_out_list

  -- As `agentx_response_pdu` computes it.
  payload : ℕ
  payload = 20 + 4 + 2 * 2 + list_room xdg.vb_out_list - 20

  additional_read :
      get_additional agentx_pdu_response flags payload
        (le32 0 ++ le16 xdg.response.error ++ le16 xdg.response.index ++ list_enc xdg.vb_out_list)
      ≡ decoded (record (xdg.response) { sys_up_time = 0 }, room, list_enc xdg.vb_out_list)
  unfolding get_additional flags room payload
  additional_read =
      rw
        (
          get32-le32 xdg.pdu_hdr.flags 0
              (le16 xdg.response.error ++ le16 xdg.response.index ++ list_enc xdg.vb_out_list)
              r.little (omega arith),
          get16-le16 xdg.pdu_hdr.flags xdg.response.error
              (le16 xdg.response.index ++ list_enc xdg.vb_out_list) r.little r.error,
          get16-le16 xdg.pdu_hdr.flags xdg.response.index (list_enc xdg.vb_out_list) r.little
              r.index,
        )
        (ap (λ n. decoded (record (xdg.response) { sys_up_time = 0 }, n, list_enc xdg.vb_out_list))
          (let h = r.room in omega arith))

  body : List ℕ
  body = le32 0 ++ le16 xdg.response.error ++ le16 xdg.response.index ++ list_enc xdg.vb_out_list

  parsed : AgentxDatagram
  parsed = record (received_response xdg) {
    pdu_hdr = record (xdg.pdu_hdr) {
      type = agentx_pdu_response;
      reserved = 0;
      payload_length = room;
    };
    vb_in_cnt = 0;
    vb_in_list = [];
  }

  sent : List ℕ
  sent = (agentx_response_pdu xdg).buf

  hdr_read : pdu_hdr_parse sent ≡ decoded (parsed, list_enc xdg.vb_out_list)
  unfolding pdu_hdr_parse get_byte get_context agentx_response_pdu hdr_enc sent parsed room payload
      body flags
  hdr_read =
      let hdr = xdg.pdu_hdr in
      let t = le32 hdr.transaction_id in
      let p = le32 hdr.packet_id in
      let n = le32 payload in
      rw
        (
          get32-le32 hdr.flags hdr.session_id (t ++ (p ++ (n ++ body))) r.little r.session_id,
          get32-le32 hdr.flags hdr.transaction_id (p ++ (n ++ body)) r.little r.transaction_id,
          get32-le32 hdr.flags hdr.packet_id (n ++ body) r.little r.packet_id,
          get32-le32 hdr.flags payload body r.little (let h = r.room in omega arith),
          r.plain,
          additional_read,
        )
        refl

  bindings_read : var_bind_parse parsed (list_enc xdg.vb_out_list) ≡ decoded (received_response xdg)
  unfolding var_bind_parse parsed room
  bindings_read =
      let size = length-list_enc xdg.vb_out_list (All-IsMeasured xdg.vb_out_list r.bindings) in
      rw
        (loop-list_enc xdg.pdu_hdr.flags r.little (length (list_enc xdg.vb_out_list))
          xdg.vb_out_list r.bindings (omega (arith, size, few xdg.vb_out_list))
          (let h = r.room in omega arith))
        refl

  sent_read : agentx_decode sent ≡ decoded (received_response xdg)
  unfolding agentx_decode parsed
  sent_read = rw (agentx_decode, hdr_read, bindings_read) refl

  pub agentx_response-buf : agentx_response xdg ≡ (agentx_response_pdu xdg).buf
  agentx_response-buf =
      ap (λ n. take n (agentx_response_pdu xdg).buf)
        (agentx_response_pdu-IsFramed xdg (All-IsMeasured xdg.vb_out_list r.bindings) r.room).0
      ∙ take-length (agentx_response_pdu xdg).buf

  -- `agentx_decode` reads back what `agentx_response` sends, when the flags announce neither a
  -- context nor the other order of bytes, the numbers fit their fields, the message is shorter than
  -- 2 ^ 32 bytes, the types are below 256, strings have at most 1024 bytes, the identifiers of the
  -- bindings and their values have at most 64 numbers, begin with 1.3.6.1 and go on with a byte
  -- that is not 0, and bindings of a type without a value have none: the header, the error and its
  -- index, and all bindings, with the number of elements of each value.
  pub agentx_decode-agentx_response :
      agentx_decode (agentx_response xdg) ≡ decoded (received_response xdg)
  unfolding sent
  agentx_decode-agentx_response = ap agentx_decode agentx_response-buf ∙ sent_read
