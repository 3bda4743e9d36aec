-- ===== src/Tests/Agents.antt =====
-- AgentX messages, and the theorems on them at concrete inputs.
use smithsnmp.Base.{true, ℕ, ◌+◌, ◌≡◌, refl, arith, Option, some, List, [], ◌∷◌, le32, All}
use smithsnmp.Parse.{decoded}
use smithsnmp.Mib.Tree.{
  mib_dummy_node_init, MibNode, group_node, instance_node, cons, nil, mib_node_reg,
}
use smithsnmp.Agentx.Message.{XPduHdr, XSearchRange, XVarBind, AgentxDatagram}
use smithsnmp.Agentx.Encode.{
  list_room, var_bind_room, data_room, agentx_response, agentx_response_pdu, agentx_open_pdu,
  agentx_register_pdu, agentx_unregister_pdu, agentx_close_pdu, agentx_ping_pdu,
}
use smithsnmp.Agentx.Decode.{agentx_decode, var_bind_alloc, search_range_alloc, parse_loop}
use smithsnmp.Agentx.Fields.{prefixed_by}
use smithsnmp.Agentx.Bindings.{one_word, octets, IsXVarBind}
use smithsnmp.Agentx.Lengths.{
  IsFramed, AreFramed, agentx_response_pdu-IsFramed, session_pdu-AreFramed,
}
use smithsnmp.Agentx.RoundTrip.{
  IsXResponse, received_response, All-IsMeasured, agentx_decode-agentx_response,
}
use smithsnmp.Agentx.Rounds.{parse_loop-enough_rounds}
use smithsnmp.Agentx.Session.{ended, has_prefix, agentx_mib_node_reg}
use smithsnmp.Agentx.Registration.{agentx_mib_node_reg_answered}
use smithsnmp.Tests.Requests.{counting_lua}

abbrev word_binding : XVarBind
word_binding = record {
  oid = 1 ∷ 3 ∷ 6 ∷ 1 ∷ 2 ∷ 1 ∷ [];
  val_type = 2;
  val_len = 4;
  value = le32 300;
}

abbrev string_binding : XVarBind
string_binding = record {
  oid = 1 ∷ 3 ∷ 6 ∷ 1 ∷ 4 ∷ [];
  val_type = 4;
  val_len = 3;
  value = 97 ∷ 98 ∷ 99 ∷ [];
}

abbrev header : ℕ → XPduHdr
header type = record {
  version = 1;
  type = type;
  flags = 0;
  reserved = 0;
  session_id = 9;
  transaction_id = 5;
  packet_id = 70000;
  payload_length = 0;
}

abbrev range : XSearchRange
range = record {
  start = 1 ∷ 3 ∷ 6 ∷ 1 ∷ 2 ∷ [];
  end = 1 ∷ 3 ∷ 6 ∷ 1 ∷ 3 ∷ [];
  start_include = 0;
  end_include = 0;
}

abbrev request : AgentxDatagram
request = record {
  context = [];
  pdu_hdr = header 6;
  response = record { sys_up_time = 0; error = 0; index = 0 };
  vb_in_cnt = 0;
  vb_out_cnt = 0;
  vb_in_list = [];
  vb_out_list = [];
  sr_in_cnt = 2;
  sr_in_list = range ∷ range ∷ [];
}

abbrev reply : AgentxDatagram
reply = record request {
  pdu_hdr = header 18;
  response = record { sys_up_time = 0; error = 0x107; index = 1 };
  vb_out_cnt = 2;
  vb_out_list = word_binding ∷ string_binding ∷ [];
  sr_in_cnt = 0;
  sr_in_list = [];
}

right_bindings : All IsXVarBind reply.vb_out_list
right_bindings = (
  record {
    oid = prefixed_by 2 (1 ∷ []) (omega arith) (omega arith) (omega arith) (omega arith, tt);
    type = omega arith;
    value = one_word 2 300 refl (omega arith);
  },
  (
    record {
      oid = prefixed_by 4 [] (omega arith) (omega arith) (omega arith) tt;
      type = omega arith;
      value = octets 4 (97 ∷ 98 ∷ 99 ∷ []) refl (omega arith);
    },
    tt,
  ),
)

reply-IsXResponse : IsXResponse reply
unfolding list_room var_bind_room data_room
reply-IsXResponse = record {
  little = refl;
  plain = refl;
  session_id = omega arith;
  transaction_id = omega arith;
  packet_id = omega arith;
  error = omega arith;
  index = omega arith;
  bindings = right_bindings;
  room = omega arith;
}

agentx_decode-agentx_response_example :
    agentx_decode (agentx_response reply) ≡ decoded (received_response reply)
agentx_decode-agentx_response_example = agentx_decode-agentx_response reply reply-IsXResponse

agentx_response_pdu-IsFramed_example : IsFramed (agentx_response_pdu reply)
agentx_response_pdu-IsFramed_example =
    agentx_response_pdu-IsFramed reply (All-IsMeasured reply.vb_out_list right_bindings)
      reply-IsXResponse.room

abbrev region : List ℕ
region = 1 ∷ 3 ∷ 6 ∷ 1 ∷ 2 ∷ 7 ∷ []

session_pdu-AreFramed_example :
    AreFramed (agentx_open_pdu request [] (97 ∷ []))
    × AreFramed (agentx_register_pdu request region (98 ∷ []) 0 127 1 9)
    × AreFramed (agentx_unregister_pdu request region (98 ∷ []) 0 127 1 9)
    × AreFramed (some (agentx_close_pdu request 5))
    × AreFramed (agentx_ping_pdu request (98 ∷ []))
session_pdu-AreFramed_example =
    session_pdu-AreFramed request region (98 ∷ []) (97 ∷ []) 0 127 1 9 5 (omega arith) (omega arith)
      (omega arith) (omega arith)

parse_loop-enough_rounds_example :
    (parse_loop (var_bind_alloc 0) 4 9 (1 ∷ 2 ∷ 3 ∷ [])
      ≡ parse_loop (var_bind_alloc 0) 5 9 (1 ∷ 2 ∷ 3 ∷ []))
    × (parse_loop search_range_alloc 4 9 (1 ∷ 2 ∷ 3 ∷ [])
        ≡ parse_loop search_range_alloc 5 9 (1 ∷ 2 ∷ 3 ∷ []))
parse_loop-enough_rounds_example =
    parse_loop-enough_rounds 0 4 5 9 (1 ∷ 2 ∷ 3 ∷ []) (omega arith) (omega arith)

-- An instance at 1.3.6.1.2.
abbrev internet_tree : MibNode
internet_tree = group_node 1 (
    cons 1
      (group_node 1 (
        cons 3
          (group_node 1
            (cons 6 (group_node 1 (cons 1 (group_node 1 (cons 2 (instance_node 9) nil)) nil)) nil))
          nil))
      nil)

-- A master agent that answers every message with the same response, and counts.
abbrev master : List ℕ → ℕ → Option (List ℕ) × ℕ
master bytes n = (some (agentx_response reply), n + 1)

-- The region alone.
abbrev region_tree : MibNode
region_tree = group_node 1 (
    cons 1
      (group_node 1 (
        cons 3
          (group_node 1 (
            cons 6
              (group_node 1 (
                cons 1 (group_node 1 (cons 2 (group_node 1 (cons 7 (instance_node 3) nil)) nil))
                  nil))
              nil))
          nil))
      nil)

agentx_mib_node_reg_answered_example :
    agentx_mib_node_reg master counting_lua 50 request region 3 mib_dummy_node_init 0 0
    ≡ ended true (some (received_response reply)) region_tree 0 1
unfolding has_prefix agentx_register_pdu mib_node_reg
agentx_mib_node_reg_answered_example =
    agentx_mib_node_reg_answered master counting_lua 50 request _ (received_response reply) _
      (agentx_response reply) region 3 mib_dummy_node_init region_tree true 0 0 1 refl refl refl
      (agentx_decode-agentx_response reply reply-IsXResponse) refl refl
