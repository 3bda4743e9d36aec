-- ===== src/Snmp/Recv.antt =====
-- `snmp_recv` and `snmp_request_dispatch` of core/snmp_msg_in.c: from the bytes of a request to what
-- `snmp_response` is given.
pub mod Passes
pub mod Replies
use smithsnmp.Base.{
  ℕ, ◌+◌, ◌%◌, ◌^◌, Bool, not, ◌||◌, none, some, List, [], ◌∷◌, ◌==◌, if◌then◌else◌, length, get_or,
}
use smithsnmp.Asn1.{asn1_tag_seq}
use smithsnmp.Ber.Length.{ber_length_dec}
use smithsnmp.Mib.Tree.{MibNode}
use smithsnmp.Mib.View.{MibCommunity}
use smithsnmp.Mib.User.{MibUser}
use smithsnmp.Mib.Instance.{OidSearchRes, Lua, snmp_req_get, snmp_req_getnext, snmp_req_set}
use smithsnmp.Snmp.Access.{Sender}
use smithsnmp.Snmp.Request.{
  Datagram, Served, served, exceeded, failed, unfinished, snmp_get, snmp_getnext, snmp_set,
  snmp_bulkget,
}
use smithsnmp.Snmp.Message.{Decoded, decoded, rejected, overrun, Message}
use smithsnmp.Snmp.Decode.{snmp_decode}
use smithsnmp.Snmp.Decode.Security.{Crypto, c_string}
use smithsnmp.Snmp.Encode.{Response}

abbrev pub snmp_resp : ℕ
snmp_resp = 0xA2

abbrev pub snmp_req_bulkget : ℕ
snmp_req_bulkget = 0xA5

abbrev pub snmp_repo : ℕ
snmp_repo = 0xA8

-- A request is answered, or nothing is done. In the other cases the answer to a search result exceeded
-- memory or found no size, an assertion failed or a message was exceeded, or the rounds did not do.
pub data Received {ℓ} (S : Type ℓ) : Type ℓ where
  answered : Response → S → Received S
  ignored : S → Received S
  overflowed : OidSearchRes → Received S
  broken endless : Received S

-- What the processing of a request reads of the datagram.
abbrev pub sender_of : Message → Sender
sender_of m = record {
  version = m.version.value;
  msg_flags = get_or m.secured.global_data.msg_flags.value 0 0;
  user = m.secured.user;
  auth_err = m.secured.auth_err;
  context_name = c_string m.context_name.value;
}

-- What it changes. The error status and index are those of the request.
abbrev pub datagram_of : Message → Datagram
datagram_of m = record {
  err_stat = m.pdu_hdr.err_stat.value;
  err_idx = m.pdu_hdr.err_idx.value;
  vb_list_len = 0;
  vb_out_cnt = 0;
  vb_out_list = [];
}

-- The datagram when `snmp_response` is called. The lengths are still those of the request.
abbrev pub response_of : Message → ℕ → Datagram → Response
response_of m pdu_type sdg = record {
  version = m.version;
  global_data = m.secured.global_data;
  security = m.secured.security;
  context_name = m.context_name;
  pdu_hdr = record m.pdu_hdr {
    pdu_type = pdu_type;
    err_stat = record m.pdu_hdr.err_stat { value = sdg.err_stat };
    err_idx = record m.pdu_hdr.err_idx { value = sdg.err_idx };
  };
  vb_list_len = sdg.vb_list_len;
  vb_out_list = sdg.vb_out_list;
}

unfoldable pub respond {ℓ} : {S : Type ℓ} → Message → Served S → Received S
respond m (served sdg st) =
    answered (response_of m (if length m.vb_in_list == 0 then snmp_repo else snmp_resp) sdg) st
respond m (exceeded res) = overflowed res
respond m failed = broken
respond m unfinished = endless

-- `f` rounds in a tree and `k` rounds over views are given to each search.
module _ (lua : Lua) (root : MibNode) (f k : ℕ) (cs : List MibCommunity) where
  unfoldable pub snmp_request_dispatch : Message → lua.State → Received lua.State
  unfolding respond snmp_get snmp_getnext snmp_set snmp_bulkget
  snmp_request_dispatch m st =
      let pdu_type = m.pdu_hdr.pdu_type in
      let sdg = datagram_of m in
      if pdu_type == snmp_req_get
      then respond m (snmp_get lua root k cs (sender_of m) m.vb_in_list sdg st)
      else if pdu_type == snmp_req_getnext
      then respond m (snmp_getnext lua root k cs (sender_of m) f m.vb_in_list sdg st)
      else if pdu_type == snmp_req_set
      then respond m (snmp_set lua root k cs (sender_of m) m.vb_in_list sdg st)
      else if pdu_type == snmp_req_bulkget
      then respond m (snmp_bulkget lua root k cs (sender_of m) f m.vb_in_list sdg st)
      else ignored st

  -- A datagram that was not decoded is cleared, and has a type that is not dispatched.
  unfoldable pub receive : Decoded Message → lua.State → Received lua.State
  unfolding snmp_request_dispatch
  receive (decoded m) st = snmp_request_dispatch m st
  receive (rejected err) st = ignored st
  receive overrun st = broken

  -- The tag and the length are checked. A buffer that is empty fails the assertion.
  unfoldable pub snmp_recv : Crypto → List MibUser → List ℕ → lua.State → Received lua.State
  unfolding ber_length_dec snmp_decode receive
  snmp_recv crypto users [] st = broken
  snmp_recv crypto users (b ∷ buf) st =
      if b == asn1_tag_seq
      then elim (ber_length_dec buf) [
        | none ↦ broken
        | some (len_len, data_len) ↦
            if (1 + len_len + data_len) % 2 ^ 32 == length (b ∷ buf) % 2 ^ 32
            then receive (snmp_decode crypto users (b ∷ buf)) st
            else ignored st
      ]
      else ignored st
