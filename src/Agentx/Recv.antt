-- ===== src/Agentx/Recv.antt =====
-- `agentx_recv` and `agentx_request_dispatch` of core/agentx_msg_in.c. A request is answered with the
-- bytes that are sent.
use smithsnmp.Base.{ℕ, ◌||◌, List, [], ◌∷◌, ◌==◌, if◌then◌else◌}
use smithsnmp.Parse.{decoded, rejected, overrun}
use smithsnmp.Mib.Tree.{MibNode}
use smithsnmp.Mib.Instance.{OidSearchRes, Lua}
use smithsnmp.Agentx.Message.{
  agentx_pdu_get, agentx_pdu_getnext, agentx_pdu_getbulk, agentx_pdu_testset, agentx_pdu_commitset,
  agentx_pdu_undoset, agentx_pdu_cleanupset, AgentxErrCode, AgentxDatagram,
}
use smithsnmp.Agentx.Decode.{agentx_decode}
use smithsnmp.Agentx.Encode.{agentx_response}
use smithsnmp.Agentx.Process.{
  Processed, processed, exceeded, failed, unfinished, agentx_get, agentx_getnext, agentx_set,
}

-- What happens to a message: its error code, if there is one, with the datagram, if it was decoded, the
-- bytes that were sent, and the state of the interpreter. In the other cases the value of a search result
-- exceeded memory, an assertion failed or a message was exceeded, or the rounds did not do.
pub data Received {ℓ} (S : Type ℓ) : Type ℓ where
  responded : AgentxDatagram → List ℕ → S → Received S
  overflowed : OidSearchRes → Received S
  accepted : AgentxDatagram → S → Received S
  refused : AgentxErrCode → S → Received S
  broken endless : Received S

unfoldable pub respond {ℓ} : {S : Type ℓ} → Processed S → Received S
respond (processed xdg st) = responded xdg (agentx_response xdg) st
respond (exceeded res) = overflowed res
respond failed = broken
respond unfinished = endless

-- `k` rounds are given to each search in the tree.
module _ (lua : Lua) (root : MibNode) (k : ℕ) where
  unfoldable pub agentx_request_dispatch : AgentxDatagram → lua.State → Received lua.State
  unfolding respond agentx_get agentx_getnext agentx_set
  agentx_request_dispatch xdg st =
      let type = xdg.pdu_hdr.type in
      if type == agentx_pdu_get
      then respond (agentx_get lua root k xdg st)
      else if type == agentx_pdu_getnext || type == agentx_pdu_getbulk
      then respond (agentx_getnext lua root k xdg st)
      else if type == agentx_pdu_testset
      then respond (agentx_set lua root k xdg st)
      else if type == agentx_pdu_commitset
          || type == agentx_pdu_undoset
          || type == agentx_pdu_cleanupset
      then responded xdg (agentx_response xdg) st
      else accepted xdg st

  -- An empty buffer fails the assertion.
  unfoldable pub agentx_recv : List ℕ → lua.State → Received lua.State
  unfolding agentx_decode agentx_request_dispatch
  agentx_recv [] st = broken
  agentx_recv (b ∷ buf) st = elim (agentx_decode (b ∷ buf)) [
    | decoded xdg ↦ agentx_request_dispatch xdg st
    | rejected err ↦ refused err st
    | overrun ↦ broken
  ]
