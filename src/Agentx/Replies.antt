-- ===== src/Agentx/Replies.antt =====
-- What `agentx_request_dispatch` (core/agentx_msg_in.c) sends for a request.
use smithsnmp.Base.{ℕ, ◌≡◌, List}
use smithsnmp.Mib.Instance.{OidSearchRes}
use smithsnmp.Agentx.Message.{
  agentx_pdu_get, agentx_pdu_getnext, agentx_pdu_getbulk, agentx_pdu_testset, XSearchRange,
  XVarBind, AgentxDatagram,
}
use smithsnmp.Agentx.Encode.{agentx_response}
use smithsnmp.Agentx.Answers.{Never, HoldsObjid, Pairs, Extends}
use smithsnmp.Agentx.Recv.{Received, responded, overflowed, accepted, refused, broken, endless}

-- What a request is about, by the type of the message.
pub data Subject : Type 0 where
  starts behind bindings : Subject

pub data IsRequest : ℕ → Subject → Type 0 where
  get : IsRequest agentx_pdu_get starts
  getnext : IsRequest agentx_pdu_getnext behind
  getbulk : IsRequest agentx_pdu_getbulk behind
  testset : IsRequest agentx_pdu_testset bindings

-- The bindings of the response belong to the request: those to GET and TESTSET have its identifiers.
abbrev pub Belong : Subject → AgentxDatagram → List XVarBind → Type 0
Belong starts xdg new = Pairs (λ (sr : XSearchRange) o. o ≡ sr.start) xdg.sr_in_list new
Belong behind xdg new = Pairs (λ (sr : XSearchRange) o. Unit) xdg.sr_in_list new
Belong bindings xdg new = Pairs (λ (vb : XVarBind) o. o ≡ vb.oid) xdg.vb_in_list new

-- The value of a search result exceeds memory: for SET only, and only an object identifier.
abbrev pub Exceeds : Subject → OidSearchRes → Type 0
Exceeds starts = Never
Exceeds behind = Never
Exceeds bindings = HoldsObjid

-- A response is sent, or the value of a search result exceeded memory, or an assertion failed.
abbrev pub Responds {ℓ} : {S : Type ℓ} → Subject → AgentxDatagram → Received S → Type 0
Responds about xdg (responded after bytes st) =
    (bytes ≡ agentx_response after)
    × ((new : List XVarBind) × Belong about xdg new × Extends 0 new xdg after)
Responds about xdg (overflowed res) = Exceeds about res
Responds about xdg (accepted after st) = ⊥
Responds about xdg (refused err st) = ⊥
Responds about xdg broken = Unit
Responds about xdg endless = ⊥
