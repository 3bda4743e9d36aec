-- ===== src/Agentx/Registration.antt =====
-- The registration with the master agent (core/agentx.c) and the response to it.
use smithsnmp.Base.{
  ℕ, ◌<◌, ◌≡◌, refl, ◌∙◌, ap, arith, Bool, true, Option, some, List, [], ◌∷◌, length,
}
use smithsnmp.Parse.{decoded, get_byte}
use smithsnmp.Mib.Tree.{MibNode, mib_node_reg}
use smithsnmp.Mib.Instance.{Lua}
use smithsnmp.Agentx.Message.{AgentxDatagram, agentx_pdu_response}
use smithsnmp.Agentx.Decode.{agentx_decode, pdu_hdr_parse}
use smithsnmp.Agentx.Encode.{XPduBuf, agentx_register_pdu}
use smithsnmp.Agentx.Recv.{accepted, agentx_request_dispatch, agentx_recv}
use smithsnmp.Agentx.Session.{ended, has_prefix, negotiate, verified, agentx_mib_node_reg}

module _ (lua : Lua) (root : MibNode) (k : ℕ) where
  recv_decoded :
      (bytes : List ℕ) (xdg : AgentxDatagram) (st : lua.State)
      → 0 < length bytes
      → agentx_decode bytes ≡ decoded xdg
      → agentx_recv lua root k bytes st ≡ agentx_request_dispatch lua root k xdg st
  unfolding agentx_recv
  recv_decoded [] xdg st h e = absurd (omega arith)
  recv_decoded (b ∷ buf) xdg st h e = rw (agentx_recv, e) refl

  decode_empty : (xdg : AgentxDatagram) → ¬ (agentx_decode [] ≡ decoded xdg)
  unfolding agentx_decode pdu_hdr_parse get_byte
  decode_empty xdg e = ground (arith, e)

  -- A response is accepted.
  recv_response :
      (bytes : List ℕ) (reply : AgentxDatagram) (st : lua.State)
      → agentx_decode bytes ≡ decoded reply
      → reply.pdu_hdr.type ≡ agentx_pdu_response
      → agentx_recv lua root k bytes st ≡ accepted reply st
  unfolding agentx_request_dispatch
  recv_response [] reply st e r = absurd (decode_empty reply e)
  recv_response (b ∷ buf) reply st e r =
      recv_decoded (b ∷ buf) reply st (omega arith) e ∙ ground (arith, r)

verified_accepted {ℓ κ} :
    {S : Type ℓ} {W : Type κ} (finish : MibNode → Option (MibNode × Bool)) (root root' : MibNode)
    (ok : Bool) (xdg : AgentxDatagram) (st : S) (w : W)
    → finish root ≡ some (root', ok)
    → verified finish root w (accepted xdg st) ≡ ended ok (some xdg) root' st w
unfolding verified
verified_accepted finish root root' ok xdg st w e = rw (verified, e) refl

module _ {κ} {W : Type κ} (exchange : List ℕ → W → Option (List ℕ) × W) (lua : Lua) (k : ℕ) where
  -- `agentx_mib_node_reg` for an identifier below 1.3.6.1 whose REGISTER message is answered with
  -- any RESPONSE that `agentx_decode` decodes, whatever error it reports, registers the node in the
  -- tree as `mib_node_reg` does, if that returns, succeeds as that does, and leaves the response in
  -- the datagram.
  pub agentx_mib_node_reg_answered :
      (xdg xdg' reply : AgentxDatagram) (p : XPduBuf) (bytes grp_id : List ℕ) (grp_cb : ℕ)
      (root root' : MibNode) (ok : Bool) (st : lua.State) (w w' : W)
      → has_prefix grp_id ≡ true
      → agentx_register_pdu xdg grp_id [] 0 127 0 0 ≡ some (xdg', p)
      → exchange p.buf w ≡ (some bytes, w')
      → agentx_decode bytes ≡ decoded reply
      → reply.pdu_hdr.type ≡ agentx_pdu_response
      → mib_node_reg root grp_id grp_cb ≡ some (root', ok)
      → agentx_mib_node_reg exchange lua k xdg grp_id grp_cb root st w
        ≡ ended ok (some reply) root' st w'
  unfolding agentx_mib_node_reg negotiate verified
  agentx_mib_node_reg_answered xdg xdg' reply p bytes grp_id grp_cb root root' ok st w w' h e x d r
        m =
      rw (h, e, negotiate, x, recv_response lua root k bytes reply st d r)
        (verified_accepted (λ t. mib_node_reg t grp_id grp_cb) root root' ok reply st _ m
          ∙ ap (λ (v : Option (List ℕ) × W). ended ok (some reply) root' st v.1) x)
