-- ===== src/Agentx/Session.antt =====
-- The session with the master agent: core/agentx.c. `send` and `recv` of the socket are one parameter: an
-- exchange sends a message and gives the bytes that come back, or fails.
use smithsnmp.Base.{
  ℕ, Bool, true, false, not, ◌||◌, Option, none, some, List, [], ◌==◌, if◌then◌else◌, length, ltb,
  get_or,
}
use smithsnmp.Mib.Tree.{MibNode, mib_node_reg, mib_node_unreg}
use smithsnmp.Mib.Instance.{Lua}
use smithsnmp.Agentx.Message.{AgentxDatagram}
use smithsnmp.Agentx.Encode.{
  XPduBuf, agentx_open_pdu, agentx_close_pdu, agentx_register_pdu, agentx_unregister_pdu,
}
use smithsnmp.Agentx.Recv.{
  Received, responded, overflowed, accepted, refused, broken, endless, agentx_recv,
}

abbrev pub r_shutdown : ℕ
r_shutdown = 5

-- How an operation of the session ends: whether it succeeded, with the datagram, but for one that a
-- refused message left, the tree, and the states of the interpreter and the socket; or an assertion
-- failed, memory was exceeded, or the rounds did not do.
pub data Ended {ℓ κ} (S : Type ℓ) (W : Type κ) : Type (ℓ ⊔ κ) where
  ended : Bool → Option AgentxDatagram → MibNode → S → W → Ended S W
  crashed running : Ended S W

-- `Check oid prefix`
unfoldable pub has_prefix : List ℕ → Bool
has_prefix grp_id = not (
    ltb (length grp_id) 4
    || not (get_or grp_id 0 0 == 1)
    || not (get_or grp_id 1 0 == 3)
    || not (get_or grp_id 2 0 == 6)
    || not (get_or grp_id 3 0 == 1))

-- The response is verified, and then `finish` is done to the tree, unless it exceeds memory.
unfoldable pub verified {ℓ κ} :
    {S : Type ℓ} {W : Type κ}
    → (MibNode → Option (MibNode × Bool))
    → MibNode
    → W
    → Received S
    → Ended S W
verified finish root w (responded xdg bytes st) = elim (finish root) [
  | none ↦ crashed
  | some (root', ok) ↦ ended ok (some xdg) root' st w
]
verified finish root w (accepted xdg st) = elim (finish root) [
  | none ↦ crashed
  | some (root', ok) ↦ ended ok (some xdg) root' st w
]
verified finish root w (refused err st) = ended false none root st w
verified finish root w (overflowed res) = crashed
verified finish root w broken = crashed
verified finish root w endless = running

module _ {κ} {W : Type κ} (exchange : List ℕ → W → Option (List ℕ) × W) (lua : Lua) (k : ℕ) where
  -- A message is sent, and what comes back is verified. `xdg` is the datagram when it is sent.
  unfoldable pub negotiate :
      (MibNode → Option (MibNode × Bool))
      → AgentxDatagram
      → XPduBuf
      → MibNode
      → lua.State
      → W
      → Ended lua.State W
  unfolding agentx_recv verified
  negotiate finish xdg x_pdu root st w =
      let (bytes, w') = exchange x_pdu.buf w in
      elim bytes [
        | none ↦ ended false (some xdg) root st w'
        | some bytes ↦ verified finish root w' (agentx_recv lua root k bytes st)
      ]

  unfoldable pub agentx_mib_node_reg :
      AgentxDatagram → List ℕ → ℕ → MibNode → lua.State → W → Ended lua.State W
  unfolding has_prefix negotiate agentx_register_pdu mib_node_reg
  agentx_mib_node_reg xdg grp_id grp_cb root st w =
      if has_prefix grp_id
      then elim (agentx_register_pdu xdg grp_id [] 0 127 0 0) [
        | none ↦ crashed
        | some (xdg', x_pdu) ↦ negotiate (λ t. mib_node_reg t grp_id grp_cb) xdg' x_pdu root st w
      ]
      else ended false (some xdg) root st w

  unfoldable pub agentx_mib_node_unreg :
      AgentxDatagram → List ℕ → MibNode → lua.State → W → Ended lua.State W
  unfolding has_prefix negotiate agentx_unregister_pdu
  agentx_mib_node_unreg xdg grp_id root st w =
      if has_prefix grp_id
      then elim (agentx_unregister_pdu xdg grp_id [] 0 127 0 0) [
        | none ↦ crashed
        | some (xdg', x_pdu) ↦
            negotiate (λ t. some (mib_node_unreg t grp_id, true)) xdg' x_pdu root st w
      ]
      else ended false (some xdg) root st w

  -- `descr` is the description that the code fixes.
  unfoldable pub agentx_open : AgentxDatagram → List ℕ → MibNode → lua.State → W → Ended lua.State W
  unfolding negotiate agentx_open_pdu
  agentx_open xdg descr root st w = elim (agentx_open_pdu xdg [] descr) [
    | none ↦ crashed
    | some (xdg', x_pdu) ↦ negotiate (λ t. some (t, true)) xdg' x_pdu root st w
  ]

  -- The socket is closed after it, by `agentx_transp_ops`.
  unfoldable pub agentx_close : AgentxDatagram → MibNode → lua.State → W → Ended lua.State W
  unfolding negotiate agentx_close_pdu
  agentx_close xdg root st w =
      let (xdg', x_pdu) = agentx_close_pdu xdg r_shutdown in
      negotiate (λ t. some (t, true)) xdg' x_pdu root st w
