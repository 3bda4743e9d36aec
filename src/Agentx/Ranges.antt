-- ===== src/Agentx/Ranges.antt =====
-- The searches of core/agentx_msg_proc.c: what a range or a binding is answered with.
use smithsnmp.Base.{
  is_negative, ℕ, ◌*◌, ◌<◌, ◌^◌, ◌≡◌, ◌≢◌, refl, arith, Option, none, some, List, length, ◌==◌,
  true, false, Bool-cases, inl, inr, ◌⊎◌,
}
use smithsnmp.Oid.{oid_cmp}
use smithsnmp.Mib.Tree.{MibNode}
use smithsnmp.Mib.Tree.Insert.{IsWellFormed}
use smithsnmp.Mib.Instance.{
  OidSearchRes, Lua, Outcome, returned, aborted, running, snmp_req_get, snmp_req_getnext,
  snmp_req_set,
}
use smithsnmp.Mib.Search.{mib_tree_search}
use smithsnmp.Mib.Search.Keeps.{HasOid, search-HasOid}
use smithsnmp.Mib.Next.{mib_tree_search_next}
use smithsnmp.Mib.Next.Candidates.{rounds}
use smithsnmp.Mib.Next.Ends.{mib_tree_search_next-IsOver}
use smithsnmp.Mib.Next.Part.{IsOver}
use smithsnmp.Snmp.Request.{set_error, cleared}
use smithsnmp.Snmp.Request.Answers.{set_error-oid}
use smithsnmp.Snmp.Request.Passes.{Finds}
use smithsnmp.Agentx.Message.{XSearchRange, XVarBind, AgentxDatagram}
use smithsnmp.Agentx.Process.{
  answer_get, answer_set, agentx_dummy_view, decode_value, outcome_of, is_invalid, mib_get,
  mib_getnext, mib_set, search_behind, agentx_get, agentx_getnext, agentx_set,
}
use smithsnmp.Agentx.Answers.{
  Never, HoldsObjid, Serves, pass-Serves, answer_get-Adds, answer_set-Adds,
}

outcome-Finds {ℓ} :
    {S : Type ℓ} (oid : List ℕ) (r : Option OidSearchRes × S)
    → HasOid oid r.0
    → Finds (λ o. o ≡ oid) (outcome_of r)
outcome-Finds oid (none, st) h = tt
outcome-Finds oid (some res, st) h = h

-- An identifier that is not behind the end of a range: before it, or the end itself, if it is included.
abbrev pub IsBefore : XSearchRange → List ℕ → Type 0
IsBefore sr_in oid =
    (is_negative (oid_cmp oid sr_in.end) ≡ true)
    ⊎ ((sr_in.end_include ≢ 0) × (oid_cmp oid sr_in.end ≡ 0))

-- A value in the range: that of its start, if it is included, or one not behind its end.
abbrev pub IsWithin : XSearchRange → OidSearchRes → Type 0
IsWithin sr_in res = ((sr_in.start_include ≢ 0) × (res.oid ≡ sr_in.start)) ⊎ IsBefore sr_in res.oid

-- A value that is returned is in the range.
abbrev pub IsConfined {ℓ} : {S : Type ℓ} → XSearchRange → Outcome S → Type 0
IsConfined sr_in (returned res st) = is_invalid res ≡ false → IsWithin sr_in res
IsConfined sr_in aborted = Unit
IsConfined sr_in running = Unit

module _ (lua : Lua) (root : MibNode) (k : ℕ) where
  mib_get-Finds :
      (sr_in : XSearchRange) (res : OidSearchRes) (st : lua.State)
      → Finds (λ o. o ≡ sr_in.start) (mib_get lua root k sr_in res st)
  unfolding mib_get
  mib_get-Finds sr_in res st =
      outcome-Finds sr_in.start _ (search-HasOid lua root st agentx_dummy_view sr_in.start res)

  mib_set-Finds :
      (vb_in : XVarBind) (res : OidSearchRes) (st : lua.State)
      → Finds (λ o. o ≡ vb_in.oid) (mib_set lua root k vb_in res st)
  unfolding mib_set
  mib_set-Finds vb_in res st =
      outcome-Finds vb_in.oid _
        (search-HasOid lua root st agentx_dummy_view vb_in.oid (decode_value vb_in res))

  module _ (w : IsWellFormed root) (enough : 2 * rounds root < k) where
    over-Finds :
        (sr_in : XSearchRange) (r : Outcome lua.State) (res : OidSearchRes) (st : lua.State)
        → mib_tree_search_next lua agentx_dummy_view sr_in.start k root res st ≡ r
        → IsOver r
        → Finds (λ o. Unit) (search_behind lua root k sr_in res st)
    unfolding search_behind
    over-Finds sr_in (returned r s) res st q o = rw (search_behind, q) tt
    over-Finds sr_in aborted res st q o = rw (search_behind, q) tt
    over-Finds sr_in running res st q o = absurd o

    search_behind-Finds :
        (sr_in : XSearchRange) (res : OidSearchRes) (st : lua.State)
        → Finds (λ o. Unit) (search_behind lua root k sr_in res st)
    search_behind-Finds sr_in res st =
        over-Finds sr_in _ res st refl
          (mib_tree_search_next-IsOver lua agentx_dummy_view sr_in.start k root w enough res st)

    include-Finds :
        (sr_in : XSearchRange) (r : Outcome lua.State) (res : OidSearchRes) (st : lua.State)
        → outcome_of (mib_tree_search lua root st agentx_dummy_view sr_in.start res) ≡ r
        → Finds (λ o. o ≡ sr_in.start) r
        → (sr_in.start_include == 0) ≡ false
        → Finds (λ o. Unit) (mib_getnext lua root k sr_in res st)
    unfolding mib_getnext
    include-Finds sr_in (returned r s) res st q f z = elim (Bool-cases (is_invalid r)) [
      | inl i ↦ rw (mib_getnext, z, q, i) (search_behind-Finds sr_in r s)
      | inr i ↦ rw (mib_getnext, z, q, i) tt
    ]
    include-Finds sr_in aborted res st q f z = rw (mib_getnext, z, q) tt
    include-Finds sr_in running res st q f z = absurd f

    mib_getnext-Finds :
        (sr_in : XSearchRange) (res : OidSearchRes) (st : lua.State)
        → Finds (λ o. Unit) (mib_getnext lua root k sr_in res st)
    unfolding mib_getnext
    mib_getnext-Finds sr_in res st = elim (Bool-cases (sr_in.start_include == 0)) [
      | inl z ↦ rw (mib_getnext, z) (search_behind-Finds sr_in res st)
      | inr z ↦
          include-Finds sr_in _ res st refl
            (outcome-Finds sr_in.start _
              (search-HasOid lua root st agentx_dummy_view sr_in.start res))
            z
    ]

    pub agentx_getnext-Serves :
        (xdg : AgentxDatagram) (st : lua.State)
        → length xdg.sr_in_list < 2 ^ 16
        → Serves Never (λ sr o. Unit) 0 xdg.sr_in_list xdg (agentx_getnext lua root k xdg st)
    unfolding agentx_getnext
    agentx_getnext-Serves xdg st h =
        pass-Serves (mib_getnext lua root k) (λ res. res) answer_get Never (λ sr o. Unit)
          mib_getnext-Finds (λ res. refl) answer_get-Adds 0 xdg.sr_in_list
          (cleared snmp_req_getnext) xdg st (omega arith)

  pub agentx_get-Serves :
      (xdg : AgentxDatagram) (st : lua.State)
      → length xdg.sr_in_list < 2 ^ 16
      → Serves Never
          (λ (sr : XSearchRange) o. o ≡ sr.start)
          0
          xdg.sr_in_list
          xdg
          (agentx_get lua root k xdg st)
  unfolding agentx_get
  agentx_get-Serves xdg st h =
      pass-Serves (mib_get lua root k) (λ res. res) answer_get Never (λ sr o. o ≡ sr.start)
        mib_get-Finds (λ res. refl) answer_get-Adds 0 xdg.sr_in_list (cleared snmp_req_get) xdg st
        (omega arith)

  pub agentx_set-Serves :
      (xdg : AgentxDatagram) (st : lua.State)
      → length xdg.vb_in_list < 2 ^ 16
      → Serves HoldsObjid
          (λ (vb : XVarBind) o. o ≡ vb.oid)
          0
          xdg.vb_in_list
          xdg
          (agentx_set lua root k xdg st)
  unfolding agentx_set
  agentx_set-Serves xdg st h =
      pass-Serves (mib_set lua root k) set_error answer_set HoldsObjid (λ vb o. o ≡ vb.oid)
        mib_set-Finds set_error-oid answer_set-Adds 0 xdg.vb_in_list (cleared snmp_req_set) xdg st
        (omega arith)
