-- ===== src/Snmp/Access/Behind.antt =====
-- What `mib_getnext` (core/snmp_msg_proc.c) finds behind an identifier, view by view.
use smithsnmp.Base.{
  ℕ, ◌<◌, ◌≡◌, ◌≢◌, refl, arith, List, [], ◌∷◌, length, ◌==◌, Bool-cases, inl, inr,
}
use smithsnmp.Asn1.{asn1_tag_end_of_mib_view}
use smithsnmp.Mib.Tree.{MibNode}
use smithsnmp.Mib.View.{MibView, MibCommunity}
use smithsnmp.Mib.View.Walk.{IsDistinct}
use smithsnmp.Mib.Instance.{OidSearchRes, Lua}
use smithsnmp.Mib.Next.{mib_tree_search_next}
use smithsnmp.Snmp.Access.{
  Outcome, returned, aborted, running, Sender, mib_getnext, access_get, authenticate, next_round,
}
use smithsnmp.Snmp.Access.Ends.{rights, each_view}
use smithsnmp.Snmp.Access.Denial.{mib_getnext_searches}

module _ (lua : Lua) (root : MibNode) (f : ℕ) (oid : List ℕ) where
  -- An outcome is that of the first view whose search does not end with END_OF_MIB_VIEW, each search
  -- going on from what the one before left; without such a view the identifier is given back.
  pub data Behind : List MibView → OidSearchRes → lua.State → Outcome lua.State → Type 0 where
    nowhere :
        (res : OidSearchRes) (st : lua.State)
        → Behind [] res st (returned (record res { oid = oid }) st)
    further :
        (v : MibView) (vs : List MibView) (res res' : OidSearchRes) (st st' : lua.State)
        (out : Outcome lua.State)
        → mib_tree_search_next lua v oid f root res st ≡ returned res' st'
        → res'.var.tag ≡ asn1_tag_end_of_mib_view
        → Behind vs res' st' out
        → Behind (v ∷ vs) res st out
    here :
        (v : MibView) (vs : List MibView) (res res' : OidSearchRes) (st st' : lua.State)
        → mib_tree_search_next lua v oid f root res st ≡ returned res' st'
        → res'.var.tag ≢ asn1_tag_end_of_mib_view
        → Behind (v ∷ vs) res st (returned res' st')
    stopped :
        (v : MibView) (vs : List MibView) (res : OidSearchRes) (st : lua.State)
        → mib_tree_search_next lua v oid f root res st ≡ aborted
        → Behind (v ∷ vs) res st aborted
    unfinished :
        (v : MibView) (vs : List MibView) (res : OidSearchRes) (st : lua.State)
        → mib_tree_search_next lua v oid f root res st ≡ running
        → Behind (v ∷ vs) res st running

  each-Behind :
      (views : List MibView) (res : OidSearchRes) (st : lua.State)
      → Behind views res st (each_view (next_round lua root f oid) oid views res st)
  unfolding each_view next_round
  each-Behind [] res st = nowhere res st
  each-Behind (v ∷ vs) res st =
      go (λ r s. each-Behind vs r s) (mib_tree_search_next lua v oid f root res st) refl
    where
      go :
          ((r : OidSearchRes) (s : lua.State)
            → Behind vs r s (each_view (next_round lua root f oid) oid vs r s))
          → (o : Outcome lua.State) → mib_tree_search_next lua v oid f root res st ≡ o
          → Behind (v ∷ vs) res st (each_view (next_round lua root f oid) oid (v ∷ vs) res st)
      go ih (returned r s) q = elim (Bool-cases (r.var.tag == asn1_tag_end_of_mib_view)) [
        | inl e ↦ rw (next_round, q, e) (further v vs res r st s _ q (ground arith) (ih r s))
        | inr e ↦ rw (next_round, q, e) (here v vs res r st s q (λ t. ground arith))
      ]
      go ih aborted q = rw (next_round, q) (stopped v vs res st q)
      go ih running q = rw (next_round, q) (unfinished v vs res st q)

-- `mib_getnext`, with more rounds than the sender has views for reading and no two of one address,
-- has the outcome of the first of these views, in order, whose search does not end with
-- END_OF_MIB_VIEW, each search going on from what the one before left, and the first from the error
-- status that the access control and the authentication leave; without such a view the identifier
-- is given back.
pub mib_getnext-Behind :
    (lua : Lua) (root : MibNode) (f k : ℕ) (cs : List MibCommunity) (sdg : Sender) (oid : List ℕ)
    (res : OidSearchRes) (st : lua.State)
    → IsDistinct (rights cs sdg).ro_views
    → length (rights cs sdg).ro_views < k
    → Behind lua root f oid
        (rights cs sdg).ro_views
        (record res { err_stat = authenticate sdg (access_get cs sdg res.err_stat) })
        st
        (mib_getnext lua root f k cs sdg oid res st)
mib_getnext-Behind lua root f k cs sdg oid res st d h =
    rw (mib_getnext_searches lua root cs sdg oid res st f k d h)
      (each-Behind lua root f oid (rights cs sdg).ro_views _ st)
