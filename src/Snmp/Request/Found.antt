-- ===== src/Snmp/Request/Found.antt =====
-- The searches of `mib_get`, `mib_set` and `mib_getnext` (core/snmp_msg_proc.c) end, and what the
-- first two return has the identifier that was asked for.
use smithsnmp.Base.{
  ℕ, zero, suc, ◌*◌, ◌<◌, ◌≡◌, refl, arith, Option, none, some, List, [], ◌∷◌, length, ◌==◌,
  Bool-cases, inl, inr,
}
use smithsnmp.Asn1.{asn1_tag_end_of_mib_view}
use smithsnmp.Mib.Tree.{MibNode}
use smithsnmp.Mib.Tree.Insert.{IsWellFormed}
use smithsnmp.Mib.View.{MibView, MibCommunity, view_cover}
use smithsnmp.Mib.View.Walk.{IsDistinct}
use smithsnmp.Mib.Instance.{OidSearchRes, Lua}
use smithsnmp.Mib.Search.{mib_tree_search}
use smithsnmp.Mib.Search.Keeps.{HasOid, search-HasOid}
use smithsnmp.Mib.Next.{mib_tree_search_next}
use smithsnmp.Mib.Next.Candidates.{rounds}
use smithsnmp.Mib.Next.Ends.{mib_tree_search_next-IsOver}
use smithsnmp.Mib.Next.Part.{IsOver}
use smithsnmp.Snmp.Access.{
  Outcome, returned, aborted, running, go_on, stops, Sender, mib_get, mib_set, mib_getnext,
  access_get, authenticate, get_round, next_round,
}
use smithsnmp.Snmp.Access.Ends.{rights, search_views, each_view}
use smithsnmp.Snmp.Access.Denial.{
  mib_get_searches, mib_set_searches, mib_set_denied, mib_getnext_searches,
}
use smithsnmp.Snmp.Request.Passes.{Finds}

go_on-Finds {ℓ} :
    {S : Type ℓ} (oid : List ℕ) (v : MibView) (r : Option OidSearchRes × S)
    (rest : OidSearchRes → S → Outcome S)
    → HasOid oid r.0
    → ((res : OidSearchRes) (st : S) → Finds (λ o. o ≡ oid) (rest res st))
    → Finds (λ o. o ≡ oid) (go_on oid v r rest)
unfolding go_on
go_on-Finds oid v (none, st) rest h k = tt
go_on-Finds oid v (some res, st) rest h k = elim (Bool-cases (stops oid v res)) [
  | inl e ↦ rw e h
  | inr e ↦ rw e (k res st)
]

module _ (lua : Lua) (root : MibNode) where
  search-Finds :
      (views : List MibView) (oid : List ℕ) (res : OidSearchRes) (st : lua.State)
      → Finds (λ o. o ≡ oid) (search_views lua root oid views res st)
  unfolding search_views each_view get_round
  search-Finds [] oid res st = refl
  search-Finds (v ∷ views) oid res st =
      go_on-Finds oid v (mib_tree_search lua root st v oid res)
        (λ res' st'. search_views lua root oid views res' st') (search-HasOid lua root st v oid res)
        (λ res' st'. search-Finds views oid res' st')

  module _ (k : ℕ) (cs : List MibCommunity) (sender : Sender) where
    pub get-Finds :
        (oid : List ℕ) (res : OidSearchRes) (st : lua.State)
        → IsDistinct (rights cs sender).ro_views
        → length (rights cs sender).ro_views < k
        → Finds (λ o. o ≡ oid) (mib_get lua root k cs sender oid res st)
    get-Finds oid res st d h = rw (mib_get_searches lua root cs sender oid res st k d h) (
        search-Finds (rights cs sender).ro_views oid
          (record res { err_stat = authenticate sender (access_get cs sender res.err_stat) }) st)

pub set-Finds :
    (lua : Lua) (root : MibNode) (k : ℕ) (cs : List MibCommunity) (sender : Sender) (oid : List ℕ)
    (res : OidSearchRes) (st : lua.State)
    → IsDistinct (rights cs sender).rw_views
    → length (rights cs sender).rw_views < k
    → Finds (λ o. o ≡ oid) (mib_set lua root k cs sender oid res st)
set-Finds lua root zero cs sender oid res st d h = absurd (omega arith)
set-Finds lua root (suc k) cs sender oid res st d h =
    elim (Bool-cases (view_cover (rights cs sender).rw_views oid)) [
      | inl c ↦
          rw (mib_set_searches lua root cs sender oid res st (suc k) c d h)
            (search-Finds lua root (rights cs sender).rw_views oid res st)
      | inr c ↦ rw (mib_set_denied lua root cs sender oid res st k c) refl
    ]

-- The search behind an identifier.
module _ (lua : Lua) (root : MibNode) (f : ℕ) (w : IsWellFormed root) (h : 2 * rounds root < f)
    (oid : List ℕ) where
  next_round-Finds :
      (v : MibView) (rest : OidSearchRes → lua.State → Outcome lua.State) (res : OidSearchRes)
      (st : lua.State)
      → ((r : OidSearchRes) (s : lua.State) → Finds (λ o. Unit) (rest r s))
      → Finds (λ o. Unit) (next_round lua root f oid v rest res st)
  unfolding next_round
  next_round-Finds v rest res st over =
      go (mib_tree_search_next lua v oid f root res st) refl
        (mib_tree_search_next-IsOver lua v oid f root w h res st)
    where
      go :
          (r : Outcome lua.State)
          → mib_tree_search_next lua v oid f root res st ≡ r
          → IsOver r
          → Finds (λ o. Unit) (next_round lua root f oid v rest res st)
      go (returned r s) q i = elim (Bool-cases (r.var.tag == asn1_tag_end_of_mib_view)) [
        | inl e ↦ rw (next_round, q, e) (over r s)
        | inr e ↦ rw (next_round, q, e) tt
      ]
      go aborted q i = rw (next_round, q) tt
      go running q i = absurd i

  each-Finds :
      (views : List MibView) (res : OidSearchRes) (st : lua.State)
      → Finds (λ o. Unit) (each_view (next_round lua root f oid) oid views res st)
  unfolding each_view
  each-Finds [] res st = tt
  each-Finds (v ∷ views) res st =
      next_round-Finds v (each_view (next_round lua root f oid) oid views) res st
        (λ r s. each-Finds views r s)

  pub getnext-Finds :
      (k : ℕ) (cs : List MibCommunity) (sender : Sender) (res : OidSearchRes) (st : lua.State)
      → IsDistinct (rights cs sender).ro_views
      → length (rights cs sender).ro_views < k
      → Finds (λ o. Unit) (mib_getnext lua root f k cs sender oid res st)
  getnext-Finds k cs sender res st d l =
      rw (mib_getnext_searches lua root cs sender oid res st f k d l) (
        each-Finds (rights cs sender).ro_views
          (record res { err_stat = authenticate sender (access_get cs sender res.err_stat) }) st)
