-- ===== src/Snmp/Access/Denial.antt =====
-- Who may read and write by `mib_get` and `mib_set` of core/snmp_msg_proc.c.
use smithsnmp.Base.{
  ℕ, suc, ◌<◌, ◌≡◌, refl, fun_ext, sym, ap, ◌∙◌, arith, true, false, Option, none, List, [], ◌∷◌,
  length, Bool-cases, Option-cases, inl, inr,
}
use smithsnmp.Mib.Tree.{MibNode}
use smithsnmp.Mib.View.{
  MibView, MibCommunity, MibAcesAttr, mib_aces_read, mib_aces_write, views_of, next_view,
  view_cover, mib_community_search, mib_community_view_cover, mib_community_next_view,
}
use smithsnmp.Mib.User.{mib_user_view_cover, mib_user_next_view}
use smithsnmp.Mib.View.Walk.{IsDistinct}
use smithsnmp.Mib.Instance.{OidSearchRes, Lua}
use smithsnmp.Snmp.Access.{
  returned, Sender, is_v3, snmp_err_stat_no_access, access_get, access_set, authenticate, next_of,
  over_views, get_round, next_round, mib_getnext, Outcome, mib_get, mib_set,
}
use smithsnmp.Snmp.Access.Ends.{rights, search_views, over_all, each_view, search_views_reset}

next_of-access_get :
    (cs : List MibCommunity) (sdg : Sender) (e : ℕ) (a : MibAcesAttr) (view : Option MibView)
    → next_of sdg (access_get cs sdg e) a view ≡ next_view (views_of a (rights cs sdg)) view
unfolding next_of access_get rights next_view mib_user_next_view mib_community_next_view
next_of-access_get cs sdg e a view = elim (Bool-cases (is_v3 sdg)) [
  | inl v ↦ elim (Option-cases sdg.user) [
    | inl q ↦ ground (arith, v, q)
    | inr (u, q) ↦ ground (arith, v, q)
  ]
  | inr v ↦ elim (Option-cases (mib_community_search cs sdg.context_name)) [
    | inl q ↦ ground (arith, v, q)
    | inr (c, q) ↦ ground (arith, v, q)
  ]
]

next_of-access_set :
    (cs : List MibCommunity) (sdg : Sender) (oid : List ℕ) (e : ℕ) (view : Option MibView)
    → view_cover (rights cs sdg).rw_views oid ≡ true
    → next_of sdg (access_set cs sdg oid e) mib_aces_write view
      ≡ next_view (rights cs sdg).rw_views view
unfolding next_of access_set rights view_cover mib_user_view_cover mib_community_view_cover
    mib_user_next_view mib_community_next_view
next_of-access_set cs sdg oid e view h = elim (Bool-cases (is_v3 sdg)) [
  | inl v ↦ elim (Option-cases sdg.user) [
    | inl q ↦ ground (arith, v, q)
    | inr (u, q) ↦ ground (arith, v, q)
  ]
  | inr v ↦ elim (Option-cases (mib_community_search cs sdg.context_name)) [
    | inl q ↦ ground (arith, v, q)
    | inr (c, q) ↦ ground (arith, v, q)
  ]
]

denied-access_set :
    (cs : List MibCommunity) (sdg : Sender) (oid : List ℕ) (e : ℕ) (view : Option MibView)
    → view_cover (rights cs sdg).rw_views oid ≡ false
    → (next_of sdg (access_set cs sdg oid e) mib_aces_write view ≡ none)
      × (authenticate sdg (access_set cs sdg oid e) ≡ snmp_err_stat_no_access)
unfolding next_of access_set authenticate rights view_cover mib_user_view_cover
    mib_community_view_cover mib_user_next_view mib_community_next_view
denied-access_set cs sdg oid e view h = elim (Bool-cases (is_v3 sdg)) [
  | inl v ↦ elim (Option-cases sdg.user) [
    | inl q ↦ ground (arith, v, q)
    | inr (u, q) ↦ ground (arith, v, q)
  ]
  | inr v ↦ elim (Option-cases (mib_community_search cs sdg.context_name)) [
    | inl q ↦ ground (arith, v, q)
    | inr (c, q) ↦ ground (arith, v, q)
  ]
]

nonempty :
    (views : List MibView) (oid : List ℕ)
    → view_cover views oid ≡ true
    → (v : MibView) × (vs : List MibView) × (views ≡ v ∷ vs)
unfolding view_cover
nonempty [] oid h = absurd (cc)
nonempty (v ∷ vs) oid h = (v, vs, refl)

module _ (lua : Lua) (root : MibNode) (cs : List MibCommunity) (sdg : Sender) (oid : List ℕ)
    (res : OidSearchRes) (st : lua.State) where
  -- The loop goes through the views for reading.
  reads :
      (round : MibView
        → (OidSearchRes → lua.State → Outcome lua.State)
        → OidSearchRes
        → lua.State
        → Outcome lua.State)
      (k : ℕ)
      → IsDistinct (rights cs sdg).ro_views
      → length (rights cs sdg).ro_views < k
      → (e : ℕ)
      → over_views round oid k
          (next_of sdg (access_get cs sdg res.err_stat) mib_aces_read)
          none
          (record res { err_stat = e })
          st
        ≡ each_view round oid (rights cs sdg).ro_views (record res { err_stat = e }) st
  reads round k d h e =
      ap
        (λ (f : Option MibView → Option MibView).
          over_views round oid k f none (record res { err_stat = e }) st)
        (fun_ext (next_of-access_get cs sdg res.err_stat mib_aces_read))
      ∙ ap
          (λ (f : OidSearchRes → lua.State → Outcome lua.State). f (record res { err_stat = e }) st)
          (over_all round oid k (rights cs sdg).ro_views d h)

  -- `mib_get`, with more rounds than the sender has views for reading and no two of one address,
  -- ends, and is the search through these views in order, from the error status that the access
  -- control and the authentication leave.
  pub mib_get_searches :
      (k : ℕ)
      → IsDistinct (rights cs sdg).ro_views
      → length (rights cs sdg).ro_views < k
      → mib_get lua root k cs sdg oid res st
        ≡ search_views lua root oid
            (rights cs sdg).ro_views
            (record res { err_stat = authenticate sdg (access_get cs sdg res.err_stat) })
            st
  unfolding mib_get search_views
  mib_get_searches k d h =
      reads (get_round lua root oid) k d h (authenticate sdg (access_get cs sdg res.err_stat))

  -- `mib_set` at an identifier that a view for writing of the sender covers, with more rounds than
  -- there are such views and no two of one address, ends, and is the search through these views in
  -- order; neither the error status before the call nor the result of the authentication has a part
  -- in it.
  pub mib_set_searches :
      (k : ℕ)
      → view_cover (rights cs sdg).rw_views oid ≡ true
      → IsDistinct (rights cs sdg).rw_views
      → length (rights cs sdg).rw_views < k
      → mib_set lua root k cs sdg oid res st
        ≡ search_views lua root oid (rights cs sdg).rw_views res st
  unfolding mib_set search_views
  mib_set_searches k c d h =
      let e = authenticate sdg (access_set cs sdg oid res.err_stat) in
      let (v, vs, q) = nonempty (rights cs sdg).rw_views oid c in
      ap
        (λ (f : Option MibView → Option MibView).
          over_views (get_round lua root oid) oid k f none (record res { err_stat = e }) st)
        (fun_ext (λ view. next_of-access_set cs sdg oid res.err_stat view c))
      ∙ ap
          (λ (f : OidSearchRes → lua.State → Outcome lua.State). f (record res { err_stat = e }) st)
          (over_all (get_round lua root oid) oid k (rights cs sdg).rw_views d h)
      ∙ ap (λ (t : List MibView). search_views lua root oid t (record res { err_stat = e }) st) q
      ∙ search_views_reset lua root oid v vs e res st
      ∙ ap (λ (t : List MibView). search_views lua root oid t res st) (sym q)

  -- `mib_set` at an identifier that no view for writing of the sender covers, be it that there is
  -- no such user or community, ends in the first round: the error status is NO_ACCESS, the
  -- identifier is returned, nothing else of the result changes, and no handler is called.
  pub mib_set_denied :
      (k : ℕ)
      → view_cover (rights cs sdg).rw_views oid ≡ false
      → mib_set lua root (suc k) cs sdg oid res st
        ≡ returned (record res { oid = oid; err_stat = snmp_err_stat_no_access }) st
  unfolding mib_set over_views
  mib_set_denied k c =
      let (e, a) = denied-access_set cs sdg oid res.err_stat none c in ground (arith, e, a)

  -- `mib_getnext`, with more rounds than the sender has views for reading and no two of one
  -- address, is the search behind the identifier through these views in order, until one does not
  -- answer with its end, from the error status that the access control and the authentication
  -- leave.
  pub mib_getnext_searches :
      (f k : ℕ)
      → IsDistinct (rights cs sdg).ro_views
      → length (rights cs sdg).ro_views < k
      → mib_getnext lua root f k cs sdg oid res st
        ≡ each_view
            (next_round lua root f oid)
            oid
            (rights cs sdg).ro_views
            (record res { err_stat = authenticate sdg (access_get cs sdg res.err_stat) })
            st
  unfolding mib_getnext
  mib_getnext_searches f k d h =
      reads (next_round lua root f oid) k d h (authenticate sdg (access_get cs sdg res.err_stat))
