-- ===== src/Mib/View/Register.antt =====
-- Registration of a community's view: exactly the identifiers below the view become accessible, to
-- that community and in the requested mode.
use smithsnmp.Base.{
  ℕ, ◌≡◌, ◌↔◌, ◌⊎◌, refl, ap₂, ◌∙◌, arith, Bool, true, false, List, if◌then◌else◌, inl, inr,
}
use smithsnmp.Oid.Prefix.{IsPrefix, IsOidArray}
use smithsnmp.Mib.View.{
  ViewState, ViewLists, MibView, MibAcesAttr, mib_aces_read, mib_aces_write, views_of, same_name,
  mib_community_search, community_create, views_in, view_cover, bind_views, mib_community_reg,
  mib_community_view_cover, community_view_bind,
}
use smithsnmp.Mib.View.Filter.{AllOid}
use smithsnmp.Mib.View.Binding.{bind-AllOid, bind_covers}
use smithsnmp.Mib.View.Names.{
  same_name_refl, views_in-set_community, views_in-community_create, community_create-search,
}

-- Every view in the lists is an identifier as the source stores it.
pub record IsValidLists (l : ViewLists) : Type 0 where
  pub ro_valid : AllOid l.ro_views
  pub rw_valid : AllOid l.rw_views

-- Writing covers writing and reading; reading covers reading only.
abbrev pub grants : MibAcesAttr → MibAcesAttr → Bool
grants mib_aces_write wanted = true
grants mib_aces_read mib_aces_read = true
grants mib_aces_read mib_aces_write = false

module _ (oid : List ℕ) (w : IsOidArray oid) (l : ViewLists) (v : IsValidLists l)
    (mib_views : List MibView) (a : AllOid mib_views) where
  pub bind_views_covers :
      (attribute wanted : MibAcesAttr) (o : List ℕ)
      → IsOidArray o
      → (view_cover (views_of wanted (bind_views oid attribute l mib_views).0) o ≡ true) ↔ (
          ((grants attribute wanted ≡ true) × IsPrefix oid o)
          ⊎ (view_cover (views_of wanted l) o ≡ true))
  unfolding bind_views
  bind_views_covers mib_aces_read mib_aces_read o wo =
      let b = bind_covers oid l.ro_views mib_views w v.ro_valid a o wo in
      (
        λ t. elim (b.0 t) [ inl p ↦ inl (refl, p) | inr q ↦ inr q ],
        λ f. b.1 (elim f [ inl p ↦ inl p.1 | inr q ↦ inr q ]),
      )
  bind_views_covers mib_aces_read mib_aces_write o wo =
      (λ t. inr t, elim [ inl p ↦ cc | inr q ↦ q ])
  bind_views_covers mib_aces_write mib_aces_write o wo =
      let b = bind_covers oid l.rw_views mib_views w v.rw_valid a o wo in
      (
        λ t. elim (b.0 t) [ inl p ↦ inl (refl, p) | inr q ↦ inr q ],
        λ f. b.1 (elim f [ inl p ↦ inl p.1 | inr q ↦ inr q ]),
      )
  bind_views_covers mib_aces_write mib_aces_read o wo =
      let mib_views' = (community_view_bind oid l.rw_views mib_views).1 in
      let a' = (bind-AllOid oid l.rw_views mib_views w v.rw_valid a).1 in
      let b = bind_covers oid l.ro_views mib_views' w v.ro_valid a' o wo in
      (
        λ t. elim (b.0 t) [ inl p ↦ inl (refl, p) | inr q ↦ inr q ],
        λ f. b.1 (elim f [ inl p ↦ inl p.1 | inr q ↦ inr q ]),
      )

-- The views that the named community has.
abbrev pub accessible : ViewState → List ℕ → MibAcesAttr → List ℕ → Bool
accessible s community attribute oid =
    mib_community_view_cover (mib_community_search s.mib_communities community) attribute oid

accessible-views_in :
    (s : ViewState) (community : List ℕ) (attribute : MibAcesAttr) (o : List ℕ)
    → accessible s community attribute o
      ≡ view_cover (views_of attribute (views_in s.mib_communities community)) o
unfolding mib_community_view_cover views_in
accessible-views_in s community mib_aces_read o = ground arith
accessible-views_in s community mib_aces_write o = ground arith

views_in-mib_community_reg :
    (s : ViewState) (oid community d : List ℕ) (attribute : MibAcesAttr)
    → views_in (mib_community_reg s oid community attribute).mib_communities d ≡ (
        if same_name community d
        then (bind_views oid attribute (views_in s.mib_communities community) s.mib_views).0
        else views_in s.mib_communities d)
unfolding mib_community_reg
views_in-mib_community_reg s oid community d attribute =
    let cs = community_create s.mib_communities community in
    let l = (bind_views oid attribute (views_in cs community) s.mib_views).0 in
    views_in-set_community cs community d l (community_create-search s.mib_communities community)
    ∙ ap₂
        (λ (x y : ViewLists).
          if same_name community d then (bind_views oid attribute x s.mib_views).0 else y)
        (views_in-community_create s.mib_communities community community)
        (views_in-community_create s.mib_communities community d)

-- After `mib_community_reg` the community has access to exactly the identifiers it had access to
-- before and, in the modes that the attribute grants, those that begin with the registered one; the
-- identifiers, and those of the stored views, are arrays of 32-bit numbers that `oid_cmp` can
-- measure.
pub mib_community_reg-covers :
    (s : ViewState) (oid community : List ℕ) (attribute wanted : MibAcesAttr) (o : List ℕ)
    → IsOidArray oid
    → IsOidArray o
    → AllOid s.mib_views
    → IsValidLists (views_in s.mib_communities community)
    → (accessible (mib_community_reg s oid community attribute) community wanted o ≡ true) ↔ (
        ((grants attribute wanted ≡ true) × IsPrefix oid o)
        ⊎ (accessible s community wanted o ≡ true))
mib_community_reg-covers s oid community attribute wanted o w wo a v =
    rw
      (
        accessible-views_in (mib_community_reg s oid community attribute) community wanted o,
        accessible-views_in s community wanted o,
        views_in-mib_community_reg s oid community community attribute,
        same_name_refl community,
      )
      (bind_views_covers oid w (views_in s.mib_communities community) v s.mib_views a attribute
        wanted o wo)

-- `mib_community_reg` leaves the access of a community with another name as it was.
pub mib_community_reg-others :
    (s : ViewState) (oid community d : List ℕ) (attribute wanted : MibAcesAttr) (o : List ℕ)
    → same_name community d ≡ false
    → accessible (mib_community_reg s oid community attribute) d wanted o ≡ accessible s d wanted o
mib_community_reg-others s oid community d attribute wanted o n = rw (
  accessible-views_in (mib_community_reg s oid community attribute) d wanted o,
  accessible-views_in s d wanted o,
  views_in-mib_community_reg s oid community d attribute,
  n,
)
