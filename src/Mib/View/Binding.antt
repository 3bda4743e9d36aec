-- ===== src/Mib/View/Binding.antt =====
-- Binding a view to a list of views: what the list covers, and that no view of it covers another.
use smithsnmp.Base.{
  ℕ, ◌≡◌, ◌↔◌, ◌⊎◌, refl, ap, sym, ◌∙◌, subst, arith, true, some, List, [], ◌∷◌, ◌==◌, Bool-cases,
  Option-cases, inl, inr,
}
use smithsnmp.Oid.{oid_cmp}
use smithsnmp.Oid.Order.{oid_cmp_zero}
use smithsnmp.Oid.Prefix.{IsPrefix, IsPrefix-trans, IsOidArray}
use smithsnmp.Mib.View.{
  MibView, mib_view_search, view_create, community_view_filter, community_view_add,
  community_view_bind, view_cover, is_positive,
}
use smithsnmp.Mib.View.Filter.{
  AllOid, IsCovered, view_cover-IsCovered, filter-AllOid, filter_true, filter_covers, filter_only,
}

IsCovered-down : (vs : List MibView) (p o : List ℕ) → IsCovered vs p → IsPrefix p o → IsCovered vs o
IsCovered-down [] p o f h = f
IsCovered-down (v ∷ vs) p o f h = elim f [
  | inl q ↦ inl (IsPrefix-trans v.oid p o q h)
  | inr q ↦ inr (IsCovered-down vs p o q h)
]

search_oid :
    (vs : List MibView) (oid : List ℕ) (v : MibView)
    → AllOid vs
    → IsOidArray oid
    → mib_view_search vs oid ≡ some v
    → v.oid ≡ oid
unfolding mib_view_search
search_oid [] oid v h w e = cc
search_oid (u ∷ vs) oid v h w e = elim (Bool-cases (oid_cmp u.oid oid == 0)) [
  | inl z ↦
      let s : u ≡ v = ground arith in
      ap (λ (t : MibView). t.oid) (sym s)
      ∙ oid_cmp_zero u.oid oid h.0.wide w.wide h.0.short w.short (ground arith)
  | inr z ↦ search_oid vs oid v h.1 w (ground arith)
]

create_oid :
    (vs : List MibView) (oid : List ℕ)
    → AllOid vs
    → IsOidArray oid
    → (view_create vs oid).0.oid ≡ oid
unfolding view_create
create_oid vs oid h w = elim (Option-cases (mib_view_search vs oid)) [
  | inl e ↦ rw (e, view_create) refl
  | inr (v, e) ↦ rw (e, view_create) (search_oid vs oid v h w e)
]

pub create-AllOid :
    (vs : List MibView) (oid : List ℕ) → AllOid vs → IsOidArray oid → AllOid (view_create vs oid).1
unfolding view_create
create-AllOid vs oid h w = elim (Option-cases (mib_view_search vs oid)) [
  | inl e ↦ rw (e, view_create) (w, h)
  | inr (v, e) ↦ rw (e, view_create) h
]

add-AllOid :
    (v : MibView) (vs : List MibView)
    → IsOidArray v.oid
    → AllOid vs
    → AllOid (community_view_add v vs)
unfolding community_view_add
add-AllOid v [] w h = (w, tt)
add-AllOid v (u ∷ vs) w h = elim (Bool-cases (is_positive (oid_cmp u.oid v.oid))) [
  | inl e ↦ rw e (w, h)
  | inr e ↦ rw e (h.0, add-AllOid v vs w h.1)
]

add_covers :
    (v : MibView) (vs : List MibView) (o : List ℕ)
    → IsCovered (community_view_add v vs) o ↔ (IsPrefix v.oid o ⊎ IsCovered vs o)
unfolding community_view_add
add_covers v [] o = (λ f. f, λ f. f)
add_covers v (u ∷ vs) o =
    let ih = add_covers v vs o in
    elim (Bool-cases (is_positive (oid_cmp u.oid v.oid))) [
      | inl e ↦ rw e (λ f. f, λ f. f)
      | inr e ↦ rw e (
        elim [
          | inl p ↦ inr (inl p)
          | inr q ↦ elim (ih.0 q) [ inl p ↦ inl p | inr r ↦ inr (inr r) ]
        ],
        elim [
          | inl p ↦ inr (ih.1 (inl p))
          | inr q ↦ elim q [ inl p ↦ inl p | inr r ↦ inr (ih.1 (inr r)) ]
        ],
      )
    ]

module _ (oid : List ℕ) (vs mib_views : List MibView) (w : IsOidArray oid) (h : AllOid vs)
    (a : AllOid mib_views) where
  pub bind-AllOid :
      AllOid (community_view_bind oid vs mib_views).0
      × AllOid (community_view_bind oid vs mib_views).1
  unfolding community_view_bind
  bind-AllOid = elim (Bool-cases (community_view_filter oid vs).0) [
    | inl e ↦ rw e (filter-AllOid oid w vs h, a)
    | inr e ↦ rw e (
      add-AllOid (view_create mib_views oid).0 (community_view_filter oid vs).1
          (rw (create_oid mib_views oid a w) w) (filter-AllOid oid w vs h),
      create-AllOid mib_views oid a w,
    )
  ]

  bind-IsCovered :
      (o : List ℕ)
      → IsCovered (community_view_bind oid vs mib_views).0 o ↔ (IsPrefix oid o ⊎ IsCovered vs o)
  unfolding community_view_bind
  bind-IsCovered o =
      let kept = (community_view_filter oid vs).1 in
      let v = (view_create mib_views oid).0 in
      let same : v.oid ≡ oid = create_oid mib_views oid a w in
      let added = add_covers v kept o in
      elim (Bool-cases (community_view_filter oid vs).0) [
        | inl e ↦ rw e (
          λ f. inr (filter_only oid w vs o f),
          elim [
            | inl p ↦ IsCovered-down kept oid o (filter_true oid w vs h e) p
            | inr q ↦ elim (filter_covers oid w vs o h q) [
              | inl r ↦ r
              | inr r ↦ IsCovered-down kept oid o (filter_true oid w vs h e) r
            ]
          ],
        )
        | inr e ↦ rw e (
          λ f. elim (added.0 f) [
            | inl p ↦ inl (subst (λ t. IsPrefix t o) same p)
            | inr q ↦ inr (filter_only oid w vs o q)
          ],
          elim [
            | inl p ↦ added.1 (inl (subst (λ t. IsPrefix t o) (sym same) p))
            | inr q ↦ elim (filter_covers oid w vs o h q) [
              | inl r ↦ added.1 (inr r)
              | inr r ↦ added.1 (inl (subst (λ t. IsPrefix t o) (sym same) r))
            ]
          ],
        )
      ]

  -- A binding adds to the covered identifiers those that begin with the given one, and no other.
  pub bind_covers :
      (o : List ℕ)
      → IsOidArray o
      → (view_cover (community_view_bind oid vs mib_views).0 o ≡ true)
        ↔ (IsPrefix oid o ⊎ (view_cover vs o ≡ true))
  bind_covers o wo =
      let before = view_cover-IsCovered vs o h wo in
      let after =
        view_cover-IsCovered (community_view_bind oid vs mib_views).0 o bind-AllOid.0 wo in
      (
        λ t. elim ((bind-IsCovered o).0 (after.0 t)) [ inl p ↦ inl p | inr q ↦ inr (before.1 q) ],
        λ f. after.1 ((bind-IsCovered o).1 (elim f [ inl p ↦ inl p | inr q ↦ inr (before.0 q) ])),
      )
