-- ===== src/Mib/View/Filter.antt =====
-- The filter of a binding, and what a list of views covers.
use smithsnmp.Base.{ℕ, ◌≡◌, ◌↔◌, ◌⊎◌, refl, arith, true, List, [], ◌∷◌, All, inl, inr}
use smithsnmp.Oid.{oid_cover, Cover, covers, covered, apart}
use smithsnmp.Oid.Prefix.{IsPrefix, IsPrefix-trans, IsOidArray, oid_cover-covers, oid_cover-covered}
use smithsnmp.Mib.View.{MibView, community_view_filter, view_cover}

abbrev pub AllOid : List MibView → Type 0
AllOid vs = All (λ (v : MibView). IsOidArray v.oid) vs

-- Some view of the list is a prefix of the identifier.
abbrev pub IsCovered : List MibView → List ℕ → Type 0
IsCovered [] o = ⊥
IsCovered (v ∷ vs) o = IsPrefix v.oid o ⊎ IsCovered vs o

pub Cover-cases : (c : Cover) → (c ≡ covers) ⊎ ((c ≡ covered) ⊎ (c ≡ apart))
Cover-cases covers = inl refl
Cover-cases covered = inr (inl refl)
Cover-cases apart = inr (inr refl)

-- `view_cover` decides whether the identifier is covered.
pub view_cover-IsCovered :
    (vs : List MibView) (o : List ℕ)
    → AllOid vs
    → IsOidArray o
    → (view_cover vs o ≡ true) ↔ IsCovered vs o
unfolding view_cover
view_cover-IsCovered [] o h w = (λ e. cc, λ f. absurd f)
view_cover-IsCovered (v ∷ vs) o h w =
    let ih = view_cover-IsCovered vs o h.1 w in
    let c = oid_cover-covers v.oid o h.0 w in
    elim (Cover-cases (oid_cover v.oid o)) [
      | inl e ↦ rw (e, view_cover) (λ _. inl (c.0 e), λ _. refl)
      | inr (inl e) ↦
          rw (e, view_cover)
            (λ t. inr (ih.0 t), elim [ inl p ↦ absurd (cc (e, c.1 p)) | inr q ↦ ih.1 q ])
      | inr (inr e) ↦
          rw (e, view_cover)
            (λ t. inr (ih.0 t), elim [ inl p ↦ absurd (cc (e, c.1 p)) | inr q ↦ ih.1 q ])
    ]

module _ (oid : List ℕ) (wo : IsOidArray oid) where
  pub filter-AllOid : (vs : List MibView) → AllOid vs → AllOid (community_view_filter oid vs).1
  unfolding community_view_filter
  filter-AllOid [] h = tt
  filter-AllOid (v ∷ vs) h = elim (Cover-cases (oid_cover v.oid oid)) [
    | inl e ↦ rw (e, community_view_filter) h
    | inr (inl e) ↦ rw (e, community_view_filter) (filter-AllOid vs h.1)
    | inr (inr e) ↦ rw (e, community_view_filter) (h.0, filter-AllOid vs h.1)
  ]

  -- A list that is filtered covers the identifier.
  pub filter_true :
      (vs : List MibView)
      → AllOid vs
      → (community_view_filter oid vs).0 ≡ true
      → IsCovered (community_view_filter oid vs).1 oid
  unfolding community_view_filter
  filter_true [] h e = cc
  filter_true (v ∷ vs) h e = elim (Cover-cases (oid_cover v.oid oid)) [
    | inl c ↦ rw (c, community_view_filter) (inl ((oid_cover-covers v.oid oid h.0 wo).0 c))
    | inr (inl c) ↦ rw (c, community_view_filter) (filter_true vs h.1 (ground arith))
    | inr (inr c) ↦ rw (c, community_view_filter) (inr (filter_true vs h.1 (ground arith)))
  ]

  -- What the filter takes out lies below the identifier.
  pub filter_covers :
      (vs : List MibView) (o : List ℕ)
      → AllOid vs
      → IsCovered vs o
      → IsCovered (community_view_filter oid vs).1 o ⊎ IsPrefix oid o
  unfolding community_view_filter
  filter_covers [] o h f = absurd f
  filter_covers (v ∷ vs) o h f = elim (Cover-cases (oid_cover v.oid oid)) [
    | inl c ↦ rw (c, community_view_filter) (inl f)
    | inr (inl c) ↦
        rw (c, community_view_filter)
          (elim f [
            | inl p ↦
                inr (IsPrefix-trans oid v.oid o (((oid_cover-covered v.oid oid h.0 wo).0 c).0) p)
            | inr q ↦ filter_covers vs o h.1 q
          ])
    | inr (inr c) ↦
        rw (c, community_view_filter)
          (elim f [
            | inl p ↦ inl (inl p)
            | inr q ↦ elim (filter_covers vs o h.1 q) [ inl r ↦ inl (inr r) | inr r ↦ inr r ]
          ])
  ]

  pub filter_only :
      (vs : List MibView) (o : List ℕ)
      → IsCovered (community_view_filter oid vs).1 o
      → IsCovered vs o
  unfolding community_view_filter
  filter_only [] o f = f
  filter_only (v ∷ vs) o f = elim (Cover-cases (oid_cover v.oid oid)) [
    | inl c ↦ rw (c, community_view_filter) at f
    | inr (inl c) ↦ inr (filter_only vs o (rw (c, community_view_filter) at f))
    | inr (inr c) ↦
        let g = rw (c, community_view_filter) at f in
        elim g [ inl p ↦ inl p | inr q ↦ inr (filter_only vs o q) ]
  ]
