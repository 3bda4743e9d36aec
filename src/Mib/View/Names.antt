-- ===== src/Mib/View/Names.antt =====
-- The communities as a map from names to lists of views.
use smithsnmp.Base.{
  ℕ, ◌≡◌, ◌≢◌, refl, ap, sym, ◌∙◌, arith, true, false, none, some, List, [], ◌∷◌, if◌then◌else◌,
  Bool-cases, Option-cases, inl, inr,
}
use smithsnmp.Mib.View.{
  MibCommunity, ViewLists, same_name, mib_community_search, community_create, set_community,
  views_in, no_views,
}

pub same_name_refl : (a : List ℕ) → same_name a a ≡ true
unfolding same_name
same_name_refl [] = refl
same_name_refl (x ∷ a) = ground (arith, same_name_refl a)

pub same_name_eq : (a b : List ℕ) → same_name a b ≡ true → a ≡ b
unfolding same_name
same_name_eq [] [] e = refl
same_name_eq [] (y ∷ b) e = cc
same_name_eq (x ∷ a) [] e = cc
same_name_eq (x ∷ a) (y ∷ b) e = ground (arith, same_name_eq a b)

views_in_cons :
    (k : MibCommunity) (cs : List MibCommunity) (d : List ℕ)
    → views_in (k ∷ cs) d ≡ (if same_name k.name d then k.views else views_in cs d)
unfolding views_in
views_in_cons k cs d = elim (Bool-cases (same_name k.name d)) [
  | inl e ↦ rw (e, views_in, mib_community_search) refl
  | inr e ↦ rw (e, views_in, mib_community_search) refl
]

search_cons :
    (k : MibCommunity) (cs : List MibCommunity) (c : List ℕ)
    → same_name k.name c ≡ false
    → mib_community_search (k ∷ cs) c ≡ mib_community_search cs c
unfolding mib_community_search
search_cons k cs c e = rw e refl

apart_names :
    (n c d : List ℕ) → same_name n c ≡ false → same_name n d ≡ true → ¬ (same_name c d ≡ true)
apart_names n c d e f g = cc (e, ap (λ t. same_name n t) (same_name_eq c d g), f)

pub views_in-set_community :
    (cs : List MibCommunity) (c d : List ℕ) (l : ViewLists)
    → mib_community_search cs c ≢ none
    → views_in (set_community cs c l) d ≡ (if same_name c d then l else views_in cs d)
unfolding set_community
views_in-set_community [] c d l h = absurd (h (unfold mib_community_search in refl))
views_in-set_community (k ∷ cs) c d l h = elim (Bool-cases (same_name k.name c)) [
  | inl e ↦
      let n : k.name ≡ c = same_name_eq k.name c e in
      rw e (
        views_in_cons (record k { views = l }) cs d
        ∙ ground (arith, views_in_cons k cs d, ap (λ t. same_name t d) n))
  | inr e ↦ rw e (
      views_in_cons k (set_community cs c l) d
      ∙ ap (λ (t : ViewLists). if same_name k.name d then k.views else t)
          (views_in-set_community cs c d l (λ q. h (search_cons k cs c e ∙ q)))
      ∙ ground (arith, views_in_cons k cs d, apart_names k.name c d e))
]

create_none :
    (cs : List MibCommunity) (c : List ℕ)
    → mib_community_search cs c ≡ none
    → community_create cs c ≡ record { name = c; views = no_views } ∷ cs
unfolding community_create
create_none cs c e = ground (arith, e)

create_some :
    (cs : List MibCommunity) (c : List ℕ) {k : MibCommunity}
    → mib_community_search cs c ≡ some k
    → community_create cs c ≡ cs
unfolding community_create
create_some cs c e = ground (arith, e)

search_head :
    (l : ViewLists) (cs : List MibCommunity) (c : List ℕ)
    → mib_community_search (record { name = c; views = l } ∷ cs) c
      ≡ some (record { name = c; views = l })
unfolding mib_community_search
search_head l cs c = rw (same_name_refl c) refl

views_in-none :
    (cs : List MibCommunity) (c : List ℕ)
    → mib_community_search cs c ≡ none
    → views_in cs c ≡ no_views
unfolding views_in
views_in-none cs c e = ground (arith, e)

pub community_create-search :
    (cs : List MibCommunity) (c : List ℕ) → mib_community_search (community_create cs c) c ≢ none
community_create-search cs c = elim (Option-cases (mib_community_search cs c)) [
  | inl e ↦ rw (create_none cs c e, search_head no_views cs c) (λ q. cc)
  | inr (k, e) ↦ rw (create_some cs c e, e) (λ q. cc)
]

pub views_in-community_create :
    (cs : List MibCommunity) (c d : List ℕ) → views_in (community_create cs c) d ≡ views_in cs d
views_in-community_create cs c d = elim (Option-cases (mib_community_search cs c)) [
  | inl e ↦ rw (create_none cs c e) (
      views_in_cons (record { name = c; views = no_views }) cs d
      ∙ elim (Bool-cases (same_name c d)) [
        | inl s ↦ rw s (sym (views_in-none cs d (rw (← same_name_eq c d s) e)))
        | inr s ↦ rw s refl
      ])
  | inr (k, e) ↦ rw (create_some cs c e) refl
]
