-- ===== src/Mib/View.antt =====
-- The views of the MIB tree and who may use them: core/mib_view.c. The lists that link the views of
-- a community (or a user) are lists of views. The links back from a view are only written, and are
-- left out.
pub mod Filter
pub mod Binding
pub mod Names
pub mod Register
pub mod Unreg
pub mod Walk
use smithsnmp.Base.{
  ℕ, zero, suc, ◌+◌, ◌^◌, Bool, true, false, not, ◌&&◌, ◌||◌, Option, none, some, List, [], ◌∷◌,
  ◌==◌, if◌then◌else◌, length, is_negative,
}
use smithsnmp.Oid.{oid_cmp, oid_cover, covers, covered, apart}

-- `addr` is the pointer to the view, by which views are told apart.
pub record MibView : Type 0 where
  pub addr : ℕ
  pub oid : List ℕ

pub record ViewLists : Type 0 where
  pub ro_views : List MibView
  pub rw_views : List MibView

-- A name is the bytes of a C string.
pub record MibCommunity : Type 0 where
  pub name : List ℕ
  pub views : ViewLists

pub data MibAcesAttr : Type 0 where
  mib_aces_read mib_aces_write : MibAcesAttr

abbrev pub views_of : MibAcesAttr → ViewLists → List MibView
views_of mib_aces_read l = l.ro_views
views_of mib_aces_write l = l.rw_views

-- `!strcmp(a, b)`
unfoldable pub same_name : List ℕ → List ℕ → Bool
same_name [] [] = true
same_name [] (y ∷ b) = false
same_name (x ∷ a) [] = false
same_name (x ∷ a) (y ∷ b) = x == y && same_name a b

unfoldable pub mib_view_search : List MibView → List ℕ → Option MibView
mib_view_search [] oid = none
mib_view_search (v ∷ vs) oid = if oid_cmp v.oid oid == 0 then some v else mib_view_search vs oid

-- Views are never freed, so their number gives the next address.
unfoldable pub view_create : List MibView → List ℕ → MibView × List MibView
unfolding mib_view_search
view_create mib_views oid = elim (mib_view_search mib_views oid) [
  | some v ↦ (v, mib_views)
  | none ↦
      let v : MibView = record { addr = suc (length mib_views); oid = oid } in (v, v ∷ mib_views)
]

-- Whether a view covers the identifier, and the list without the views that it covers.
unfoldable pub community_view_filter : List ℕ → List MibView → Bool × List MibView
unfolding oid_cover
community_view_filter oid [] = (false, [])
community_view_filter oid (v ∷ vs) =
    let rest = community_view_filter oid vs in
    elim (oid_cover v.oid oid) [
      | covers ↦ (true, v ∷ vs)
      | covered ↦ rest
      | apart ↦ (rest.0, v ∷ rest.1)
    ]

-- `cmp > 0`
abbrev pub is_positive : ℕ → Bool
is_positive r = not (r == 0) && not (is_negative r)

unfoldable pub community_view_add : MibView → List MibView → List MibView
unfolding oid_cmp
community_view_add v [] = v ∷ []
community_view_add v (w ∷ ws) =
    let rest = community_view_add v ws in
    if is_positive (oid_cmp w.oid v.oid) then v ∷ w ∷ ws else w ∷ rest

-- The list of the community after the binding, and `mib_views`.
unfoldable pub community_view_bind :
    List ℕ → List MibView → List MibView → List MibView × List MibView
unfolding community_view_filter view_create community_view_add
community_view_bind oid views mib_views =
    let (filtered, kept) = community_view_filter oid views in
    let (v, mib_views') = view_create mib_views oid in
    if filtered then (kept, mib_views) else (community_view_add v kept, mib_views')

-- Both bindings of a registration; writing includes reading.
unfoldable pub bind_views :
    List ℕ → MibAcesAttr → ViewLists → List MibView → ViewLists × List MibView
unfolding community_view_bind
bind_views oid mib_aces_read l mib_views =
    let (ro, mib_views') = community_view_bind oid l.ro_views mib_views in
    (record l { ro_views = ro }, mib_views')
bind_views oid mib_aces_write l mib_views =
    let (rw_list, mib_views') = community_view_bind oid l.rw_views mib_views in
    let (ro, mib_views'') = community_view_bind oid l.ro_views mib_views' in
    (record { ro_views = ro; rw_views = rw_list }, mib_views'')

abbrev pub no_views : ViewLists
no_views = record { ro_views = []; rw_views = [] }

pub record ViewState : Type 0 where
  pub mib_views : List MibView
  pub mib_communities : List MibCommunity

unfoldable pub mib_community_search : List MibCommunity → List ℕ → Option MibCommunity
unfolding same_name
mib_community_search [] community = none
mib_community_search (c ∷ cs) community =
    if same_name c.name community then some c else mib_community_search cs community

-- `community_create`: the list with the community in it.
unfoldable pub community_create : List MibCommunity → List ℕ → List MibCommunity
unfolding mib_community_search
community_create cs community = elim (mib_community_search cs community) [
  | some c ↦ cs
  | none ↦ record { name = community; views = no_views } ∷ cs
]

-- A change of the community that the search finds.
unfoldable pub set_community : List MibCommunity → List ℕ → ViewLists → List MibCommunity
unfolding same_name
set_community [] community l = []
set_community (c ∷ cs) community l =
    if same_name c.name community
    then record c { views = l } ∷ cs
    else c ∷ set_community cs community l

unfoldable pub views_in : List MibCommunity → List ℕ → ViewLists
unfolding mib_community_search
views_in cs community = elim (mib_community_search cs community) [
  | none ↦ no_views
  | some c ↦ c.views
]

unfoldable pub mib_community_reg : ViewState → List ℕ → List ℕ → MibAcesAttr → ViewState
unfolding community_create views_in bind_views set_community
mib_community_reg s oid community attribute =
    let cs = community_create s.mib_communities community in
    let (l, mib_views') = bind_views oid attribute (views_in cs community) s.mib_views in
    record { mib_views = mib_views'; mib_communities = set_community cs community l }

-- What the loop leaves of the views of a community with the name.
unfoldable pub unbind_views : MibAcesAttr → ViewLists → ViewLists
unbind_views mib_aces_read l = no_views
unbind_views mib_aces_write l = record l { rw_views = [] }

abbrev pub is_empty {ℓ} : {A : Type ℓ} → List A → Bool
is_empty [] = true
is_empty (x ∷ xs) = false

-- The loop does not go on behind a community that it keeps: it meets the same one again. `none`
-- means that it has not ended within the given number of rounds.
unfoldable pub mib_community_unreg :
    ℕ → List MibCommunity → List ℕ → MibAcesAttr → Option (List MibCommunity)
unfolding same_name unbind_views
mib_community_unreg zero cs community attribute = none
mib_community_unreg (suc k) [] community attribute = some []
mib_community_unreg (suc k) (c ∷ cs) community attribute =
    let left = unbind_views attribute c.views in
    let gone = mib_community_unreg k cs community attribute in
    let again = mib_community_unreg k (record c { views = left } ∷ cs) community attribute in
    if same_name c.name community
    then (if is_empty left.ro_views && is_empty left.rw_views then gone else again)
    else elim gone [ none ↦ none | some cs' ↦ some (c ∷ cs') ]

-- `mib_community_view_cover`, on the list that the attribute selects.
unfoldable pub view_cover : List MibView → List ℕ → Bool
unfolding oid_cover
view_cover [] oid = false
view_cover (v ∷ vs) oid = elim (oid_cover v.oid oid) [ covers ↦ true | _ ↦ view_cover vs oid ]

unfoldable pub mib_community_view_cover : Option MibCommunity → MibAcesAttr → List ℕ → Bool
unfolding view_cover
mib_community_view_cover none attribute oid = false
mib_community_view_cover (some c) attribute oid = view_cover (views_of attribute c.views) oid

unfoldable pub next_view : List MibView → Option MibView → Option MibView
next_view [] v = none
next_view (w ∷ ws) none = some w
next_view (w ∷ ws) (some v) =
    if w.addr == v.addr then elim ws [ [] ↦ none | u ∷ _ ↦ some u ] else next_view ws (some v)

unfoldable pub mib_community_next_view :
    Option MibCommunity → MibAcesAttr → Option MibView → Option MibView
unfolding next_view
mib_community_next_view none attribute v = none
mib_community_next_view (some c) attribute v = next_view (views_of attribute c.views) v
