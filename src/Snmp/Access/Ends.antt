-- ===== src/Snmp/Access/Ends.antt =====
-- The loop of `mib_get` and `mib_set` (core/snmp_msg_proc.c) as a search through a list of views.
use smithsnmp.Base.{
  ℕ, zero, suc, ◌<◌, ◌≡◌, refl, fun_ext, sym, ap, ◌∙◌, arith, Option, none, some, List, [], ◌∷◌,
  ◌++◌, append_assoc, length, if◌then◌else◌,
}
use smithsnmp.Mib.Tree.{MibNode}
use smithsnmp.Mib.View.{MibView, MibCommunity, ViewLists, no_views, next_view, mib_community_search}
use smithsnmp.Mib.View.Walk.{IsDistinct, next_view_behind}
use smithsnmp.Mib.Instance.{OidSearchRes, Lua}
use smithsnmp.Mib.Search.{mib_tree_search}
use smithsnmp.Snmp.Access.{Outcome, returned, over_views, get_round, Sender, is_v3}

-- The views that a sender has a right to, by the user of a version 3 message and the community of
-- another.
unfoldable pub rights : List MibCommunity → Sender → ViewLists
unfolding is_v3 mib_community_search
rights cs sdg =
    if is_v3 sdg
    then elim sdg.user [ none ↦ no_views | some u ↦ u.views ]
    else elim (mib_community_search cs sdg.context_name) [ none ↦ no_views | some c ↦ c.views ]

module _ {ℓ} {S : Type ℓ}
    (round : MibView → (OidSearchRes → S → Outcome S) → OidSearchRes → S → Outcome S)
    (oid : List ℕ) where
  -- What is done at the views, in order.
  unfoldable pub each_view : List MibView → OidSearchRes → S → Outcome S
  each_view [] res st = returned (record res { oid = oid }) st
  each_view (v ∷ vs) res st = round v (each_view vs) res st

  over_end :
      (k : ℕ) (next : Option MibView → Option MibView) (view : Option MibView)
      → next view ≡ none
      → over_views round oid (suc k) next view ≡ each_view []
  unfolding over_views each_view
  over_end k next view e = fun_ext (λ res. fun_ext (λ st. ground (arith, e)))

  -- One round, when the rest of the search is known.
  over_step :
      (k : ℕ) (next : Option MibView → Option MibView) (view : Option MibView) (v : MibView)
      (vs : List MibView)
      → next view ≡ some v
      → over_views round oid k next (some v) ≡ each_view vs
      → over_views round oid (suc k) next view ≡ each_view (v ∷ vs)
  unfolding over_views each_view
  over_step k next view v vs e h = fun_ext (λ res.
      fun_ext
        (λ st. ground (arith, e) ∙ ap (λ (f : OidSearchRes → S → Outcome S). round v f res st) h))

  over_behind :
      (k : ℕ) (front : List MibView) (v : MibView) (back : List MibView)
      → IsDistinct (front ++ (v ∷ back))
      → length back < k
      → over_views round oid k (next_view (front ++ (v ∷ back))) (some v) ≡ each_view back
  over_behind zero front v back d h = absurd (omega arith)
  over_behind (suc k) front v [] d h =
      over_end k (next_view (front ++ (v ∷ []))) (some v)
        (next_view_behind front v [] d ∙ unfold next_view in refl)
  over_behind (suc k) front v (u ∷ back) d h =
      over_step k (next_view (front ++ (v ∷ u ∷ back))) (some v) u back
        (next_view_behind front v (u ∷ back) d ∙ unfold next_view in refl)
        (ap (λ (t : List MibView). over_views round oid k (next_view t) (some u))
            (sym (append_assoc front (v ∷ []) (u ∷ back)))
          ∙ over_behind k (front ++ (v ∷ [])) u back (rw (append_assoc front (v ∷ []) (u ∷ back)) d)
              (omega arith))

  pub over_all :
      (k : ℕ) (views : List MibView)
      → IsDistinct views
      → length views < k
      → over_views round oid k (next_view views) none ≡ each_view views
  over_all zero views d h = absurd (omega arith)
  over_all (suc k) [] d h = over_end k (next_view []) none (unfold next_view in refl)
  over_all (suc k) (v ∷ views) d h =
      over_step k (next_view (v ∷ views)) none v views (unfold next_view in refl)
        (over_behind k [] v views d (omega arith))

module _ (lua : Lua) (root : MibNode) (oid : List ℕ) where
  -- The search of `mib_get` and `mib_set` through views.
  unfoldable pub search_views : List MibView → OidSearchRes → lua.State → Outcome lua.State
  unfolding get_round each_view
  search_views = each_view (get_round lua root oid) oid

  -- The error status before the first view has no effect.
  pub search_views_reset :
      (v : MibView) (vs : List MibView) (e : ℕ) (res : OidSearchRes) (st : lua.State)
      → search_views (v ∷ vs) (record res { err_stat = e }) st ≡ search_views (v ∷ vs) res st
  unfolding search_views mib_tree_search
  search_views_reset v vs e res st = refl
