-- ===== src/Mib/View/Walk.antt =====
-- Walking through the views: `mib_community_next_view`, called again with its last result, meets
-- every view of the list once and in order.
use smithsnmp.Base.{
  ℕ, zero, suc, ◌<◌, ◌≡◌, ◌≢◌, refl, ap, sym, ◌∙◌, arith, Option, none, some, List, [], ◌∷◌, ◌++◌,
  append_assoc, length, All,
}
use smithsnmp.Mib.View.{MibView, next_view}

-- The views that the loop `view = next_view(view)` goes through.
pub walk : ℕ → List MibView → Option MibView → List MibView
walk zero views v = []
walk (suc k) views v = elim (next_view views v) [ none ↦ [] | some u ↦ u ∷ walk k views (some u) ]

-- No two views have the same address.
abbrev pub IsDistinct : List MibView → Type 0
IsDistinct [] = Unit
IsDistinct (v ∷ vs) = All (λ (u : MibView). u.addr ≢ v.addr) vs × IsDistinct vs

All-middle {κ} :
    (P : MibView → Type κ) (front : List MibView) (v : MibView) (back : List MibView)
    → All P (front ++ (v ∷ back))
    → P v
All-middle P [] v back h = h.0
All-middle P (w ∷ front) v back h = All-middle P front v back h.1

-- The view behind `v`.
pub next_view_behind :
    (front : List MibView) (v : MibView) (back : List MibView)
    → IsDistinct (front ++ (v ∷ back))
    → next_view (front ++ (v ∷ back)) (some v) ≡ next_view back none
unfolding next_view
next_view_behind [] v [] d = ground arith
next_view_behind [] v (u ∷ back) d = ground arith
next_view_behind (w ∷ front) v back d = ground (
  arith,
  All-middle (λ (u : MibView). u.addr ≢ w.addr) front v back d.0,
  next_view_behind front v back d.1,
)

walk_end :
    (k : ℕ) (views : List MibView) (v : MibView)
    → next_view views (some v) ≡ none
    → walk (suc k) views (some v) ≡ []
unfolding walk
walk_end k views v e = ground (arith, e)

walk_step :
    (k : ℕ) (views : List MibView) (v u : MibView)
    → next_view views (some v) ≡ some u
    → walk (suc k) views (some v) ≡ u ∷ walk k views (some u)
unfolding walk
walk_step k views v u e = ground (arith, e)

walk_behind :
    (k : ℕ) (front : List MibView) (v : MibView) (back : List MibView)
    → IsDistinct (front ++ (v ∷ back))
    → length back < k
    → walk k (front ++ (v ∷ back)) (some v) ≡ back
walk_behind zero front v back d h = absurd (omega arith)
walk_behind (suc k) front v [] d h =
    walk_end k (front ++ (v ∷ [])) v (next_view_behind front v [] d ∙ unfold next_view in refl)
walk_behind (suc k) front v (u ∷ back) d h =
    walk_step k (front ++ (v ∷ u ∷ back)) v u
      (next_view_behind front v (u ∷ back) d ∙ unfold next_view in refl)
    ∙ ap (λ (t : List MibView). u ∷ t)
        (ap (λ (t : List MibView). walk k t (some u)) (sym (append_assoc front (v ∷ []) (u ∷ back)))
          ∙ walk_behind k (front ++ (v ∷ [])) u back (rw (append_assoc front (v ∷ []) (u ∷ back)) d)
              (omega arith))

-- `mib_community_next_view,` called again with its last result, goes through all views of a list
-- once and in order, given more rounds than there are views and no two of one address.
pub walk_all :
    (k : ℕ) (views : List MibView) → IsDistinct views → length views < k → walk k views none ≡ views
unfolding walk next_view
walk_all zero views d h = absurd (omega arith)
walk_all (suc k) [] d h = refl
walk_all (suc k) (v ∷ views) d h =
    ap (λ (t : List MibView). v ∷ t) (walk_behind k [] v views d (omega arith))
