-- ===== src/Mib/Next/Ends.antt =====
-- The loop of `mib_tree_search_next` (core/mib_tree.c) ends, wherever the view and the identifier are.
use smithsnmp.Base.{
  ℕ, ◌-◌, ◌*◌, ◌≤◌, ◌<◌, ◌≡◌, refl, arith, Bool, true, false, Option, none, some, List, [], ◌∷◌,
  reverse, length, leb, ◌==◌, take, drop, Bool-cases, inl, inr, ◌⊎◌, is_negative, length-drop,
}
use smithsnmp.Oid.{Cover, oid_cmp, oid_cover, covers, covered, apart}
use smithsnmp.Mib.Tree.{MibNode, group_node, instance_node}
use smithsnmp.Mib.Tree.Insert.{IsWellFormed}
use smithsnmp.Mib.View.{MibView}
use smithsnmp.Mib.Instance.{
  OidSearchRes, Outcome, Lua, snmp_req_get, snmp_req_getnext, mib_instance_search,
}
use smithsnmp.Mib.Search.{search_end, mib_tree_search}
use smithsnmp.Mib.Next.{is_group, next_loop, next_from, mib_tree_search_next}
use smithsnmp.Mib.Next.Candidates.{Candidate, all_of, not_before, rounds, try_all}
use smithsnmp.Mib.Next.First.{cursor, node-Does, none-Does}
use smithsnmp.Mib.Next.Match.{match-Does}
use smithsnmp.Mib.Next.Locate.{mode}
use smithsnmp.Mib.Next.Within.{ends, ends-Resumes}
use smithsnmp.Mib.Next.Part.{IsOver, taken-IsOver, tree_end_part}

module _ (lua : Lua) (view : MibView) where
  try_all-IsOver :
      (cs : List Candidate) (rest : OidSearchRes → lua.State → Outcome lua.State)
      (res : OidSearchRes) (st : lua.State)
      → ((r : OidSearchRes) (s : lua.State) → IsOver (rest r s))
      → IsOver (try_all lua view cs rest res st)
  unfolding try_all
  try_all-IsOver [] rest res st h = h res st
  try_all-IsOver (c ∷ cs) rest res st h =
      taken-IsOver view c.path
        (mib_instance_search lua st (record res { inst_id = c.inst_id; callback = c.callback }))
        (try_all lua view cs rest) (λ r s. try_all-IsOver cs rest r s h)

  module _ (orig_oid : List ℕ) (k : ℕ) where
    -- In the immediate mode, and in the other one with an identifier left or at an instance.
    immediate-IsOver :
        (n : MibNode) (path id : List ℕ) (res : OidSearchRes) (st : lua.State)
        → 2 * rounds n ≤ k
        → IsOver (next_loop lua view orig_oid k (cursor (some n) none [] true path id) res st)
    immediate-IsOver n path id res st h =
        rw
          (node-Does lua view orig_oid n [] path (ends lua view orig_oid) 0
            (ends-Resumes lua view orig_oid path 0) id k (omega arith))
          (try_all-IsOver (all_of n path) (ends lua view orig_oid) res st (λ r s. tt))

    mode-IsOver :
        (n : MibNode) (path id : List ℕ) (res : OidSearchRes) (st : lua.State)
        → IsWellFormed n
        → 2 * rounds n ≤ k
        → IsOver
            (next_loop lua view orig_oid k (cursor (some n) none [] (mode n id) path id) res st)
    mode-IsOver n path id res st w h =
        rw
          (match-Does lua view orig_oid id n w [] path (ends lua view orig_oid) 0
            (ends-Resumes lua view orig_oid path 0) k (omega arith))
          (try_all-IsOver (not_before n path id) (ends lua view orig_oid) res st (λ r s. tt))

    loop-IsOver :
        (n : MibNode) (immediate : Bool) (path id : List ℕ) (res : OidSearchRes) (st : lua.State)
        → IsWellFormed n
        → 2 * rounds n ≤ k
        → (immediate ≡ true) ⊎ (immediate ≡ mode n id)
        → IsOver (next_loop lua view orig_oid k (cursor (some n) none [] immediate path id) res st)
    loop-IsOver n immediate path id res st w h (inl e) = rw e (immediate-IsOver n path id res st h)
    loop-IsOver n immediate path id res st w h (inr e) = rw e (mode-IsOver n path id res st w h)

    module _ (root : MibNode) (w : IsWellFormed root) (h : 2 * rounds root < k) where
      from-IsOver :
          (n : Option MibNode) (m : ℕ → MibNode → Bool) (oid : List ℕ)
          (r : Option OidSearchRes × lua.State)
          → ((t : MibNode) → n ≡ some t → IsWellFormed t × (rounds t ≤ rounds root))
          → ((t : MibNode) (i : ℕ)
              → i ≤ length view.oid
              → (m i t ≡ true) ⊎ (m i t ≡ mode t (drop i oid)))
          → IsOver (next_from lua view orig_oid k n m oid r)
      unfolding next_from
      from-IsOver n m oid (none, st) part fits = tt
      from-IsOver none m oid (some res, st) part fits = tt
      from-IsOver (some t) m oid (some res, st) part fits =
          let (wt, l) = part t refl in
          let i = length view.oid - length res.inst_id in
          loop-IsOver t (m i t) (reverse (take i oid)) (drop i oid)
            (record res { oid = oid; err_stat = 0; request = snmp_req_getnext }) st wt (omega arith)
            (fits t i (omega arith))

      covered_mode :
          (t : MibNode) (i : ℕ)
          → i ≤ length view.oid
          → (leb (length orig_oid) i ≡ true) ⊎ (leb (length orig_oid) i ≡ mode t (drop i orig_oid))
      covered_mode t i l = elim (Bool-cases (leb (length orig_oid) i)) [
        | inl e ↦ inl e
        | inr e ↦
            let q : (length (drop i orig_oid) == 0) ≡ false =
              ground (arith, length-drop i orig_oid) in
            inr (rw (e, q) refl)
      ]

      ahead_mode :
          (t : MibNode) (i : ℕ)
          → i ≤ length view.oid
          → (is_group (some t) ≡ true) ⊎ (is_group (some t) ≡ mode t (drop i view.oid))
      ahead_mode (group_node room subs) i l = inl refl
      ahead_mode (instance_node c) i l = inr (elim (Bool-cases (length (drop i view.oid) == 0)) [
        | inl e ↦ rw e refl
        | inr e ↦ rw e refl
      ])

      part_of_root :
          (t : MibNode)
          → search_end root view view.oid ≡ some t
          → IsWellFormed t × (rounds t ≤ rounds root)
      unfolding search_end
      part_of_root t e = go (oid_cover view.oid view.oid) refl
        where
          go :
              (c : Cover)
              → oid_cover view.oid view.oid ≡ c
              → IsWellFormed t × (rounds t ≤ rounds root)
          go covers q = tree_end_part view.oid root t w (ground (arith, q, e))
          go covered q = absurd (ground (arith, q, e))
          go apart q = absurd (ground (arith, q, e))

      -- `mib_tree_search_next` on a tree whose groups ascend, with more than twice the rounds of
      -- the tree, ends or an assertion fails, wherever the view and the identifier are.
      pub mib_tree_search_next-IsOver :
          (ret_oid : OidSearchRes) (st : lua.State)
          → IsOver (mib_tree_search_next lua view orig_oid k root ret_oid st)
      unfolding mib_tree_search_next
      mib_tree_search_next-IsOver ret_oid st = go (oid_cover view.oid orig_oid) refl
        where
          reply : Option OidSearchRes × lua.State
          reply =
              mib_tree_search lua root st view view.oid (record ret_oid { request = snmp_req_get })

          nowhere :
              (res : OidSearchRes)
              → IsOver (next_loop lua view orig_oid k (cursor none none [] false [] []) res st)
          nowhere res =
              rw
                (none-Does lua view orig_oid [] [] [] none false (ends lua view orig_oid) 0
                  (ends-Resumes lua view orig_oid [] 0) k (omega arith))
                tt

          ahead_or :
              (oid_cover view.oid orig_oid ≡ covered) ⊎ (oid_cover view.oid orig_oid ≡ apart)
              → IsOver (mib_tree_search_next lua view orig_oid k root ret_oid st)
          ahead_or (inl q) = elim (Bool-cases (is_negative (oid_cmp orig_oid view.oid))) [
            | inl e ↦
                rw (mib_tree_search_next, q, e)
                  (from-IsOver (search_end root view view.oid) _ view.oid reply part_of_root
                    ahead_mode)
            | inr e ↦
                rw (mib_tree_search_next, q, e)
                  (nowhere (record ret_oid { oid = view.oid; err_stat = 0 }))
          ]
          ahead_or (inr q) = elim (Bool-cases (is_negative (oid_cmp orig_oid view.oid))) [
            | inl e ↦
                rw (mib_tree_search_next, q, e)
                  (from-IsOver (search_end root view view.oid) _ view.oid reply part_of_root
                    ahead_mode)
            | inr e ↦
                rw (mib_tree_search_next, q, e)
                  (nowhere (record ret_oid { oid = view.oid; err_stat = 0 }))
          ]

          go :
              (c : Cover)
              → oid_cover view.oid orig_oid ≡ c
              → IsOver (mib_tree_search_next lua view orig_oid k root ret_oid st)
          go covers q =
              rw (mib_tree_search_next, q)
                (from-IsOver (search_end root view view.oid)
                  (λ reached n. leb (length orig_oid) reached) orig_oid reply part_of_root
                  covered_mode)
          go covered q = ahead_or (inl q)
          go apart q = ahead_or (inr q)
