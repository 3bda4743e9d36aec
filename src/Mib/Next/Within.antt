-- ===== src/Mib/Next/Within.antt =====
-- `mib_tree_search_next` of core/mib_tree.c as a search through the candidates: for an identifier in
-- the view, ahead of it, and behind it.
use smithsnmp.Base.{
  ℕ, ◌-◌, ◌*◌, ◌≤◌, ◌≡◌, ◌≢◌, refl, ap, ◌∙◌, arith, Bool, true, false, none, some, List, [], ◌∷◌,
  ◌++◌, append-nil, length-append, reverse, length, leb, take, drop, take-length-append,
  drop-length-append, is_negative,
}
use smithsnmp.Oid.{Cover, oid_cmp, oid_cover, covers, covered, apart}
use smithsnmp.Oid.Prefix.{IsPrefix, IsPrefix-refl, IsOidArray, oid_cover-covers}
use smithsnmp.Mib.Tree.{MibNode, group_node, instance_node}
use smithsnmp.Mib.Tree.Insert.{IsWellFormed}
use smithsnmp.Mib.Tree.Lookup.{node_at}
use smithsnmp.Mib.View.{MibView}
use smithsnmp.Mib.Instance.{OidSearchRes, returned, Lua, snmp_req_get}
use smithsnmp.Mib.Search.{answer, search_end, mib_tree_search}
use smithsnmp.Mib.Search.Handlers.{search_covered}
use smithsnmp.Mib.Next.{
  backtrack, end_of_mib_view, is_group, next_loop, next_from, mib_tree_search_next,
}
use smithsnmp.Mib.Next.Candidates.{all_of, not_before, rounds, try_all}
use smithsnmp.Mib.Next.First.{cursor, Rest, Resumes, node-Does}
use smithsnmp.Mib.Next.Match.{match-Does, match_instance}
use smithsnmp.Mib.Next.Locate.{mode-cons}
use smithsnmp.Mib.Next.Start.{
  end_tag, tree_end-node_at, walk-node_at, ready, not_before-nil, take_all, drop_all, leb_refl,
  leb_longer,
}

module _ (lua : Lua) (view : MibView) (orig_oid : List ℕ) where
  -- The end of the traversal.
  abbrev pub ends : Rest lua view orig_oid
  ends res st = returned (end_of_mib_view orig_oid res) st

  pub ends-Resumes : (path : List ℕ) (need : ℕ) → Resumes lua view orig_oid [] path ends need
  unfolding backtrack
  ends-Resumes path need j h at p_nbl immediate id = refl

  -- The loop tries all instances below a node, in either mode at its very identifier.
  all-Does :
      (n : MibNode) (k : ℕ) (path : List ℕ) (immediate : Bool)
      → immediate ≡ is_group (some n)
      → 2 * rounds n ≤ k
      → next_loop lua view orig_oid k (cursor (some n) none [] immediate path [])
        ≡ try_all lua view (all_of n path) ends
  unfolding rounds all_of not_before
  all-Does (instance_node c) k path immediate m h =
      rw m
        (match_instance lua view orig_oid c [] path [] ends 0 (ends-Resumes path 0) k (omega arith))
  all-Does (group_node room subs) k path immediate m h = rw m (
      node-Does lua view orig_oid (group_node room subs) [] path ends 0 (ends-Resumes path 0) [] k
        (omega arith))

  module _ (root n : MibNode) (w : IsWellFormed root) (e : node_at root view.oid ≡ some n)
      (wv : IsOidArray view.oid) (k : ℕ) (ret_oid : OidSearchRes) (st : lua.State) where
    self_cover : oid_cover view.oid view.oid ≡ covers
    self_cover = (oid_cover-covers view.oid view.oid wv wv).1 (IsPrefix-refl view.oid)

    reply :
        mib_tree_search lua root st view view.oid (record ret_oid { request = snmp_req_get }) ≡ (
          some (
              answer
                (record ret_oid { request = snmp_req_get; oid = view.oid; err_stat = 0 })
                []
                (end_tag n)),
          st,
        )
    reply =
        search_covered lua st root view view.oid (record ret_oid { request = snmp_req_get })
          self_cover
        ∙ walk-node_at lua st
            (record ret_oid { request = snmp_req_get; oid = view.oid; err_stat = 0 }) root view.oid
            n w e

    end_node : search_end root view view.oid ≡ some n
    unfolding search_end
    end_node = rw (search_end, self_cover) (tree_end-node_at root view.oid n w e).0

    -- The loop starts at the node of the view.
    from_node :
        (m : ℕ → MibNode → Bool) (oid : List ℕ)
        → next_from lua view orig_oid k
            (search_end root view view.oid)
            m
            oid
            (mib_tree_search lua root st view view.oid (record ret_oid { request = snmp_req_get }))
          ≡ next_loop lua view orig_oid k
              (cursor
                (some n)
                none
                []
                (m (length view.oid) n)
                (reverse (take (length view.oid) oid))
                (drop (length view.oid) oid))
              (ready ret_oid oid n)
              st
    unfolding next_from
    from_node m oid =
        let z : length view.oid - 0 ≡ length view.oid = omega arith in rw (end_node, reply, z) refl

    at_start :
        (rest : List ℕ)
        → 2 * rounds n ≤ k
        → next_loop lua view orig_oid k (
            cursor
              (some n)
              none
              []
              (leb (length (view.oid ++ rest)) (length view.oid))
              (reverse view.oid)
              rest)
          ≡ try_all lua view (not_before n (reverse view.oid) rest) ends
    at_start [] h =
        rw (append-nil view.oid, leb_refl (length view.oid), not_before-nil n (reverse view.oid))
          (node-Does lua view orig_oid n [] (reverse view.oid) ends 0
            (ends-Resumes (reverse view.oid) 0) [] k (omega arith))
    at_start (x ∷ rest) h =
        let l : leb (length (view.oid ++ (x ∷ rest))) (length view.oid) ≡ false =
          leb_longer (length view.oid) (length (view.oid ++ (x ∷ rest)))
            (omega (arith, length-append view.oid (x ∷ rest))) in
        rw l (
          rw (mode-cons n x rest) at (
            match-Does lua view orig_oid (x ∷ rest) n (tree_end-node_at root view.oid n w e).1 []
              (reverse view.oid) ends 0 (ends-Resumes (reverse view.oid) 0) k (omega arith)))

    -- The identifier is in the view.
    next_within :
        (rest : List ℕ)
        → orig_oid ≡ view.oid ++ rest
        → oid_cover view.oid orig_oid ≡ covers
        → 2 * rounds n ≤ k
        → mib_tree_search_next lua view orig_oid k root ret_oid st
          ≡ try_all lua view
              (not_before n (reverse view.oid) rest)
              ends
              (ready ret_oid orig_oid n)
              st
    unfolding mib_tree_search_next
    next_within rest q c h =
        ground (arith, c)
        ∙ from_node (λ reached n'. leb (length orig_oid) reached) orig_oid
        ∙ rw
            (
              ap (take (length view.oid)) q ∙ take-length-append view.oid rest,
              ap (drop (length view.oid)) q ∙ drop-length-append view.oid rest,
              ap length q,
            )
            (ap (λ (f : Rest lua view orig_oid). f (ready ret_oid orig_oid n) st) (at_start rest h))

    -- The identifier is ahead of the view.
    next_ahead :
        oid_cover view.oid orig_oid ≢ covers
        → is_negative (oid_cmp orig_oid view.oid) ≡ true
        → 2 * rounds n ≤ k
        → mib_tree_search_next lua view orig_oid k root ret_oid st
          ≡ try_all lua view (all_of n (reverse view.oid)) ends (ready ret_oid view.oid n) st
    unfolding mib_tree_search_next
    next_ahead c q h =
        opened_ahead (oid_cover view.oid orig_oid) refl c q
        ∙ from_node (λ reached n'. is_group (some n')) view.oid
        ∙ rw (take_all view.oid, drop_all view.oid)
            (ap (λ (f : Rest lua view orig_oid). f (ready ret_oid view.oid n) st)
              (all-Does n k (reverse view.oid) (is_group (some n)) refl h))
      where
        opened_ahead :
            (v : Cover)
            → oid_cover view.oid orig_oid ≡ v
            → oid_cover view.oid orig_oid ≢ covers
            → is_negative (oid_cmp orig_oid view.oid) ≡ true
            → mib_tree_search_next lua view orig_oid k root ret_oid st
              ≡ next_from lua view orig_oid k
                  (search_end root view view.oid)
                  (λ reached n'. is_group (some n'))
                  view.oid
                  (mib_tree_search lua root st view view.oid
                    (record ret_oid { request = snmp_req_get }))
        opened_ahead covers e c q = absurd (c e)
        opened_ahead covered e c q = rw (mib_tree_search_next, e, q) refl
        opened_ahead apart e c q = rw (mib_tree_search_next, e, q) refl

pub IsPrefix-append : (a b : List ℕ) → IsPrefix a (a ++ b)
IsPrefix-append [] b = tt
IsPrefix-append (x ∷ a) b = (refl, IsPrefix-append a b)

module _ (lua : Lua) (view : MibView) (root n : MibNode) (w : IsWellFormed root)
    (e : node_at root view.oid ≡ some n) (wv : IsOidArray view.oid) (k : ℕ) (ret_oid : OidSearchRes)
    (st : lua.State) (h : 2 * rounds n ≤ k) where
  -- On a tree whose groups ascend, with twice the rounds of the node of the view,
  -- `mib_tree_search_next` at an identifier in the view is a search from the front: the instances
  -- at or behind the identifier in the order of the tree are tried until one gives a value inside
  -- the view, and else the end of the view is answered.
  pub mib_tree_search_next_within :
      (rest : List ℕ)
      → IsOidArray (view.oid ++ rest)
      → mib_tree_search_next lua view (view.oid ++ rest) k root ret_oid st
        ≡ try_all lua view
            (not_before n (reverse view.oid) rest)
            (ends lua view (view.oid ++ rest))
            (ready ret_oid (view.oid ++ rest) n)
            st
  mib_tree_search_next_within rest wo =
      next_within lua view (view.oid ++ rest) root n w e wv k ret_oid st rest refl
        ((oid_cover-covers view.oid (view.oid ++ rest) wv wo).1 (IsPrefix-append view.oid rest)) h

  -- On a tree whose groups ascend, with twice the rounds of the node of the view,
  -- `mib_tree_search_next` at an identifier that is not in the view and that `oid_cmp` takes to be
  -- ahead of it is a search from the front through all instances of the view.
  pub mib_tree_search_next_ahead :
      (orig_oid : List ℕ)
      → oid_cover view.oid orig_oid ≢ covers
      → is_negative (oid_cmp orig_oid view.oid) ≡ true
      → mib_tree_search_next lua view orig_oid k root ret_oid st
        ≡ try_all lua view
            (all_of n (reverse view.oid))
            (ends lua view orig_oid)
            (ready ret_oid view.oid n)
            st
  mib_tree_search_next_ahead orig_oid c q =
      next_ahead lua view orig_oid root n w e wv k ret_oid st c q h
