-- ===== src/Mib/Next/Match.antt =====
-- In the matching mode the loop of `mib_tree_search_next` (core/mib_tree.c) follows the identifier, and
-- tries the instances that are not before it.
use smithsnmp.Base.{
  ℕ, zero, suc, ◌+◌, ◌*◌, ◌≤◌, ◌<◌, ◌≡◌, refl, fun_ext, sym, ap, ◌∙◌, arith, true, false, none,
  some, List, [], ◌∷◌, length, get_or, ◌==◌, Bool-cases, inl, inr, ◌&&◌,
}
use smithsnmp.Oid.{Position, found, missing, oid_binary_search}
use smithsnmp.Oid.Search.{oid_binary_search-locate}
use smithsnmp.Mib.Tree.{MibNode, group_node, instance_node, SubNodes, cons, sub_ids, sub_ptr}
use smithsnmp.Mib.Tree.Insert.{IsWellFormed}
use smithsnmp.Mib.View.{MibView}
use smithsnmp.Mib.Instance.{Lua, mib_instance_search}
use smithsnmp.Mib.Next.{NodeBacklog, backlog, enter, taken, follow, is_group, next_loop}
use smithsnmp.Mib.Next.Candidates.{
  all_of, all_subs, not_before, subs_not_before, rounds, sub_rounds, try_all, try_all-append,
}
use smithsnmp.Mib.Next.Suffix.{
  drop_subs, drop_subs-IsAt, drop_subs-zero, drop_subs_all, drop_subs_some,
}
use smithsnmp.Mib.Next.First.{cursor, Rest, Resumes, Does, weaken-Does, node-Does, pushed-Resumes}
use smithsnmp.Mib.Next.Locate.{Located, locate-Located, mode, mode-cons, sub_rounds_pos}

module _ (lua : Lua) (view : MibView) (orig_oid : List ℕ) where
  pub match_instance :
      (c : ℕ) (stack : List NodeBacklog) (path id : List ℕ) (rest : Rest lua view orig_oid)
      (need : ℕ)
      → Resumes lua view orig_oid stack path rest need
      → Does lua view orig_oid
          (suc need)
          (cursor (some (instance_node c)) none stack false path id)
          (try_all lua view (not_before (instance_node c) path id) rest)
  unfolding next_loop not_before try_all
  match_instance c stack path id rest need r zero h = absurd (omega arith)
  match_instance c stack path id rest need r (suc k) h = fun_ext (λ res. fun_ext (λ st.
      ap (taken view path (mib_instance_search lua st (record res { inst_id = id; callback = c })))
        (r k (omega arith) (some (instance_node c)) none false id)))

  module _ (room : ℕ) (subs : SubNodes) (x : ℕ) (stack : List NodeBacklog) (path id : List ℕ)
      (rest : Rest lua view orig_oid) (need : ℕ)
      (r : Resumes lua view orig_oid stack path rest need) where
    -- The sub-node of the number is entered.
    match_found :
        (i : ℕ) (result : Rest lua view orig_oid) (need' : ℕ)
        → oid_binary_search (sub_ids subs) x ≡ found i
        → Does lua view orig_oid need'
            (cursor
              (sub_ptr subs i)
              none
              (backlog (group_node room subs) i (length (sub_ids subs)) ∷ stack)
              (length id == 0 && is_group (sub_ptr subs i))
              (get_or (sub_ids subs) i 0 ∷ path)
              id)
            result
        → Does lua view orig_oid
            (suc need')
            (cursor (some (group_node room subs)) none stack false path (x ∷ id))
            result
    unfolding next_loop enter follow
    match_found i result need' q d zero h = absurd (omega arith)
    match_found i result need' q d (suc k) h = fun_ext (λ res.
        fun_ext (λ st.
          rw (q, follow) (ap (λ (f : Rest lua view orig_oid). f res st) (d k (omega arith)))))

    -- No number is large enough.
    match_over :
        oid_binary_search (sub_ids subs) x ≡ missing (length (sub_ids subs))
        → Does lua view orig_oid
            (suc need)
            (cursor (some (group_node room subs)) none stack false path (x ∷ id))
            rest
    unfolding next_loop follow
    match_over q zero h = absurd (omega arith)
    match_over q (suc k) h = fun_ext (λ res. fun_ext (λ st.
        rw (q, follow)
          (ground (
            arith,
            ap (λ (f : Rest lua view orig_oid). f res st)
                (r k (omega arith) (some (group_node room subs)) none true (x ∷ id)),
          ))))

    -- All numbers are larger.
    match_first :
        (result : Rest lua view orig_oid) (need' : ℕ)
        → oid_binary_search (sub_ids subs) x ≡ missing 0
        → 0 < length (sub_ids subs)
        → Does lua view orig_oid need'
            (cursor (some (group_node room subs)) none stack true path (x ∷ id))
            result
        → Does lua view orig_oid
            (suc need')
            (cursor (some (group_node room subs)) none stack false path (x ∷ id))
            result
    unfolding next_loop follow
    match_first result need' q l d zero h = absurd (omega arith)
    match_first result need' q l d (suc k) h = fun_ext (λ res. fun_ext (λ st.
        rw (q, follow)
          (ground (arith, ap (λ (f : Rest lua view orig_oid). f res st) (d k (omega arith))))))

    -- The place is between two numbers.
    match_between :
        (i : ℕ) (result : Rest lua view orig_oid) (need' : ℕ)
        → oid_binary_search (sub_ids subs) x ≡ missing i
        → 0 < i
        → i < length (sub_ids subs)
        → Does lua view orig_oid need'
            (cursor
              (sub_ptr subs i)
              none
              (backlog (group_node room subs) i (length (sub_ids subs)) ∷ stack)
              true
              (get_or (sub_ids subs) i 0 ∷ path)
              id)
            result
        → Does lua view orig_oid
            (suc need')
            (cursor (some (group_node room subs)) none stack false path (x ∷ id))
            result
    unfolding next_loop enter follow
    match_between i result need' q p l d zero h = absurd (omega arith)
    match_between i result need' q p l d (suc k) h = fun_ext (λ res. fun_ext (λ st.
        rw (q, follow)
          (ground (arith, ap (λ (f : Rest lua view orig_oid). f res st) (d k (omega arith))))))

    -- The instances of the sub-nodes from an index on.
    from_index :
        (i y : ℕ) (n : MibNode) (suffix : SubNodes)
        → drop_subs i subs ≡ cons y n suffix
        → Does lua view orig_oid
            (rounds n + (sub_rounds suffix + need))
            (cursor
              (sub_ptr subs i)
              none
              (backlog (group_node room subs) i (length (sub_ids subs)) ∷ stack)
              true
              (get_or (sub_ids subs) i 0 ∷ path)
              id)
            (try_all lua view (all_subs (drop_subs i subs) path) rest)
    unfolding all_subs
    from_index i y n suffix e =
        let a = drop_subs-IsAt subs i y n suffix e in
        rw
          (
            e,
            a.id,
            a.ptr,
            try_all-append lua view (all_of n (y ∷ path)) (all_subs suffix path) rest,
          )
          (node-Does lua view orig_oid n
            (backlog (group_node room subs) i (length (sub_ids subs)) ∷ stack) (y ∷ path)
            (try_all lua view (all_subs suffix path) rest) (sub_rounds suffix + need)
            (pushed-Resumes lua view orig_oid room subs i y n suffix stack path rest need a r) id)

    between_rounds :
        (i y : ℕ) (n : MibNode) (suffix : SubNodes)
        → drop_subs i subs ≡ cons y n suffix
        → sub_rounds (drop_subs i subs) ≤ sub_rounds subs
        → suc (rounds n + (sub_rounds suffix + need)) ≤ 2 * sub_rounds subs + need
    unfolding sub_rounds
    between_rounds i y n suffix d few = let h = rw d at few in omega (arith, sub_rounds_pos subs)

    missing-Does :
        (i : ℕ)
        → oid_binary_search (sub_ids subs) x ≡ missing i
        → Located subs x (missing i)
        → Does lua view orig_oid
            (2 * sub_rounds subs + need)
            (cursor (some (group_node room subs)) none stack false path (x ∷ id))
            (try_all lua view (subs_not_before subs path x id) rest)
    unfolding all_of all_subs try_all rounds
    missing-Does zero q (l, few, e) = elim (Bool-cases (length (sub_ids subs) == 0)) [
      | inl z ↦
          let v : length (sub_ids subs) ≡ 0 = ground arith in
          rw (e path id, drop_subs_all subs 0 (omega arith))
            (weaken-Does lua view orig_oid (suc need) (2 * sub_rounds subs + need) _ rest
              (omega (arith, sub_rounds_pos subs)) (match_over (q ∙ ap missing (sym v))))
      | inr z ↦
          rw (e path id, drop_subs-zero subs)
            (weaken-Does lua view orig_oid (suc (sub_rounds subs + need))
              (2 * sub_rounds subs + need) _ _ (omega (arith, sub_rounds_pos subs))
              (match_first _ (sub_rounds subs + need) q (ground arith) (
                node-Does lua view orig_oid (group_node room subs) stack path rest need r
                  (x ∷ id))))
    ]
    missing-Does (suc i) q (l, few, e) = elim (Bool-cases (length (sub_ids subs) == suc i)) [
      | inl z ↦
          let v : length (sub_ids subs) ≡ suc i = ground arith in
          rw (e path id, drop_subs_all subs (suc i) (omega arith))
            (weaken-Does lua view orig_oid (suc need) (2 * sub_rounds subs + need) _ rest
              (omega (arith, sub_rounds_pos subs)) (match_over (q ∙ ap missing (sym v))))
      | inr z ↦
          let (y, n, suffix, d) = drop_subs_some subs (suc i) (ground arith) in
          rw (e path id) (
            weaken-Does lua view orig_oid (suc (rounds n + (sub_rounds suffix + need)))
              (2 * sub_rounds subs + need) _ _ (between_rounds (suc i) y n suffix d few)
              (match_between (suc i) _ (rounds n + (sub_rounds suffix + need)) q (omega arith)
                (ground arith) (from_index (suc i) y n suffix d)))
    ]

    found-Does :
        (i : ℕ)
        → oid_binary_search (sub_ids subs) x ≡ found i
        → Located subs x (found i)
        → ((n : MibNode)
            → IsWellFormed n
            → (stack' : List NodeBacklog) (path' : List ℕ) (rest' : Rest lua view orig_oid)
              (need' : ℕ)
            → Resumes lua view orig_oid stack' path' rest' need'
            → Does lua view orig_oid
                (2 * rounds n + need')
                (cursor (some n) none stack' (mode n id) path' id)
                (try_all lua view (not_before n path' id) rest'))
        → Does lua view orig_oid
            (2 * sub_rounds subs + need)
            (cursor (some (group_node room subs)) none stack false path (x ∷ id))
            (try_all lua view (subs_not_before subs path x id) rest)
    found-Does i q (n, suffix, d, fewer, w, e) ih =
        let a = drop_subs-IsAt subs i x n suffix d in
        let need' = 2 * rounds n + (sub_rounds suffix + need) in
        rw
          (
            e path id,
            try_all-append lua view (not_before n (x ∷ path) id) (all_subs suffix path) rest,
          )
          (weaken-Does lua view orig_oid (suc need') (2 * sub_rounds subs + need) _ _ (omega arith)
            (match_found i _ need' q (
              rw (a.id, a.ptr)
                (ih n w (backlog (group_node room subs) i (length (sub_ids subs)) ∷ stack)
                  (x ∷ path) (try_all lua view (all_subs suffix path) rest)
                  (sub_rounds suffix + need)
                  (pushed-Resumes lua view orig_oid room subs i x n suffix stack path rest need a
                    r)))))

  -- The whole search from a node.
  pub match-Does :
      (id : List ℕ) (n : MibNode)
      → IsWellFormed n
      → (stack : List NodeBacklog) (path : List ℕ) (rest : Rest lua view orig_oid) (need : ℕ)
      → Resumes lua view orig_oid stack path rest need
      → Does lua view orig_oid
          (2 * rounds n + need)
          (cursor (some n) none stack (mode n id) path id)
          (try_all lua view (not_before n path id) rest)
  unfolding not_before all_of rounds
  match-Does [] (instance_node c) w stack path rest need r =
      weaken-Does lua view orig_oid (suc need) (2 * 1 + need) _ _ (omega arith)
        (match_instance c stack path [] rest need r)
  match-Does (x ∷ id) (instance_node c) w stack path rest need r =
      rw (mode-cons (instance_node c) x id) (
        weaken-Does lua view orig_oid (suc need) (2 * 1 + need) _ _ (omega arith)
          (match_instance c stack path (x ∷ id) rest need r))
  match-Does [] (group_node room subs) w stack path rest need r =
      weaken-Does lua view orig_oid (sub_rounds subs + need) (2 * sub_rounds subs + need) _ _
        (omega arith) (node-Does lua view orig_oid (group_node room subs) stack path rest need r [])
  match-Does (x ∷ id) (group_node room subs) w stack path rest need r =
      rw (mode-cons (group_node room subs) x id) (
        at_position (oid_binary_search (sub_ids subs) x) refl
          (rw (oid_binary_search-locate (sub_ids subs) x w.0) (locate-Located subs x w.1))
          (match-Does id))
    where
      at_position :
          (p : Position)
          → oid_binary_search (sub_ids subs) x ≡ p
          → Located subs x (oid_binary_search (sub_ids subs) x)
          → ((n : MibNode)
              → IsWellFormed n
              → (stack' : List NodeBacklog) (path' : List ℕ) (rest' : Rest lua view orig_oid)
                (need' : ℕ)
              → Resumes lua view orig_oid stack' path' rest' need'
              → Does lua view orig_oid
                  (2 * rounds n + need')
                  (cursor (some n) none stack' (mode n id) path' id)
                  (try_all lua view (not_before n path' id) rest'))
          → Does lua view orig_oid
              (2 * sub_rounds subs + need)
              (cursor (some (group_node room subs)) none stack false path (x ∷ id))
              (try_all lua view (subs_not_before subs path x id) rest)
      at_position (found i) q l ih =
          found-Does room subs x stack path id rest need r i q (rw q at l) ih
      at_position (missing i) q l ih =
          missing-Does room subs x stack path id rest need r i q (rw q at l)
