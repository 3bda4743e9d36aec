-- ===== src/Mib/Next/First.antt =====
-- In the immediate mode the loop of `mib_tree_search_next` (core/mib_tree.c) tries all instances below
-- a node, and then goes on with the backlog.
use smithsnmp.Base.{
  ℕ, zero, suc, ◌+◌, ◌≤◌, ◌≡◌, refl, fun_ext, ap, arith, Bool, true, Option, none, some, List, [],
  ◌∷◌, length, get_or, drop,
}
use smithsnmp.Mib.Tree.{MibNode, group_node, instance_node, SubNodes, nil, cons, sub_ids, sub_ptr}
use smithsnmp.Mib.View.{MibView}
use smithsnmp.Mib.Instance.{OidSearchRes, Outcome, Lua, mib_instance_search}
use smithsnmp.Mib.Next.{NodeBacklog, Cursor, backlog, enter, taken, backtrack, first_idx, next_loop}
use smithsnmp.Mib.Next.Candidates.{all_of, all_subs, rounds, sub_rounds, try_all, try_all-append}
use smithsnmp.Mib.Next.Suffix.{
  drop_subs, IsAt, drop_subs-IsAt, drop_subs-zero, backlog-last, backlog-more,
}

abbrev pub cursor : Option MibNode → Option ℕ → List NodeBacklog → Bool → List ℕ → List ℕ → Cursor
cursor node p_nbl stack immediate path id = record {
  node = node;
  p_nbl = p_nbl;
  stack = stack;
  immediate = immediate;
  path = path;
  id = id;
}

module _ (lua : Lua) (view : MibView) (orig_oid : List ℕ) where
  abbrev pub Rest : Type 0
  Rest = OidSearchRes → lua.State → Outcome lua.State

  -- From here on the backlog does `rest`, given some number of rounds.
  abbrev pub Resumes : List NodeBacklog → List ℕ → Rest → ℕ → Type 0
  Resumes stack path rest need =
      (j : ℕ)
      → need ≤ j
      → (node : Option MibNode) (p_nbl : Option ℕ) (immediate : Bool) (id : List ℕ)
      → backtrack orig_oid (next_loop lua view orig_oid j)
          (cursor node p_nbl stack immediate path id)
        ≡ rest

  -- With that many rounds the loop does `result` at the cursor.
  abbrev pub Does : ℕ → Cursor → Rest → Type 0
  Does need c result = (k : ℕ) → need ≤ k → next_loop lua view orig_oid k c ≡ result

  -- No node: back to the backlog.
  pub none-Does :
      (stack : List NodeBacklog) (path id : List ℕ) (p_nbl : Option ℕ) (immediate : Bool)
      (rest : Rest) (need : ℕ)
      → Resumes stack path rest need
      → Does (suc need) (cursor none p_nbl stack immediate path id) rest
  unfolding next_loop
  none-Does stack path id p_nbl immediate rest need r zero h = absurd (omega arith)
  none-Does stack path id p_nbl immediate rest need r (suc k) h =
      r k (omega arith) none p_nbl immediate id

  -- The top of the stack is what the loop does next.
  pub push-Resumes :
      (top : Option MibNode) (n_idx : ℕ) (stack : List NodeBacklog) (x : ℕ) (path : List ℕ)
      (rest : Rest) (need : ℕ)
      → ((id : List ℕ) → Does need (cursor top (some n_idx) stack true path id) rest)
      → Resumes (record { node = top; n_idx = n_idx } ∷ stack) (x ∷ path) rest need
  unfolding backtrack
  push-Resumes top n_idx stack x path rest need d j h n p_nbl immediate id = d id j h

  instance-Does :
      (c : ℕ) (stack : List NodeBacklog) (path id : List ℕ) (rest : Rest) (need : ℕ)
      → Resumes stack path rest need
      → Does
          (suc need)
          (cursor (some (instance_node c)) none stack true path id)
          (try_all lua view (all_of (instance_node c) path) rest)
  unfolding next_loop all_of try_all
  instance-Does c stack path id rest need r zero h = absurd (omega arith)
  instance-Does c stack path id rest need r (suc k) h = fun_ext (λ res. fun_ext (λ st.
      ap (taken view path (mib_instance_search lua st (record res { inst_id = []; callback = c })))
        (r k (omega arith) (some (instance_node c)) none true id)))

  -- A sub-node is entered.
  fetch-Does :
      (room : ℕ) (subs : SubNodes) (p_nbl : Option ℕ) (stack : List NodeBacklog) (path id : List ℕ)
      (result : Rest) (need : ℕ)
      → ((id' : List ℕ)
          → Does need
              (cursor
                (sub_ptr subs (first_idx p_nbl))
                none
                (backlog (group_node room subs) (first_idx p_nbl) (length (sub_ids subs)) ∷ stack)
                true
                (get_or (sub_ids subs) (first_idx p_nbl) 0 ∷ path)
                id')
              result)
      → Does (suc need) (cursor (some (group_node room subs)) p_nbl stack true path id) result
  unfolding next_loop enter
  fetch-Does room subs p_nbl stack path id result need d zero h = absurd (omega arith)
  fetch-Does room subs p_nbl stack path id result need d (suc k) h = d (drop 1 id) k (omega arith)

  -- With fewer rounds needed, or more given.
  pub weaken-Does :
      (m n : ℕ) (c : Cursor) (result : Rest) → m ≤ n → Does m c result → Does n c result
  weaken-Does m n c result h d k l = d k (omega arith)

  -- The backlog of a group behind its sub-node `i`.
  behind-Resumes :
      (room : ℕ) (subs : SubNodes) (i x : ℕ) (n : MibNode) (rest : SubNodes)
      (stack : List NodeBacklog) (path : List ℕ) (after : Rest) (need : ℕ)
      → IsAt subs i x n rest
      → Resumes stack path after need
      → ((y : ℕ) (m : MibNode) (more : SubNodes)
          → rest ≡ cons y m more
          → (id : List ℕ)
          → Does
              (sub_rounds rest + need)
              (cursor (some (group_node room subs)) (some (suc i)) stack true path id)
              (try_all lua view (all_subs rest path) after))
      → Resumes
          (backlog (group_node room subs) i (length (sub_ids subs)) ∷ stack)
          (x ∷ path)
          (try_all lua view (all_subs rest path) after)
          (sub_rounds rest + need)
  unfolding sub_rounds all_subs try_all
  behind-Resumes room subs i x n nil stack path after need a r d =
      rw (backlog-last (group_node room subs) subs i x n a) (
        push-Resumes none 0 stack x path after (3 + need) (λ id.
          weaken-Does (suc need) (3 + need) _ after (omega arith)
            (none-Does stack path id (some 0) true after need r)))
  behind-Resumes room subs i x n (cons y m more) stack path after need a r d =
      rw (backlog-more (group_node room subs) subs i x n y m more a)
        (push-Resumes (some (group_node room subs)) (suc i) stack x path _ _ (d y m more refl))

  empty-Does :
      (room : ℕ) (stack : List NodeBacklog) (path : List ℕ) (rest : Rest) (need : ℕ)
      → Resumes stack path rest need
      → (id : List ℕ)
      → Does (3 + need) (cursor (some (group_node room nil)) none stack true path id) rest
  unfolding backlog sub_ids sub_ptr
  empty-Does room stack path rest need r id =
      weaken-Does (suc (suc (suc need))) (3 + need) _ rest (omega arith) (
        fetch-Does room nil none stack path id rest (suc (suc need)) (λ id'.
          none-Does (record { node = none; n_idx = 0 } ∷ stack) (0 ∷ path) id' none true rest
            (suc need)
            (push-Resumes none 0 stack 0 path rest (suc need)
              (λ id''. none-Does stack path id'' (some 0) true rest need r))))

  mutual
    unfolding all_of all_subs rounds sub_rounds try_all

    pub node-Does :
        (n : MibNode) (stack : List NodeBacklog) (path : List ℕ) (rest : Rest) (need : ℕ)
        → Resumes stack path rest need
        → (id : List ℕ)
        → Does
            (rounds n + need)
            (cursor (some n) none stack true path id)
            (try_all lua view (all_of n path) rest)
    node-Does (instance_node c) stack path rest need r id =
        weaken-Does (suc need) (1 + need) _ _ (omega arith)
          (instance-Does c stack path id rest need r)
    node-Does (group_node room nil) stack path rest need r id =
        empty-Does room stack path rest need r id
    node-Does (group_node room (cons x n subs)) stack path rest need r id =
        subs-Does (cons x n subs) room (cons x n subs) none x n subs stack path rest need refl
          (drop_subs-zero (cons x n subs)) r id

    pub subs-Does :
        (suffix : SubNodes) (room : ℕ) (subs : SubNodes) (p_nbl : Option ℕ) (y : ℕ) (m : MibNode)
        (more : SubNodes) (stack : List NodeBacklog) (path : List ℕ) (rest : Rest) (need : ℕ)
        → suffix ≡ cons y m more
        → drop_subs (first_idx p_nbl) subs ≡ suffix
        → Resumes stack path rest need
        → (id : List ℕ)
        → Does
            (sub_rounds suffix + need)
            (cursor (some (group_node room subs)) p_nbl stack true path id)
            (try_all lua view (all_subs suffix path) rest)
    subs-Does nil room subs p_nbl y m more stack path rest need s e r id = absurd (cc)
    subs-Does (cons x n suffix) room subs p_nbl y m more stack path rest need s e r id =
        let i = first_idx p_nbl in
        let a = drop_subs-IsAt subs i x n suffix e in
        let need' = rounds n + (sub_rounds suffix + need) in
        weaken-Does (suc need') (1 + rounds n + sub_rounds suffix + need) _ _ (omega arith) (
          fetch-Does room subs p_nbl stack path id _ need' (λ id'.
            rw
              (
                a.id,
                a.ptr,
                try_all-append lua view (all_of n (x ∷ path)) (all_subs suffix path) rest,
              )
              (node-Does n (backlog (group_node room subs) i (length (sub_ids subs)) ∷ stack)
                (x ∷ path) (try_all lua view (all_subs suffix path) rest) (sub_rounds suffix + need)
                (behind-Resumes room subs i x n suffix stack path rest need a r
                  (λ z l others q id''.
                    subs-Does suffix room subs (some (suc i)) z l others stack path rest need q
                      a.behind r id''))
                id')))

  -- The sub-node at an index was entered.
  pub pushed-Resumes :
      (room : ℕ) (subs : SubNodes) (i x : ℕ) (n : MibNode) (suffix : SubNodes)
      (stack : List NodeBacklog) (path : List ℕ) (rest : Rest) (need : ℕ)
      → IsAt subs i x n suffix
      → Resumes stack path rest need
      → Resumes
          (backlog (group_node room subs) i (length (sub_ids subs)) ∷ stack)
          (x ∷ path)
          (try_all lua view (all_subs suffix path) rest)
          (sub_rounds suffix + need)
  pushed-Resumes room subs i x n suffix stack path rest need a r =
      behind-Resumes room subs i x n suffix stack path rest need a r (λ y m more q id.
        subs-Does suffix room subs (some (suc i)) y m more stack path rest need q a.behind r id)
