-- ===== src/Mib/Next.antt =====
-- `mib_tree_search_next` of core/mib_tree.c: the loop that finds the instance behind an identifier,
-- with its stack of backlogged nodes.
pub mod Candidates
pub mod Suffix
pub mod First
pub mod Locate
pub mod Match
pub mod Start
pub mod Within
pub mod Part
pub mod Ends
use smithsnmp.Base.{
  ℕ, zero, suc, ◌+◌, ◌-◌, Bool, true, false, not, ◌&&◌, ◌||◌, Option, none, some, List, [], ◌∷◌,
  ◌++◌, reverse, leb, ltb, ◌==◌, if◌then◌else◌, length, get_or, take, drop, is_negative,
}
use smithsnmp.Asn1.{asn1_tag_valid, asn1_tag_end_of_mib_view, asn1_oid_max_len}
use smithsnmp.Oid.{
  Position, found, missing, oid_binary_search, oid_cmp, oid_cover, covers, covered, apart,
}
use smithsnmp.Mib.Tree.{MibNode, group_node, instance_node, sub_ids, sub_ptr}
use smithsnmp.Mib.View.{MibView}
use smithsnmp.Mib.Instance.{
  Variable, OidSearchRes, Outcome, returned, aborted, running, Lua, snmp_req_get, snmp_req_getnext,
  mib_instance_search,
}
use smithsnmp.Mib.Search.{search_end, mib_tree_search}

-- `node_backlog`
pub record NodeBacklog : Type 0 where
  pub node : Option MibNode
  pub n_idx : ℕ

-- What is pushed when the sub-node `i` of a group of `cnt` is entered.
unfoldable pub backlog : MibNode → ℕ → ℕ → NodeBacklog
backlog node i cnt =
    if leb cnt (i + 1)
    then record { node = none; n_idx = 0 }
    else record { node = some node; n_idx = suc i }

abbrev pub is_group : Option MibNode → Bool
is_group (some (group_node room subs)) = true
is_group (some (instance_node c)) = false
is_group none = false

-- The variables of the loop. `path` is the numbers before the pointer `oid`, the last one first, and
-- `id` the `id_len` numbers from the pointer on, which are read while `immediate` is 0.
pub record Cursor : Type 0 where
  pub node : Option MibNode
  pub p_nbl : Option ℕ
  pub stack : List NodeBacklog
  pub immediate : Bool
  pub path : List ℕ
  pub id : List ℕ

-- The result at the end of the traversal.
abbrev pub end_of_mib_view : List ℕ → OidSearchRes → OidSearchRes
end_of_mib_view orig_oid res = record res {
  oid = orig_oid;
  inst_id = [];
  err_stat = 0;
  var = record (res.var) { tag = asn1_tag_end_of_mib_view };
}

-- A node is entered: `*oid++ = gn->sub_id[i]; node = gn->sub_ptr[i];`, with the backlog pushed.
unfoldable pub enter : MibNode → List ℕ → Option MibNode → ℕ → Cursor → Cursor
unfolding backlog
enter gn ids sub i c = record c {
  node = sub;
  stack = backlog gn i (length ids) ∷ c.stack;
  path = get_or ids i 0 ∷ c.path;
  id = drop 1 c.id;
}

-- What follows the call of a handler: an instance of the view is returned, and another is not.
unfoldable pub taken {ℓ} :
    {S : Type ℓ}
    → MibView
    → List ℕ
    → Option OidSearchRes × S
    → (OidSearchRes → S → Outcome S)
    → Outcome S
unfolding oid_cover
taken view path (none, st) rest = aborted
taken view path (some res, st) rest =
    let oid = reverse path ++ res.inst_id in
    if asn1_tag_valid res.var.tag
    then (if ltb asn1_oid_max_len (length oid) then aborted else elim (oid_cover view.oid oid) [
      | apart ↦ rest res st
      | _ ↦ returned (record res { oid = oid }) st
    ])
    else rest res st

-- The traversal goes on with the node on top of the stack, or ends.
unfoldable pub backtrack {ℓ} :
    {S : Type ℓ}
    → List ℕ
    → (Cursor → OidSearchRes → S → Outcome S)
    → Cursor
    → OidSearchRes
    → S
    → Outcome S
backtrack orig_oid next c res st = elim c.stack [
  | [] ↦ returned (end_of_mib_view orig_oid res) st
  | b ∷ s ↦
      next
        (record c {
          node = b.node;
          p_nbl = some b.n_idx;
          stack = s;
          immediate = true;
          path = drop 1 c.path;
        })
        res st
]

-- `p_nbl != NULL ? p_nbl->n_idx : 0`
abbrev pub first_idx : Option ℕ → ℕ
first_idx (some i) = i
first_idx none = 0

-- The match is over at the end of the identifier.
abbrev pub matched : Cursor → Cursor
matched c = record c { immediate = c.immediate || (length c.id == 0 && is_group c.node) }

-- What is done at a group of `cnt` sub-nodes while the identifier is matched: the number is there, all
-- numbers are smaller, all are larger, or the place is between two of them.
unfoldable pub follow {ℓ} : {R : Type ℓ} → ℕ → Position → (ℕ → R) → R → R → (ℕ → R) → R
follow cnt (found i) hit over again between = hit i
follow cnt (missing i) hit over again between =
    if i == cnt then over else if i == 0 then again else between i

module _ (lua : Lua) (view : MibView) (orig_oid : List ℕ) where
  -- The loop, for a number of rounds.
  unfoldable pub next_loop : ℕ → Cursor → OidSearchRes → lua.State → Outcome lua.State
  unfolding enter taken backtrack follow sub_ids sub_ptr oid_binary_search mib_instance_search
  next_loop zero c res st = running
  next_loop (suc k) c res st =
      let next = next_loop k in
      elim c.node [
        | none ↦ backtrack orig_oid next c res st
        | some (instance_node callback) ↦
            let inst_id = if c.immediate then [] else c.id in
            taken view c.path
              (mib_instance_search lua st (record res { inst_id = inst_id; callback = callback }))
              (backtrack orig_oid next c)
        | some (group_node room subs) ↦
            let gn = group_node room subs in
            let first = first_idx c.p_nbl in
            let seek = λ (i : ℕ). enter gn (sub_ids subs) (sub_ptr subs i) i c in
            let fetch =
              next (record (enter gn (sub_ids subs) (sub_ptr subs first) first c) { p_nbl = none })
                res st in
            let search =
              follow (length (sub_ids subs)) (oid_binary_search (sub_ids subs) (get_or c.id 0 0))
                (λ i. next (matched (seek i)) res st)
                (backtrack orig_oid next (record c { immediate = true }) res st)
                (next (record c { immediate = true }) res st)
                (λ i. next (record (seek i) { immediate = true }) res st) in
            if c.immediate then fetch else search
      ]

  -- The loop from the node at which the search for the identifier of the view has ended; `oid` is
  -- what the result holds, read from the place that the search has reached.
  unfoldable pub next_from :
      ℕ
      → Option MibNode
      → (ℕ → MibNode → Bool)
      → List ℕ
      → Option OidSearchRes × lua.State
      → Outcome lua.State
  unfolding next_loop
  next_from k at mode oid (none, st) = aborted
  next_from k none mode oid (some res, st) = aborted
  next_from k (some node) mode oid (some res, st) =
      let reached = length view.oid - length res.inst_id in
      next_loop k
        (record {
          node = some node;
          p_nbl = none;
          stack = [];
          immediate = mode reached node;
          path = reverse (take reached oid);
          id = drop reached oid;
        })
        (record res { oid = oid; err_stat = 0; request = snmp_req_getnext }) st

  -- The identifier stands in the view, ahead of it, or behind it.
  unfoldable pub mib_tree_search_next : ℕ → MibNode → OidSearchRes → lua.State → Outcome lua.State
  unfolding oid_cover oid_cmp mib_tree_search search_end next_from next_loop
  mib_tree_search_next k root ret_oid st =
      let reply =
        mib_tree_search lua root st view view.oid (record ret_oid { request = snmp_req_get }) in
      let node = search_end root view view.oid in
      let within = next_from k node (λ reached n. leb (length orig_oid) reached) orig_oid reply in
      let ahead = next_from k node (λ reached n. is_group (some n)) view.oid reply in
      let nowhere : Cursor = record {
        node = none;
        p_nbl = none;
        stack = [];
        immediate = false;
        path = [];
        id = [];
      } in
      let behind = next_loop k nowhere (record ret_oid { oid = view.oid; err_stat = 0 }) st in
      elim (oid_cover view.oid orig_oid) [
        | covers ↦ within
        | _ ↦ if is_negative (oid_cmp orig_oid view.oid) then ahead else behind
      ]
