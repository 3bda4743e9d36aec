-- ===== src/Mib/Next/Candidates.antt =====
-- The instances that `mib_tree_search_next` (core/mib_tree.c) tries, in order: those of the tree that
-- are not before the identifier.
use smithsnmp.Base.{ℕ, ◌+◌, ◌≡◌, refl, fun_ext, ap, List, [], ◌∷◌, ◌++◌, ltb, ◌==◌, if◌then◌else◌}
use smithsnmp.Mib.Tree.{MibNode, group_node, instance_node, SubNodes, nil, cons}
use smithsnmp.Mib.View.{MibView}
use smithsnmp.Mib.Instance.{OidSearchRes, Outcome, Lua, mib_instance_search}
use smithsnmp.Mib.Next.{taken}

-- An instance to be tried: the numbers that lead to it, the last one first, its handler, and the
-- numbers that the handler is given.
pub record Candidate : Type 0 where
  pub path : List ℕ
  pub callback : ℕ
  pub inst_id : List ℕ

-- All instances below a node.
unfoldable mutual
  pub all_of : MibNode → List ℕ → List Candidate
  all_of (instance_node c) path = record { path = path; callback = c; inst_id = [] } ∷ []
  all_of (group_node room subs) path = all_subs subs path

  pub all_subs : SubNodes → List ℕ → List Candidate
  all_subs nil path = []
  all_subs (cons x n subs) path = all_of n (x ∷ path) ++ all_subs subs path

-- Those that are not before the identifier; an instance on the way to it is given the rest of it.
unfoldable mutual
  unfolding all_of all_subs

  pub not_before : MibNode → List ℕ → List ℕ → List Candidate
  not_before (instance_node c) path id = record { path = path; callback = c; inst_id = id } ∷ []
  not_before (group_node room subs) path [] = all_subs subs path
  not_before (group_node room subs) path (x ∷ id) = subs_not_before subs path x id

  pub subs_not_before : SubNodes → List ℕ → ℕ → List ℕ → List Candidate
  subs_not_before nil path x id = []
  subs_not_before (cons y n subs) path x id =
      if ltb y x
      then subs_not_before subs path x id
      else if y == x
      then not_before n (x ∷ path) id ++ all_subs subs path
      else all_of n (y ∷ path) ++ all_subs subs path

-- The rounds that the loop takes at most for all instances below a node.
unfoldable mutual
  pub rounds : MibNode → ℕ
  rounds (instance_node c) = 1
  rounds (group_node room subs) = sub_rounds subs

  pub sub_rounds : SubNodes → ℕ
  sub_rounds nil = 3
  sub_rounds (cons x n subs) = 1 + rounds n + sub_rounds subs

module _ (lua : Lua) (view : MibView) where
  -- One candidate after another, until one is taken.
  unfoldable pub try_all :
      List Candidate
      → (OidSearchRes → lua.State → Outcome lua.State)
      → OidSearchRes
      → lua.State
      → Outcome lua.State
  unfolding taken mib_instance_search
  try_all [] rest res st = rest res st
  try_all (c ∷ cs) rest res st =
      taken view c.path
        (mib_instance_search lua st (record res { inst_id = c.inst_id; callback = c.callback }))
        (try_all cs rest)

  pub try_all-append :
      (cs ds : List Candidate) (rest : OidSearchRes → lua.State → Outcome lua.State)
      → try_all (cs ++ ds) rest ≡ try_all cs (try_all ds rest)
  unfolding try_all
  try_all-append [] ds rest = refl
  try_all-append (c ∷ cs) ds rest = fun_ext (λ res. fun_ext (λ st.
      ap
        (taken view c.path
          (mib_instance_search lua st (record res { inst_id = c.inst_id; callback = c.callback })))
        (try_all-append cs ds rest)))
