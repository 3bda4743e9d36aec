-- ===== src/Mib/Tree/Hits.antt =====
-- Dropping a sub-node (`group_node_shrink` of core/mib_tree.c), and what the binary search finds.
use smithsnmp.Base.{ℕ, ◌≤◌, ◌<◌, ◌≡◌, refl, ap, ◌∙◌, arith, none, some, ◌==◌, if◌then◌else◌, All}
use smithsnmp.Oid.{Position, found, missing, oid_binary_search}
use smithsnmp.Oid.Search.{IsAscending, locate, next_position, oid_binary_search-locate}
use smithsnmp.Mib.Tree.{
  MibNode, SubNodes, nil, cons, sub_ids, sub_ptr, replace_at, group_node_shrink,
}
use smithsnmp.Mib.Tree.Subs.{
  child, put, child_above, sub_at-oid_binary_search, place-oid_binary_search,
  Hits-oid_binary_search,
}

-- Dropping the sub-node with a given number.
unfoldable pub remove : SubNodes → ℕ → SubNodes
remove nil y = nil
remove (cons x n subs) y = if x == y then subs else cons x n (remove subs y)

abbrev pub shrink_at : SubNodes → Position → SubNodes
shrink_at subs (found i) = group_node_shrink subs i
shrink_at subs (missing i) = subs

shrink_next :
    (x : ℕ) (n : MibNode) (subs : SubNodes) (p : Position)
    → shrink_at (cons x n subs) (next_position p) ≡ cons x n (shrink_at subs p)
unfolding group_node_shrink next_position
shrink_next x n subs (found i) = refl
shrink_next x n subs (missing i) = refl

remove_above :
    (subs : SubNodes) (x y : ℕ) → All (λ z. x < z) (sub_ids subs) → y ≤ x → remove subs y ≡ subs
unfolding sub_ids remove
remove_above nil x y h l = refl
remove_above (cons z n subs) x y h l = ground (arith, remove_above subs x y h.1 l)

shrink-locate :
    (subs : SubNodes) (y : ℕ)
    → IsAscending (sub_ids subs)
    → shrink_at subs (locate (sub_ids subs) y) ≡ remove subs y
unfolding locate remove sub_ids group_node_shrink
shrink-locate nil y h = refl
shrink-locate (cons x n subs) y h = ground (
  arith,
  shrink_next x n subs (locate (sub_ids subs) y),
  shrink-locate subs y h.1,
  remove_above subs x y h.0,
)

pub shrink-oid_binary_search :
    (subs : SubNodes) (y : ℕ)
    → IsAscending (sub_ids subs)
    → shrink_at subs (oid_binary_search (sub_ids subs) y) ≡ remove subs y
shrink-oid_binary_search subs y h =
    ap (shrink_at subs) (oid_binary_search-locate (sub_ids subs) y h) ∙ shrink-locate subs y h

pub child-remove :
    (subs : SubNodes) (x y : ℕ)
    → IsAscending (sub_ids subs)
    → child (remove subs x) y ≡ (if x == y then none else child subs y)
unfolding remove sub_ids
child-remove nil x y h = ground arith
child-remove (cons z n subs) x y h =
    ground (arith, child-remove subs x y h.1, child_above subs z y h.0)

-- What the binary search tells about a number that is there, and about one that is not.
abbrev pub Hit : SubNodes → ℕ → MibNode → ℕ → Type 0
Hit subs x n i =
    (oid_binary_search (sub_ids subs) x ≡ found i)
    × (sub_ptr subs i ≡ some n)
    × (group_node_shrink subs i ≡ remove subs x)
    × ((m : MibNode) → replace_at subs i m ≡ put subs x m)

module _ (subs : SubNodes) (x : ℕ) (asc : IsAscending (sub_ids subs)) where
  pub find-Hit : {n : MibNode} → child subs x ≡ some n → (i : ℕ) × Hit subs x n i
  find-Hit {n} e = go (oid_binary_search (sub_ids subs) x) refl
    where
      go : (p : Position) → oid_binary_search (sub_ids subs) x ≡ p → (i : ℕ) × Hit subs x n i
      go (missing i) q = absurd (cc (rw q at (sub_at-oid_binary_search subs x asc)))
      go (found i) q = (
        i,
        (
          q,
          rw q at (sub_at-oid_binary_search subs x asc) ∙ e,
          rw q at (shrink-oid_binary_search subs x asc),
          λ m. rw q at (place-oid_binary_search subs x m asc),
        ),
      )

  pub find_miss : child subs x ≡ none → (i : ℕ) × (oid_binary_search (sub_ids subs) x ≡ missing i)
  find_miss e = go (oid_binary_search (sub_ids subs) x) refl
    where
      go :
          (p : Position)
          → oid_binary_search (sub_ids subs) x ≡ p
          → (i : ℕ) × (oid_binary_search (sub_ids subs) x ≡ missing i)
      go (missing i) q = (i, q)
      go (found i) q = absurd (
          (rw q at (Hits-oid_binary_search subs x asc))
            (rw q at (sub_at-oid_binary_search subs x asc) ∙ e))
