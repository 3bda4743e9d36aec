-- ===== src/Mib/Tree/Subs.antt =====
-- The sub-nodes of a group as a map from sub-identifiers to nodes.
use smithsnmp.Base.{
  ℕ, ◌≤◌, ◌<◌, ◌≡◌, ◌≢◌, refl, ap, ◌∙◌, arith, Option, none, some, List, [], ◌∷◌, ltb, ◌==◌,
  if◌then◌else◌, All, Bool-cases, inl, inr,
}
use smithsnmp.Oid.{Position, found, missing, oid_binary_search}
use smithsnmp.Oid.Search.{IsAscending, locate, next_position, oid_binary_search-locate}
use smithsnmp.Mib.Tree.{MibNode, SubNodes, nil, cons, sub_ids, sub_ptr, replace_at, insert_at}

-- The sub-node with a given number.
abbrev pub child : SubNodes → ℕ → Option MibNode
child nil y = none
child (cons x n subs) y = if x == y then some n else child subs y

-- Writing the sub-node with a given number, in ascending order.
unfoldable pub put : SubNodes → ℕ → MibNode → SubNodes
put nil y m = cons y m nil
put (cons x n subs) y m =
    if ltb x y
    then cons x n (put subs y m)
    else if x == y
    then cons x m subs
    else cons y m (cons x n subs)

abbrev pub sub_at : SubNodes → Position → Option MibNode
sub_at subs (found i) = sub_ptr subs i
sub_at subs (missing i) = none

abbrev pub place : SubNodes → Position → ℕ → MibNode → SubNodes
place subs (found i) y m = replace_at subs i m
place subs (missing i) y m = insert_at subs i y m

pub child_above :
    (subs : SubNodes) (x y : ℕ) → All (λ z. x < z) (sub_ids subs) → y ≤ x → child subs y ≡ none
unfolding sub_ids
child_above nil x y h l = refl
child_above (cons z n subs) x y h l = ground (arith, child_above subs x y h.1 l)

pub child-put :
    (subs : SubNodes) (x y : ℕ) (m : MibNode)
    → IsAscending (sub_ids subs)
    → child (put subs x m) y ≡ (if x == y then some m else child subs y)
unfolding put sub_ids
child-put nil x y m h = refl
child-put (cons z n subs) x y m h = ground (arith, child-put subs x y m h.1)

All-put :
    (P : ℕ → Type 0) (subs : SubNodes) (x : ℕ) (m : MibNode)
    → P x
    → All P (sub_ids subs)
    → All P (sub_ids (put subs x m))
unfolding put sub_ids
All-put P nil x m p h = (p, tt)
All-put P (cons z n subs) x m p h = elim (Bool-cases (ltb z x)) [
  | inl e ↦ rw e (h.0, All-put P subs x m p h.1)
  | inr e ↦ rw e (elim (Bool-cases (z == x)) [ inl f ↦ rw f h | inr f ↦ rw f (p, h) ])
]

All-mono : (x z : ℕ) (xs : List ℕ) → x < z → All (λ y. z < y) xs → All (λ y. x < y) xs
All-mono x z [] l h = tt
All-mono x z (w ∷ xs) l h = (omega arith, All-mono x z xs l h.1)

pub put-IsAscending :
    (subs : SubNodes) (x : ℕ) (m : MibNode)
    → IsAscending (sub_ids subs)
    → IsAscending (sub_ids (put subs x m))
unfolding put sub_ids
put-IsAscending nil x m h = (tt, tt)
put-IsAscending (cons z n subs) x m h = elim (Bool-cases (ltb z x)) [
  | inl e ↦ rw e (All-put (λ y. z < y) subs x m (ground arith) h.0, put-IsAscending subs x m h.1)
  | inr e ↦ rw e (elim (Bool-cases (z == x)) [
    | inl f ↦ rw f h
    | inr f ↦ rw f ((ground arith, All-mono x z (sub_ids subs) (ground arith) h.0), h)
  ])
]

sub_at_next :
    (x : ℕ) (n : MibNode) (subs : SubNodes) (p : Position)
    → sub_at (cons x n subs) (next_position p) ≡ sub_at subs p
unfolding sub_ptr next_position
sub_at_next x n subs (found i) = refl
sub_at_next x n subs (missing i) = refl

place_next :
    (x y : ℕ) (n m : MibNode) (subs : SubNodes) (p : Position)
    → place (cons x n subs) (next_position p) y m ≡ cons x n (place subs p y m)
unfolding replace_at insert_at next_position
place_next x y n m subs (found i) = refl
place_next x y n m subs (missing i) = refl

sub_at-locate :
    (subs : SubNodes) (y : ℕ)
    → IsAscending (sub_ids subs)
    → sub_at subs (locate (sub_ids subs) y) ≡ child subs y
unfolding locate sub_ids sub_ptr
sub_at-locate nil y h = refl
sub_at-locate (cons x n subs) y h = ground (
  arith,
  sub_at_next x n subs (locate (sub_ids subs) y),
  sub_at-locate subs y h.1,
  child_above subs x y h.0,
)

place-locate :
    (subs : SubNodes) (y : ℕ) (m : MibNode)
    → IsAscending (sub_ids subs)
    → place subs (locate (sub_ids subs) y) y m ≡ put subs y m
unfolding locate put sub_ids replace_at insert_at
place-locate nil y m h = refl
place-locate (cons x n subs) y m h =
    ground (arith, place_next x y n m subs (locate (sub_ids subs) y), place-locate subs y m h.1)

-- The binary search reads and writes the map.
pub sub_at-oid_binary_search :
    (subs : SubNodes) (y : ℕ)
    → IsAscending (sub_ids subs)
    → sub_at subs (oid_binary_search (sub_ids subs) y) ≡ child subs y
sub_at-oid_binary_search subs y h =
    ap (sub_at subs) (oid_binary_search-locate (sub_ids subs) y h) ∙ sub_at-locate subs y h

pub place-oid_binary_search :
    (subs : SubNodes) (y : ℕ) (m : MibNode)
    → IsAscending (sub_ids subs)
    → place subs (oid_binary_search (sub_ids subs) y) y m ≡ put subs y m
place-oid_binary_search subs y m h =
    ap (λ p. place subs p y m) (oid_binary_search-locate (sub_ids subs) y h)
    ∙ place-locate subs y m h

-- A position that is found is that of a sub-node.
abbrev pub Hits : SubNodes → Position → Type 0
Hits subs (found i) = sub_ptr subs i ≢ none
Hits subs (missing i) = Unit

Hits-next :
    (x : ℕ) (n : MibNode) (subs : SubNodes) (p : Position)
    → Hits subs p
    → Hits (cons x n subs) (next_position p)
unfolding sub_ptr next_position
Hits-next x n subs (found i) h = h
Hits-next x n subs (missing i) h = tt

Hits-locate : (subs : SubNodes) (y : ℕ) → Hits subs (locate (sub_ids subs) y)
unfolding locate sub_ids sub_ptr
Hits-locate nil y = tt
Hits-locate (cons x n subs) y = elim (Bool-cases (ltb x y)) [
  | inl e ↦ rw e (Hits-next x n subs (locate (sub_ids subs) y) (Hits-locate subs y))
  | inr e ↦ rw e (elim (Bool-cases (x == y)) [ inl f ↦ rw f (λ q. cc) | inr f ↦ rw f tt ])
]

pub Hits-oid_binary_search :
    (subs : SubNodes) (y : ℕ)
    → IsAscending (sub_ids subs)
    → Hits subs (oid_binary_search (sub_ids subs) y)
Hits-oid_binary_search subs y h =
    rw (oid_binary_search-locate (sub_ids subs) y h) (Hits-locate subs y)

-- Writing back what is there changes nothing.
pub put_self :
    (subs : SubNodes) (x : ℕ) (m : MibNode)
    → IsAscending (sub_ids subs)
    → child subs x ≡ some m
    → put subs x m ≡ subs
unfolding put sub_ids
put_self nil x m h e = cc
put_self (cons y n subs) x m h e = elim (Bool-cases (ltb y x)) [
  | inl b ↦ rw b (ap (cons y n) (put_self subs x m h.1 (ground arith)))
  | inr b ↦ rw b (elim (Bool-cases (y == x)) [
    | inl c ↦ rw c (ap (λ (k : MibNode). cons y k subs) (ground arith))
    | inr c ↦ absurd (ground (arith, child_above subs y x h.0))
  ])
]
