-- ===== src/Oid.antt =====
-- Comparing, covering and searching object identifiers: core/mib_tree.c. An identifier and its
-- length are a list of 32-bit numbers.
pub mod Order
pub mod Prefix
pub mod Search
use smithsnmp.Base.{
  ℕ, zero, suc, ◌+◌, ◌-◌, ◌/◌, ◌%◌, ◌^◌, Bool, ◌&&◌, List, [], ◌∷◌, ltb, leb, ◌==◌, if◌then◌else◌,
  length, get_or, take,
}

-- The result is the bit pattern of the `int`, and its subtractions wrap.
unfoldable pub oid_cmp : List ℕ → List ℕ → ℕ
oid_cmp [] target = (2 ^ 32 - length target) % 2 ^ 32
oid_cmp (x ∷ src) [] = length (x ∷ src) % 2 ^ 32
oid_cmp (x ∷ src) (y ∷ target) =
    let ret = (x + 2 ^ 32 - y) % 2 ^ 32 in if ret == 0 then oid_cmp src target else ret

-- The results 1, -1 and 0 of `oid_cover`.
pub data Cover : Type 0 where
  covers covered apart : Cover

unfoldable pub oid_cover : List ℕ → List ℕ → Cover
unfolding oid_cmp
oid_cover oid1 oid2 =
    if leb (length oid1) (length oid2) && oid_cmp oid1 (take (length oid1) oid2) == 0
    then covers
    else if leb (length oid2) (length oid1) && oid_cmp (take (length oid2) oid1) oid2 == 0
    then covered
    else apart

-- A result `i`, not negative, and a result `-i - 1`.
pub data Position : Type 0 where
  found missing : ℕ → Position

-- The loop, with `next` for `low + 1` (`low` starts at -1). The first argument bounds the rounds.
unfoldable pub search_loop : ℕ → List ℕ → ℕ → ℕ → ℕ → ℕ
search_loop zero array oid next high = high
search_loop (suc k) array oid next high =
    let mid = next + (high + 1 - next) / 2 - 1 in
    let less = ltb (get_or array mid 0) oid in
    let more =
      search_loop k array oid (if less then mid + 1 else next) (if less then high else mid) in
    if ltb next high then more else high

-- Each round shortens the range, so the number of elements bounds the rounds.
unfoldable pub oid_binary_search : List ℕ → ℕ → Position
unfolding search_loop
oid_binary_search array oid =
    let high = search_loop (length array) array oid 0 (length array) in
    if leb (length array) high
    then missing high
    else if get_or array high 0 == oid
    then found high
    else missing high
