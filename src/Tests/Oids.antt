-- ===== src/Tests/Oids.antt =====
-- Runs of the comparisons and searches, and their theorems at concrete inputs.
use smithsnmp.Base.{ℕ, ◌≡◌, refl, arith, List, [], ◌∷◌}
use smithsnmp.Oid.{oid_cover, covers, oid_binary_search, found, missing}
use smithsnmp.Oid.Search.{locate, oid_binary_search-locate}

abbrev ids : List ℕ
ids = 1 ∷ 4 ∷ 7 ∷ 9 ∷ []

found_run : oid_binary_search ids 7 ≡ found 2
unfolding oid_binary_search
found_run = refl

missing_run : oid_binary_search ids 8 ≡ missing 3
unfolding oid_binary_search
missing_run = refl

cover_below : oid_cover (1 ∷ 3 ∷ []) (1 ∷ 3 ∷ 6 ∷ []) ≡ covers
unfolding oid_cover
cover_below = refl

oid_binary_search-locate_example : oid_binary_search ids 8 ≡ locate ids 8
oid_binary_search-locate_example = oid_binary_search-locate ids 8 (omega arith)
