-- ===== src/Ber/Oid.antt =====
-- Object identifiers of core/snmp_encoder.c and core/snmp_decoder.c.
pub mod RoundTrip
pub mod Sizes
use smithsnmp.Base.{
  ℕ, zero, suc, ◌+◌, ◌*◌, ◌/◌, ◌%◌, ◌^◌, bit_and, bit_or, List, [], ◌∷◌, ◌++◌, reverse, ◌==◌, leb,
  Option, none, some, if◌then◌else◌, length, has_bit7,
}

-- `do { tmp[k++] = (id & 0x7f) | 0x80; id /= 128; } while (id);` The array `tmp` has ten cells,
-- which bound the rounds; a word fills five at most.
unfoldable pub fill_tmp : ℕ → ℕ → List ℕ
fill_tmp zero id = []
fill_tmp (suc k) id =
    let more = fill_tmp k (id / 128) in
    bit_or (bit_and (id % 256) 0x7f) 0x80 ∷ (if id / 128 == 0 then [] else more)

-- `tmp[0] &= 0x7f;`
pub clear_first : List ℕ → List ℕ
clear_first [] = []
clear_first (b ∷ bs) = bit_and b 0x7f ∷ bs

-- The bytes of one sub-identifier, in the order of `buf[j++] = tmp[--k]`.
pub sub_id_enc : ℕ → List ℕ
unfolding fill_tmp clear_first
sub_id_enc id = reverse (clear_first (fill_tmp 10 id))

pub sub_ids_enc : List ℕ → List ℕ
unfolding sub_id_enc
sub_ids_enc [] = []
sub_ids_enc (id ∷ ids) = sub_id_enc id ++ sub_ids_enc ids

-- A byte stored in `buf` keeps the low eight bits.
unfoldable pub ber_oid_enc : List ℕ → List ℕ
unfolding sub_ids_enc
ber_oid_enc [] = []
ber_oid_enc (a ∷ []) = a % 256 ∷ []
ber_oid_enc (a ∷ b ∷ ids) = (a * 40 + b) % 2 ^ 32 % 256 ∷ sub_ids_enc ids

-- The counter `j` is a `uint8_t`, one step for each byte of each sub-identifier.
unfoldable pub count_ids : ℕ → List ℕ → ℕ
unfolding sub_id_enc
count_ids j [] = j
count_ids j (id ∷ ids) = count_ids ((j + length (fill_tmp 10 id)) % 256) ids

-- What the loop of `ber_oid_enc_try` has counted, if it ends.
unfoldable pub oid_size : List ℕ → ℕ
unfolding count_ids
oid_size [] = 0
oid_size (a ∷ []) = 1
oid_size (a ∷ b ∷ ids) = count_ids 1 ids

-- The counter `i` is a `uint8_t` too, which stays below a length of 256 or more: then the loop does not
-- end, which is `none`.
unfoldable pub ber_oid_enc_try : List ℕ → Option ℕ
unfolding oid_size
ber_oid_enc_try oid = if leb 256 (length oid) then none else some (oid_size oid)

-- The loop of `ber_oid_dec` over the bytes behind the first one.
pub sub_ids_dec : ℕ → List ℕ → List ℕ
sub_ids_dec id [] = []
sub_ids_dec id (b ∷ bs) =
    let id' = (id * 128 + bit_and b 0x7f) % 2 ^ 32 in
    let more = sub_ids_dec (if has_bit7 b then id' else 0) bs in
    if has_bit7 b then more else id' ∷ more

-- The list is the `len` bytes at `buf`; the callers pass no empty one.
pub ber_oid_dec : List ℕ → List ℕ
unfolding sub_ids_dec
ber_oid_dec [] = []
ber_oid_dec (b ∷ bs) = b / 40 ∷ b % 40 ∷ sub_ids_dec 0 bs

pub count_ends : ℕ → List ℕ → ℕ
count_ends j [] = j
count_ends j (b ∷ bs) = count_ends (if has_bit7 b then j else j + 1) bs

pub ber_oid_dec_try : List ℕ → ℕ
unfolding count_ends
ber_oid_dec_try [] = 2
ber_oid_dec_try (b ∷ bs) = count_ends 2 bs
