-- ===== src/Base/Words.antt =====
-- 32-bit machine words as native numbers. An `int` is its bit pattern, below 2 ^ 32. Memory is a
-- list of bytes, and a word in memory is four bytes, lowest first (the source's LITTLE_ENDIAN).
use Prim.Native.Nat.{ℕ, zero, suc, ◌+◌, ◌*◌, ◌/◌, ◌%◌, ◌^◌, ◌<◌, bit_and}
use mathlib.Core.Path.{◌≡◌, refl, ap, ap₂}
use mathlib.Core.Bool.{Bool, not}
use mathlib.Core.List.{List, [], ◌∷◌, ◌++◌}
use native.Mathlib.Omega.{arith}
use smithsnmp.Base.Tests.{leb, ◌==◌}
use smithsnmp.Base.Lists.{length, get_or, drop, All}
use smithsnmp.Base.Bits.{bit_and_bit7}

abbrev pub IsByte : ℕ → Type 0
IsByte b = b < 256

-- The range of `uint32_t`, and of the bit pattern of an `int`.
abbrev pub IsWord : ℕ → Type 0
IsWord v = v < 2 ^ 32

-- `v < 0`, for the bit pattern of an `int`.
abbrev pub is_negative : ℕ → Bool
is_negative v = leb (2 ^ 31) v

-- `b & 0x80` as a condition.
abbrev pub has_bit7 : ℕ → Bool
has_bit7 b = not (bit_and b 0x80 == 0)

pub has_bit7_lem : (b : ℕ) → IsByte b → has_bit7 b ≡ leb 128 b
has_bit7_lem b h = ground (arith, bit_and_bit7 b h)

-- `a.buf[i]` of the unions that read a word as four bytes.
abbrev pub byte_of : ℕ → ℕ → ℕ
byte_of v i = v / 256 ^ i % 256

-- `(v << 8) | b`: the low eight bits of the shifted word are 0, so `|` adds.
abbrev pub shl8_or : ℕ → ℕ → ℕ
shl8_or v b = (v * 256 + b) % 2 ^ 32

-- A store of a word at a pointer, as the bytes that it writes.
abbrev pub le32 : ℕ → List ℕ
le32 v = byte_of v 0 ∷ byte_of v 1 ∷ byte_of v 2 ∷ byte_of v 3 ∷ []

-- A load of a word at a pointer.
abbrev pub read32 : List ℕ → ℕ
read32 m = get_or m 0 0 + 256 * get_or m 1 0 + 65536 * get_or m 2 0 + 16777216 * get_or m 3 0

pub read32-le32 : (v : ℕ) (m : List ℕ) → IsWord v → read32 (le32 v ++ m) ≡ v
read32-le32 v m h = omega arith

-- The first `n` elements of an array of words.
abbrev pub read_words : List ℕ → ℕ → List ℕ
read_words m zero = []
read_words m (suc n) = read32 m ∷ read_words (drop 4 m) n

abbrev pub words : List ℕ → List ℕ
words [] = []
words (v ∷ vs) = le32 v ++ words vs

pub read_words-words : (vs m : List ℕ) → All IsWord vs → read_words (words vs ++ m) (length vs) ≡ vs
read_words-words [] m h = refl
read_words-words (v ∷ vs) m h =
    ap₂ (λ a b. a ∷ b) (read32-le32 v (words vs ++ m) h.0) (read_words-words vs m h.1)

-- Cleared memory.
abbrev pub zeros : ℕ → List ℕ
zeros zero = []
zeros (suc n) = 0 ∷ zeros n

pub length-zeros : (n : ℕ) → length (zeros n) ≡ n
length-zeros zero = refl
length-zeros (suc n) = ap suc (length-zeros n)

-- Memory after `new` was written at its start.
abbrev pub overlay : List ℕ → List ℕ → List ℕ
overlay new old = new ++ drop (length new) old

get_or-IsByte : (m : List ℕ) (i : ℕ) → All IsByte m → get_or m i 0 < 256
get_or-IsByte [] i h = omega arith
get_or-IsByte (b ∷ m) zero h = h.0
get_or-IsByte (b ∷ m) (suc i) h = get_or-IsByte m i h.1

pub read32-IsWord : (m : List ℕ) → All IsByte m → IsWord (read32 m)
read32-IsWord m h =
    omega
      (arith, get_or-IsByte m 0 h, get_or-IsByte m 1 h, get_or-IsByte m 2 h, get_or-IsByte m 3 h)

drop-IsByte : (n : ℕ) (m : List ℕ) → All IsByte m → All IsByte (drop n m)
drop-IsByte zero m h = h
drop-IsByte (suc n) [] h = h
drop-IsByte (suc n) (b ∷ m) h = drop-IsByte n m h.1

pub read_words-IsWord : (m : List ℕ) (n : ℕ) → All IsByte m → All IsWord (read_words m n)
read_words-IsWord m zero h = tt
read_words-IsWord m (suc n) h =
    (read32-IsWord m h, read_words-IsWord (drop 4 m) n (drop-IsByte 4 m h))

pub length-read_words : (m : List ℕ) (n : ℕ) → length (read_words m n) ≡ n
length-read_words m zero = refl
length-read_words m (suc n) = omega (arith, length-read_words (drop 4 m) n)

pub le32-IsByte : (v : ℕ) → All IsByte (le32 v)
le32-IsByte v = omega arith
