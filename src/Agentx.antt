-- ===== src/Agentx.antt =====
-- The values of AgentX messages: core/agentx_encoder.c and core/agentx_decoder.c, on a little-endian
-- machine. A value is the memory that the `void *` points to, as in Ber/Value; the message is the
-- bytes that are not read yet. A read behind its end is `none`.
pub mod Sizes
pub mod Message
pub mod Decode
pub mod Encode
pub mod Fields
pub mod Bindings
pub mod Lengths
pub mod RoundTrip
pub mod Rounds
pub mod Process
pub mod Answers
pub mod Ranges
pub mod Recv
pub mod Replies
pub mod Session
pub mod Registration
use smithsnmp.Base.{
  ℕ, ◌+◌, ◌-◌, ◌*◌, ◌/◌, Bool, ◌&&◌, ◌||◌, Option, none, some, List, [], ◌∷◌, ◌++◌, leb, ◌==◌,
  if◌then◌else◌, length, take, drop, get_or, le32, read32, read_words, words,
}
use smithsnmp.Asn1.{asn1_tag_cnt64, asn1_tag_objid}
use smithsnmp.Ber.Value.{is_signed, is_unsigned, is_octets}

-- The types of one word.
abbrev pub is_word : ℕ → Bool
is_word type = is_signed type || is_unsigned type

-- A length is a number of elements, far below 2 ^ 30.
unfoldable pub agentx_value_enc_try : ℕ → ℕ → ℕ
agentx_value_enc_try len type =
    if is_word type
    then 4
    else if type == asn1_tag_cnt64
    then 8
    else if type == asn1_tag_objid
    then len * 4
    else if is_octets type
    then len
    else 0

-- A word, or one of two words, is loaded and stored.
unfoldable pub agentx_value_enc : List ℕ → ℕ → ℕ → List ℕ
agentx_value_enc value len type =
    if is_word type
    then le32 (read32 value)
    else if type == asn1_tag_cnt64
    then le32 (read32 value) ++ le32 (read32 (drop 4 value))
    else if type == asn1_tag_objid
    then words (read_words value len)
    else if is_octets type
    then take len value
    else []

-- `uint_sizeof`
abbrev pub uint_sizeof : ℕ → ℕ
uint_sizeof n = (n + 3) / 4 * 4

-- The numbers that stand for a prefix.
abbrev pub prefixed : ℕ → List ℕ → List ℕ
prefixed prefix ids = 1 ∷ 3 ∷ 6 ∷ 1 ∷ prefix ∷ ids

-- The case of one word has no `break`.
unfoldable pub agentx_value_dec_try : List ℕ → ℕ → ℕ
agentx_value_dec_try buf type =
    if is_word type || type == asn1_tag_cnt64
    then 8
    else if is_octets type
    then read32 buf
    else if type == asn1_tag_objid
    then (if get_or buf 0 0 == 0 && get_or buf 1 0 == 0 then 0 else (get_or buf 0 0 + 5) * 4)
    else 0

-- What a value of `n` bytes in the message gives, with what is behind it.
unfoldable pub read_at : ℕ → ℕ → List ℕ → List ℕ → List ℕ → Option (ℕ × List ℕ × List ℕ)
read_at n ret value buf rest = if leb n (length buf) then some (ret, value, rest) else none

-- The number of elements, the bytes that are stored, and what is left of the message.
unfoldable pub agentx_value_dec : List ℕ → ℕ → Option (ℕ × List ℕ × List ℕ)
unfolding read_at
agentx_value_dec buf type =
    let count = get_or buf 0 0 in
    let prefix = get_or buf 1 0 in
    let ids = read_words (drop 4 buf) count in
    if is_word type
    then read_at 4 1 (take 4 buf) buf (drop 4 buf)
    else if type == asn1_tag_cnt64
    then read_at 8 1 (take 8 buf) buf (drop 8 buf)
    else if is_octets type
    then read_at (4 + read32 buf) (read32 buf) (take (read32 buf) (drop 4 buf)) buf
        (drop (4 + uint_sizeof (read32 buf)) buf)
    else if type == asn1_tag_objid
    then (if count == 0 && prefix == 0
        then read_at 2 0 [] buf (drop 4 buf)
        else read_at (4 + 4 * count) (count + 5) (words (prefixed prefix ids)) buf
            (drop (4 + 4 * count) buf))
    else some (0, [], buf)
