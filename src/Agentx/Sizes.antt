-- ===== src/Agentx/Sizes.antt =====
-- The sizes by which the callers of core/agentx_encoder.c and core/agentx_decoder.c allocate hold
-- what is stored.
use smithsnmp.Base.{
  ℕ, ◌+◌, ◌*◌, ◌≤◌, ◌≡◌, arith, Option, none, some, List, [], ◌∷◌, length, drop, words, read_words,
  length-take, length-read_words, Bool-cases, inl, inr, leb, ◌==◌, ◌&&◌, get_or, read32,
}
use smithsnmp.Asn1.{asn1_tag_cnt64, asn1_tag_objid}
use smithsnmp.Ber.Value.{is_octets}
use smithsnmp.Agentx.{
  agentx_value_enc_try, agentx_value_enc, agentx_value_dec_try, agentx_value_dec, read_at, is_word,
  prefixed,
}

pub length-words : (vs : List ℕ) → length (words vs) ≡ 4 * length vs
length-words [] = omega arith
length-words (v ∷ vs) = omega (arith, length-words vs)

-- `agentx_value_enc_try` is the number of bytes that agentx_value_enc writes, for a memory of at
-- least one byte for each element.
pub agentx_value_enc_try-agentx_value_enc :
    (value : List ℕ) (len type : ℕ)
    → len ≤ length value
    → agentx_value_enc_try len type ≡ length (agentx_value_enc value len type)
unfolding agentx_value_enc_try agentx_value_enc
agentx_value_enc_try-agentx_value_enc value len type h =
    ground (
      arith,
      length-words (read_words value len),
      length-read_words value len,
      length-take len value,
    )

-- Not more bytes than announced.
abbrev pub StoresAtMost : ℕ → Option (ℕ × List ℕ × List ℕ) → Type 0
StoresAtMost n none = Unit
StoresAtMost n (some (ret, value, rest)) = length value ≤ n

read_at-StoresAtMost :
    (n room ret : ℕ) (value buf rest : List ℕ)
    → length value ≤ room
    → StoresAtMost room (read_at n ret value buf rest)
unfolding read_at
read_at-StoresAtMost n room ret value buf rest h = elim (Bool-cases (leb n (length buf))) [
  | inl e ↦ rw e h
  | inr e ↦ rw e tt
]

-- `agentx_value_dec` stores at most the bytes that `agentx_value_dec_try` announces for the same
-- message and type, or reads behind the end of the message.
pub agentx_value_dec-StoresAtMost :
    (buf : List ℕ) (type : ℕ)
    → StoresAtMost (agentx_value_dec_try buf type) (agentx_value_dec buf type)
unfolding agentx_value_dec_try agentx_value_dec
agentx_value_dec-StoresAtMost buf type = elim (Bool-cases (is_word type)) [
  | inl w ↦ rw w (read_at-StoresAtMost 4 8 1 _ buf _ (omega (arith, length-take 4 buf)))
  | inr w ↦ elim (Bool-cases (type == asn1_tag_cnt64)) [
    | inl c ↦ rw (w, c) (read_at-StoresAtMost 8 8 1 _ buf _ (omega (arith, length-take 8 buf)))
    | inr c ↦ elim (Bool-cases (is_octets type)) [
      | inl o ↦
          rw (w, c, o)
            (read_at-StoresAtMost (4 + read32 buf) (read32 buf) _ _ buf _
              (omega (arith, length-take (read32 buf) (drop 4 buf))))
      | inr o ↦ elim (Bool-cases (type == asn1_tag_objid)) [
        | inl i ↦ elim (Bool-cases (get_or buf 0 0 == 0 && get_or buf 1 0 == 0)) [
          | inl z ↦ rw (w, c, o, i, z) (read_at-StoresAtMost 2 0 0 [] buf _ (omega arith))
          | inr z ↦
              rw (w, c, o, i, z)
                (read_at-StoresAtMost _ _ _ _ buf _ (
                  omega (
                    arith,
                    length-words
                        (prefixed (get_or buf 1 0) (read_words (drop 4 buf) (get_or buf 0 0))),
                    length-read_words (drop 4 buf) (get_or buf 0 0),
                  )))
        ]
        | inr i ↦ rw (w, c, o, i) (omega arith)
      ]
    ]
  ]
]
