-- ===== src/Agentx/Fields.antt =====
-- Fields of AgentX messages (core/agentx_msg_out.c) as they are read back (core/agentx_msg_in.c).
use smithsnmp.Base.{
  ℕ, suc, ◌+◌, ◌-◌, ◌*◌, ◌/◌, ◌^◌, ◌≤◌, ◌<◌, ◌≡◌, refl, ap, ap₂, subst, arith, true, false, some,
  List, ◌∷◌, ◌++◌, ◌==◌, ◌&&◌, if◌then◌else◌, leb, ltb, le→leb, length, drop, le32, IsWord, All,
  words, read_words-words, length-append, drop-length-append,
}
use smithsnmp.Asn1.{asn1_tag_objid, asn1_oid_max_len}
use smithsnmp.Parse.{decoded, get_bytes-append}
use smithsnmp.Agentx.{prefixed, read_at, agentx_value_dec_try, agentx_value_dec}
use smithsnmp.Agentx.Sizes.{length-words}
use smithsnmp.Agentx.Message.{
  AgentxErrCode, flag_set, netword_byte_order, get16, get32, value_room, get_value, oid_room,
  behind_oid,
}
use smithsnmp.Agentx.Encode.{le16, objid_enc}

-- The fields are in the order of this machine.
abbrev pub IsLittle : ℕ → Type 0
IsLittle flags = flag_set flags netword_byte_order ≡ false

pub get16-le16 :
    (flags v : ℕ) (rest : List ℕ)
    → IsLittle flags
    → v < 2 ^ 16
    → get16 flags (le16 v ++ rest) ≡ decoded (v, rest)
unfolding get16
get16-le16 flags v rest l h =
    rw (get_bytes-append {E = AgentxErrCode} 2 (le16 v) rest refl, l)
      (ap (λ t. decoded (t, rest)) (omega arith))

pub get32-le32 :
    (flags v : ℕ) (rest : List ℕ)
    → IsLittle flags
    → IsWord v
    → get32 flags (le32 v ++ rest) ≡ decoded (v, rest)
unfolding get32
get32-le32 flags v rest l h =
    rw (get_bytes-append {E = AgentxErrCode} 4 (le32 v) rest refl, l)
      (ap (λ t. decoded (t, rest)) (omega arith))

-- An identifier that can be sent: it begins with 1.3.6.1, and its fifth number is a byte.
pub data IsPrefixed : List ℕ → Type 0 where
  prefixed_by :
      (prefix : ℕ) (ids : List ℕ)
      → 0 < prefix
      → prefix < 256
      → length ids ≤ 59
      → All IsWord ids
      → IsPrefixed (prefixed prefix ids)

pub objid_enc-prefixed :
    (prefix : ℕ) (ids : List ℕ)
    → prefix < 256
    → length ids ≤ 59
    → objid_enc (prefixed prefix ids) ≡ length ids ∷ prefix ∷ 0 ∷ 0 ∷ words ids
unfolding objid_enc
objid_enc-prefixed prefix ids p n =
    ap₂ (λ a b. a ∷ b ∷ 0 ∷ 0 ∷ words ids) (omega arith) (omega arith)

drop-words :
    (a b c d : ℕ) (ids rest : List ℕ)
    → drop (4 + 4 * length ids) (a ∷ b ∷ c ∷ d ∷ (words ids ++ rest)) ≡ rest
drop-words a b c d ids rest =
    let e : suc (suc (suc (suc (length (words ids))))) ≡ 4 + 4 * length ids =
      omega (arith, length-words ids) in
    subst (λ n. drop n (a ∷ b ∷ c ∷ d ∷ (words ids ++ rest)) ≡ rest) e
      (drop-length-append (words ids) rest)

module _ (prefix : ℕ) (ids rest : List ℕ) (pos : 0 < prefix) (byte : prefix < 256)
    (few : length ids ≤ 59) (fit : All IsWord ids) where
  not_null : ((length ids == 0) && (prefix == 0)) ≡ false
  not_null = ground arith

  enough :
      leb (4 + 4 * length ids) (length (length ids ∷ prefix ∷ 0 ∷ 0 ∷ (words ids ++ rest))) ≡ true
  enough = le→leb _ _ (omega (arith, length-append (words ids) rest, length-words ids))

  value_dec_sent :
      agentx_value_dec (length ids ∷ prefix ∷ 0 ∷ 0 ∷ (words ids ++ rest)) asn1_tag_objid
      ≡ some (length ids + 5, words (prefixed prefix ids), rest)
  unfolding agentx_value_dec read_at
  value_dec_sent =
      rw
        (
          not_null,
          enough,
          read_words-words ids rest fit,
          drop-words (length ids) prefix 0 0 ids rest,
        )
        refl

  dec_try_sent :
      agentx_value_dec_try (length ids ∷ prefix ∷ 0 ∷ 0 ∷ (words ids ++ rest)) asn1_tag_objid
      ≡ (length ids + 5) * 4
  unfolding agentx_value_dec_try
  dec_try_sent = rw not_null refl

  probe_enough : leb 2 (length (length ids ∷ prefix ∷ 0 ∷ 0 ∷ (words ids ++ rest))) ≡ true
  probe_enough = le→leb _ _ (omega arith)

  value_room_sent :
      value_room asn1_tag_objid (objid_enc (prefixed prefix ids) ++ rest)
      ≡ decoded (length (prefixed prefix ids) * 4)
  unfolding value_room
  value_room_sent =
      rw (objid_enc-prefixed prefix ids byte few, probe_enough, dec_try_sent)
        (ap (λ n. decoded n) (omega arith))

  get_value_sent :
      get_value asn1_tag_objid (objid_enc (prefixed prefix ids) ++ rest)
      ≡ decoded (length (prefixed prefix ids), words (prefixed prefix ids), rest)
  unfolding get_value
  get_value_sent =
      rw (objid_enc-prefixed prefix ids byte few, get_value, value_dec_sent)
        (ap (λ n. decoded (n, words (prefixed prefix ids), rest)) (omega arith))

  behind_sent :
      behind_oid (length (prefixed prefix ids) * 4) (objid_enc (prefixed prefix ids) ++ rest) ≡ rest
  behind_sent =
      let room = length (prefixed prefix ids) * 4 in
      let e : (if ltb 0 room then 4 + room - 20 else 4) ≡ 4 + 4 * length ids = ground arith in
      rw (objid_enc-prefixed prefix ids byte few, e) (drop-words (length ids) prefix 0 0 ids rest)

room_fits : {oid : List ℕ} → IsPrefixed oid → ltb asn1_oid_max_len (length oid * 4 / 4) ≡ false
room_fits (prefixed_by p ids a b n w) = ground arith

module _ (rest : List ℕ) where
  pub value_room-objid_enc :
      {oid : List ℕ}
      → IsPrefixed oid
      → value_room asn1_tag_objid (objid_enc oid ++ rest) ≡ decoded (length oid * 4)
  value_room-objid_enc (prefixed_by p ids a b n w) = value_room_sent p ids rest a b n w

  pub get_value-objid_enc :
      {oid : List ℕ}
      → IsPrefixed oid
      → get_value asn1_tag_objid (objid_enc oid ++ rest) ≡ decoded (length oid, words oid, rest)
  get_value-objid_enc (prefixed_by p ids a b n w) = get_value_sent p ids rest a b n w

  pub behind_oid-objid_enc :
      {oid : List ℕ} → IsPrefixed oid → behind_oid (length oid * 4) (objid_enc oid ++ rest) ≡ rest
  behind_oid-objid_enc (prefixed_by p ids a b n w) = behind_sent p ids rest a b n w

  pub oid_room-objid_enc :
      (err : AgentxErrCode) {oid : List ℕ}
      → IsPrefixed oid
      → oid_room err (objid_enc oid ++ rest) ≡ decoded (length oid * 4)
  unfolding oid_room
  oid_room-objid_enc err {oid} i = rw (value_room-objid_enc i, room_fits i) refl

pub length-IsPrefixed : {oid : List ℕ} → IsPrefixed oid → length oid ≤ 64
length-IsPrefixed (prefixed_by p ids a b n w) = omega arith

pub words-IsPrefixed : {oid : List ℕ} → IsPrefixed oid → All IsWord oid
words-IsPrefixed (prefixed_by p ids a b n w) =
    (omega arith, (omega arith, (omega arith, (omega arith, (omega arith, w)))))
