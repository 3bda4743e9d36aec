-- ===== src/Agentx/Rounds.antt =====
-- The loops of `var_bind_parse` and `search_range_parse` (core/agentx_msg_in.c) end within as many rounds
-- as there are bytes.
use smithsnmp.Base.{
  ℕ, zero, suc, ◌+◌, ◌-◌, ◌/◌, ◌%◌, ◌≤◌, ◌<◌, ◌≡◌, refl, ap, subst, arith, ◌&&◌, ◌==◌, Option, none,
  some, List, [], ◌∷◌, length, drop, leb, ltb, if◌then◌else◌, length-drop, Bool-cases, Option-cases,
  inl, inr, get_or, read32,
}
use smithsnmp.Asn1.{asn1_tag_objid, asn1_oid_max_len, asn1_tag_cnt64, asn1_value_max_len}
use smithsnmp.Parse.{decoded, rejected, overrun, ◌>>=◌, check, get_byte, get_bytes, less}
use smithsnmp.Ber.Value.{is_octets}
use smithsnmp.Agentx.{is_word, read_at, agentx_value_dec, agentx_value_dec_try}
use smithsnmp.Agentx.Message.{
  AgentxErrCode, Read, get16, value_room, get_value, oid_room, behind_oid, agentx_err_vb_oid_len,
  agentx_err_vb_value_len, agentx_err_sr_oid_len,
}
use smithsnmp.Agentx.Decode.{var_bind_alloc, search_range_alloc, include_of, parse_loop}

-- What holds of the result, if reading succeeds.
abbrev Holds : {A : Type 0} → (A → Type 0) → Read A → Type 0
Holds P (decoded a) = P a
Holds P (rejected err) = Unit
Holds P overrun = Unit

bind-Holds :
    {A B : Type 0} (P : A → Type 0) (Q : B → Type 0) (m : Read B) (f : B → Read A)
    → Holds Q m
    → ((b : B) → Q b → Holds P (f b))
    → Holds P (m >>= f)
bind-Holds P Q (decoded b) f q h = h b q
bind-Holds P Q (rejected err) f q h = tt
bind-Holds P Q overrun f q h = tt

-- The first step does not matter.
skip-Holds :
    {A B : Type 0} (P : A → Type 0) (m : Read B) (f : B → Read A)
    → ((b : B) → Holds P (f b))
    → Holds P (m >>= f)
skip-Holds P (decoded b) f h = h b
skip-Holds P (rejected err) f h = tt
skip-Holds P overrun f h = tt

-- Not more bytes are left than there were.
abbrev Rests : ℕ → Option (ℕ × List ℕ × List ℕ) → Type 0
Rests n none = Unit
Rests n (some (count, value, rest)) = length rest ≤ n

read_at-Rests :
    (n ret : ℕ) (value buf rest : List ℕ)
    → length rest ≤ length buf
    → Rests (length buf) (read_at n ret value buf rest)
unfolding read_at
read_at-Rests n ret value buf rest h = elim (Bool-cases (leb n (length buf))) [
  | inl e ↦ rw e h
  | inr e ↦ rw e tt
]

drop_at-Rests :
    (n ret k : ℕ) (value buf : List ℕ) → Rests (length buf) (read_at n ret value buf (drop k buf))
drop_at-Rests n ret k value buf =
    read_at-Rests n ret value buf (drop k buf) (omega (arith, length-drop k buf))

agentx_value_dec-Rests : (buf : List ℕ) (type : ℕ) → Rests (length buf) (agentx_value_dec buf type)
unfolding agentx_value_dec
agentx_value_dec-Rests buf type = elim (Bool-cases (is_word type)) [
  | inl w ↦ rw w (drop_at-Rests 4 1 4 _ buf)
  | inr w ↦ elim (Bool-cases (type == asn1_tag_cnt64)) [
    | inl c ↦ rw (w, c) (drop_at-Rests 8 1 8 _ buf)
    | inr c ↦ elim (Bool-cases (is_octets type)) [
      | inl o ↦ rw (w, c, o) (drop_at-Rests (4 + read32 buf) _ _ _ buf)
      | inr o ↦ elim (Bool-cases (type == asn1_tag_objid)) [
        | inl i ↦ elim (Bool-cases (get_or buf 0 0 == 0 && get_or buf 1 0 == 0)) [
          | inl z ↦ rw (w, c, o, i, z) (drop_at-Rests 2 0 4 [] buf)
          | inr z ↦ rw (w, c, o, i, z) (drop_at-Rests _ _ _ _ buf)
        ]
        | inr i ↦ rw (w, c, o, i) (omega arith)
      ]
    ]
  ]
]

get_value-Holds :
    (type : ℕ) (buf : List ℕ) → Holds (λ r. length r.2 ≤ length buf) (get_value type buf)
unfolding get_value
get_value-Holds type buf = elim (Option-cases (agentx_value_dec buf type)) [
  | inl q ↦ rw (get_value, q) tt
  | inr (r, q) ↦ rw (get_value, q) (subst (Rests (length buf)) q (agentx_value_dec-Rests buf type))
]

get16-Holds : (flags : ℕ) (buf : List ℕ) → Holds (λ r. length r.1 < length buf) (get16 flags buf)
unfolding get16 get_bytes
get16-Holds flags buf = elim (Bool-cases (leb 2 (length buf))) [
  | inl e ↦ rw e (ground (arith, length-drop 2 buf))
  | inr e ↦ rw e tt
]

include_of-Holds : (buf : List ℕ) → Holds (λ _. 0 < length buf) (include_of buf)
unfolding include_of get_byte get_bytes
include_of-Holds [] = tt
include_of-Holds (b ∷ buf) =
    skip-Holds _ (get_bytes 2 (b ∷ buf)) _ (λ r. skip-Holds _ (get_byte r.1) _ (λ t. omega arith))

var_bind_alloc-Holds :
    (flags : ℕ) (buf : List ℕ) → Holds (λ r. length r.1 < length buf) (var_bind_alloc flags buf)
unfolding var_bind_alloc
var_bind_alloc-Holds flags buf = bind-Holds _ _ (get16 flags buf) _ (get16-Holds flags buf) (λ t h.
    skip-Holds _ (oid_room agentx_err_vb_oid_len (drop 2 t.1)) _ (λ oid_len.
      let buf2 : List ℕ = behind_oid oid_len (drop 2 t.1) in
      skip-Holds _ (value_room (t.0 % 256) buf2) _ (λ room.
        skip-Holds _ (check (ltb asn1_value_max_len room) agentx_err_vb_value_len) _ (λ _.
          skip-Holds _ (get_value asn1_tag_objid (drop 2 t.1)) _ (λ v.
            bind-Holds _ _ (get_value (t.0 % 256) buf2) _ (get_value-Holds (t.0 % 256) buf2)
              (λ w l. omega (arith, length-drop 2 t.1, length-drop _ (drop 2 t.1))))))))

-- At least the first four bytes of an identifier are passed over.
abbrev passed : ℕ → ℕ
passed n = if ltb 0 n then 4 + n - 20 else 4

oid_room-Holds : (err : AgentxErrCode) (buf : List ℕ) → Holds (λ n. 4 ≤ passed n) (oid_room err buf)
unfolding oid_room value_room agentx_value_dec_try
oid_room-Holds err buf = elim (Bool-cases (leb 2 (length buf))) [
  | inl e ↦
      let n : ℕ = agentx_value_dec_try buf asn1_tag_objid in
      let h : 4 ≤ passed n = ground arith in
      rw e (skip-Holds (λ n. 4 ≤ passed n) (check (ltb asn1_oid_max_len (n / 4)) err) _ (λ _. h))
  | inr e ↦ rw e tt
]

search_range_alloc-Holds :
    (buf : List ℕ) → Holds (λ r. length r.1 < length buf) (search_range_alloc buf)
unfolding search_range_alloc
search_range_alloc-Holds buf =
    bind-Holds _ _ (oid_room agentx_err_sr_oid_len buf) _ (oid_room-Holds agentx_err_sr_oid_len buf)
      (λ start_len p.
        let buf1 : List ℕ = behind_oid start_len buf in
        bind-Holds _ _ (include_of buf) _ (include_of-Holds buf) (λ start_include h.
          skip-Holds _ (oid_room agentx_err_sr_oid_len buf1) _ (λ end_len.
            skip-Holds _ (include_of buf1) _ (λ end_include.
              skip-Holds _ (get_value asn1_tag_objid buf) _ (λ v.
                bind-Holds _ _ (get_value asn1_tag_objid buf1) _
                  (get_value-Holds asn1_tag_objid buf1)
                  (λ w l. omega (arith, length-drop (passed start_len) buf)))))))

module _ {A : Type 0} (alloc : List ℕ → Read (A × List ℕ))
    (shrinks : (buf : List ℕ) → Holds (λ r. length r.1 < length buf) (alloc buf))
    (empty : alloc [] ≡ overrun) where
  -- What a round does with an item, and the rest of the loop.
  abbrev round : (ℕ → List ℕ → Read (List A)) → ℕ → List ℕ → Read (A × List ℕ) → Read (List A)
  round next n buf item = item >>= λ (x, behind).
      next (less n (length buf - length behind)) behind >>= λ xs. decoded (x ∷ xs)

  round-same :
      (p q : ℕ → List ℕ → Read (List A)) (n i : ℕ) (buf : List ℕ) (item : Read (A × List ℕ))
      → Holds (λ r. length r.1 < i) item
      → ((m : ℕ) (rest : List ℕ) → length rest < i → p m rest ≡ q m rest)
      → round p n buf item ≡ round q n buf item
  round-same p q n i buf (decoded (x, behind)) h e =
      ap (λ (d : Read (List A)). d >>= λ xs. decoded (x ∷ xs))
        (e (less n (length buf - length behind)) behind h)
  round-same p q n i buf (rejected err) h e = refl
  round-same p q n i buf overrun h e = refl

  parse_loop-enough :
      (k j n : ℕ) (buf : List ℕ)
      → length buf ≤ k
      → length buf ≤ j
      → parse_loop alloc k n buf ≡ parse_loop alloc j n buf
  unfolding parse_loop
  parse_loop-enough k j zero buf h l = refl
  parse_loop-enough zero zero (suc n) buf h l = refl
  parse_loop-enough zero (suc j) (suc n) [] h l = rw empty refl
  parse_loop-enough (suc k) zero (suc n) [] h l = rw empty refl
  parse_loop-enough zero (suc j) (suc n) (b ∷ buf) h l = absurd (omega arith)
  parse_loop-enough (suc k) zero (suc n) (b ∷ buf) h l = absurd (omega arith)
  parse_loop-enough (suc k) (suc j) (suc n) buf h l =
      round-same (parse_loop alloc k) (parse_loop alloc j) (suc n) (length buf) buf (alloc buf)
        (shrinks buf) (λ m rest e. parse_loop-enough k j m rest (omega arith) (omega arith))

-- The loops of var_bind_parse and search_range_parse for AgentX come to the same result with any
-- two numbers of rounds that are not below the number of bytes left, so they end within as many
-- rounds as there are bytes, whatever the message.
pub parse_loop-enough_rounds :
    (flags k j n : ℕ) (buf : List ℕ)
    → length buf ≤ k
    → length buf ≤ j
    → (parse_loop (var_bind_alloc flags) k n buf ≡ parse_loop (var_bind_alloc flags) j n buf)
      × (parse_loop search_range_alloc k n buf ≡ parse_loop search_range_alloc j n buf)
unfolding var_bind_alloc search_range_alloc get16 get_bytes oid_room value_room
parse_loop-enough_rounds flags k j n buf h l = (
  parse_loop-enough (var_bind_alloc flags) (var_bind_alloc-Holds flags) refl k j n buf h l,
  parse_loop-enough search_range_alloc search_range_alloc-Holds refl k j n buf h l,
)
