-- ===== src/Agentx/Bindings.antt =====
-- Variable bindings of AgentX messages (core/agentx_msg_out.c) as they are read back
-- (core/agentx_msg_in.c).
use smithsnmp.Base.{
  ℕ, ◌+◌, ◌-◌, ◌*◌, ◌/◌, ◌%◌, ◌≤◌, ◌<◌, ◌≡◌, refl, sym, ap, ap₂, ◌∙◌, subst, arith, true, false,
  List, [], ◌∷◌, ◌++◌, ◌==◌, ◌||◌, if◌then◌else◌, leb, ltb, le→leb, length, take, drop, le32,
  read32, read32-le32, IsWord, All, words, read_words, read_words-words, length-append,
  append_assoc, drop-length-append, take-length-append, take-length, zeros, length-zeros,
  append-nil,
}
use smithsnmp.Asn1.{asn1_tag_cnt64, asn1_tag_objid, asn1_value_max_len}
use smithsnmp.Parse.{decoded}
use smithsnmp.Ber.Value.{is_octets}
use smithsnmp.Ber.Value.RoundTrip.{read_word}
use smithsnmp.Agentx.{is_word, read_at, agentx_value_dec_try, agentx_value_dec, uint_sizeof}
use smithsnmp.Agentx.Message.{agentx_err_vb_oid_len, XVarBind, value_room, get_value}
use smithsnmp.Agentx.Encode.{le16, objid_enc, data_enc, var_bind_enc}
use smithsnmp.Agentx.Decode.{var_bind_alloc}
use smithsnmp.Agentx.Fields.{
  IsLittle, get16-le16, IsPrefixed, value_room-objid_enc, get_value-objid_enc, behind_oid-objid_enc,
  oid_room-objid_enc, length-IsPrefixed, words-IsPrefixed,
}

-- A value that can be sent, by its type, its number of bytes and its memory.
pub data IsXValue : ℕ → ℕ → List ℕ → Type 0 where
  one_word : (type v : ℕ) → is_word type ≡ true → IsWord v → IsXValue type 4 (le32 v)
  two_words : (v w : ℕ) → IsWord v → IsWord w → IsXValue asn1_tag_cnt64 8 (le32 v ++ le32 w)
  octets :
      (type : ℕ) (s : List ℕ) → is_octets type ≡ true → length s ≤ 1024 → IsXValue type (length s) s
  identifier :
      (oid : List ℕ) → IsPrefixed oid → IsXValue asn1_tag_objid (length oid * 4) (words oid)
  nothing :
      (type : ℕ)
      → (is_word type || type == asn1_tag_cnt64 || is_octets type || type == asn1_tag_objid) ≡ false
      → IsXValue type 0 []

-- A binding that can be sent.
pub record IsXVarBind (vb : XVarBind) : Type 0 where
  pub oid : IsPrefixed vb.oid
  pub type : vb.val_type < 256
  pub value : IsXValue vb.val_type vb.val_len vb.value

-- The number of elements of a value of some bytes.
abbrev pub elements : ℕ → ℕ → ℕ
elements type val_len =
    if is_word type || type == asn1_tag_cnt64
    then 1
    else if type == asn1_tag_objid
    then val_len / 4
    else val_len

-- The room that is announced for it.
abbrev pub room_of : ℕ → ℕ → ℕ
room_of type val_len = if is_word type || type == asn1_tag_cnt64 then 8 else val_len

-- A binding as it is received.
abbrev pub received : XVarBind → XVarBind
received vb = record vb { val_len = elements vb.val_type vb.val_len }

octets_tests :
    (type : ℕ)
    → is_octets type ≡ true
    → (is_word type ≡ false)
      × ((type == asn1_tag_cnt64) ≡ false)
      × ((type == asn1_tag_objid) ≡ false)
octets_tests type h = (ground arith, ground arith, ground arith)

nothing_tests :
    (type : ℕ)
    → (is_word type || type == asn1_tag_cnt64 || is_octets type || type == asn1_tag_objid) ≡ false
    → (is_word type ≡ false)
      × ((type == asn1_tag_cnt64) ≡ false)
      × (is_octets type ≡ false)
      × ((type == asn1_tag_objid) ≡ false)
nothing_tests type h = (ground arith, ground arith, ground arith, ground arith)

-- The bytes of a string.
abbrev string_bytes : List ℕ → List ℕ
string_bytes s = le32 (length s) ++ s ++ zeros (uint_sizeof (length s) - length s)

-- What is written for a value.
abbrev bytes_of : {type val_len : ℕ} {value : List ℕ} → IsXValue type val_len value → List ℕ
bytes_of (one_word type v t h) = le32 v
bytes_of (two_words v w h i) = le32 v ++ le32 w
bytes_of (octets type s t h) = string_bytes s
bytes_of (identifier oid i) = objid_enc oid
bytes_of (nothing type t) = []

stored_words : (oid : List ℕ) → All IsWord oid → read_words (words oid) (length oid * 4 / 4) ≡ oid
stored_words oid h =
    let n : length oid * 4 / 4 ≡ length oid = omega arith in
    rw n (
      ap (λ m. read_words m (length oid)) (sym (append-nil (words oid)))
      ∙ read_words-words oid [] h)

data_enc-bytes_of :
    (vb : XVarBind) {type val_len : ℕ} {value : List ℕ} (v : IsXValue type val_len value)
    → vb.val_type ≡ type
    → vb.val_len ≡ val_len
    → vb.value ≡ value
    → data_enc vb ≡ bytes_of v
unfolding data_enc
data_enc-bytes_of vb (one_word type v t h) e l m = rw (e, m, t) (ap le32 (read_word v h))
data_enc-bytes_of vb (two_words v w h i) e l m =
    rw (e, m) (ap₂ (λ a b. le32 a ++ le32 b) (read_word v h) (read_word w i))
data_enc-bytes_of vb (octets type s t h) e l m =
    let tests = octets_tests type t in rw (e, l, m, tests.0, tests.1, t, take-length s) refl
data_enc-bytes_of vb (identifier oid i) e l m =
    rw (e, l, m) (ap objid_enc (stored_words oid (words-IsPrefixed i)))
data_enc-bytes_of vb (nothing type t) e l m =
    let tests = nothing_tests type t in rw (e, tests.0, tests.1, tests.2, tests.3) refl

module _ (s rest : List ℕ) (short : length s ≤ 1024) where
  padding : List ℕ
  padding = zeros (uint_sizeof (length s) - length s)

  string_front : string_bytes s ++ rest ≡ le32 (length s) ++ (s ++ (padding ++ rest))
  unfolding padding
  string_front = ap (λ t. le32 (length s) ++ t) (append_assoc s padding rest)

  string_length : read32 (string_bytes s ++ rest) ≡ length s
  string_length =
      ap read32 string_front ∙ read32-le32 (length s) (s ++ (padding ++ rest)) (omega arith)

  string_size : length (string_bytes s) ≡ 4 + uint_sizeof (length s)
  string_size =
      let n = uint_sizeof (length s) - length s in
      omega (arith, length-append s (zeros n), length-zeros n)

  string_rest : drop (4 + uint_sizeof (length s)) (string_bytes s ++ rest) ≡ rest
  string_rest =
      subst (λ n. drop n (string_bytes s ++ rest) ≡ rest) string_size
        (drop-length-append (string_bytes s) rest)

  string_value : take (length s) (drop 4 (string_bytes s ++ rest)) ≡ s
  string_value =
      ap (λ t. take (length s) (drop 4 t)) string_front ∙ take-length-append s (padding ++ rest)

  string_enough : leb (4 + length s) (length (string_bytes s ++ rest)) ≡ true
  string_enough = le→leb _ _ (omega (arith, length-append (string_bytes s) rest, string_size))

  string_probe : leb 4 (length (string_bytes s ++ rest)) ≡ true
  string_probe = le→leb _ _ (omega (arith, length-append (string_bytes s) rest, string_size))

  get_value-string :
      (type : ℕ)
      → is_octets type ≡ true
      → get_value type (string_bytes s ++ rest) ≡ decoded (length s, s, rest)
  unfolding get_value agentx_value_dec read_at
  get_value-string type t =
      let tests = octets_tests type t in
      rw
        (
          get_value, agentx_value_dec, tests.0, tests.1, t, string_length, string_enough,
          string_value, string_rest,
        )
        refl

  value_room-string :
      (type : ℕ)
      → is_octets type ≡ true
      → value_room type (string_bytes s ++ rest) ≡ decoded (length s)
  unfolding value_room agentx_value_dec_try
  value_room-string type t =
      let tests = octets_tests type t in rw (tests.0, tests.1, t, string_probe, string_length) refl

get_value-bytes_of :
    {type val_len : ℕ} {value : List ℕ} (v : IsXValue type val_len value) (rest : List ℕ)
    → get_value type (bytes_of v ++ rest) ≡ decoded (elements type val_len, value, rest)
unfolding get_value agentx_value_dec read_at
get_value-bytes_of (one_word type v t h) rest =
    rw (get_value, agentx_value_dec, t, le→leb 4 (length (le32 v ++ rest)) (omega arith)) refl
get_value-bytes_of (two_words v w h i) rest =
    rw (get_value, agentx_value_dec, le→leb 8 (length (le32 v ++ (le32 w ++ rest))) (omega arith))
      refl
get_value-bytes_of (octets type s t h) rest =
    let tests = octets_tests type t in
    get_value-string s rest h type t ∙ rw (tests.0, tests.1, tests.2) refl
get_value-bytes_of (identifier oid i) rest =
    get_value-objid_enc rest i ∙ ap (λ n. decoded (n, words oid, rest)) (omega arith)
get_value-bytes_of (nothing type t) rest =
    let tests = nothing_tests type t in
    rw (get_value, agentx_value_dec, tests.0, tests.1, tests.2, tests.3) refl

value_room-bytes_of :
    {type val_len : ℕ} {value : List ℕ} (v : IsXValue type val_len value) (rest : List ℕ)
    → value_room type (bytes_of v ++ rest) ≡ decoded (room_of type val_len)
unfolding value_room agentx_value_dec_try
value_room-bytes_of (one_word type v t h) rest =
    rw (t, le→leb 0 (length (le32 v ++ rest)) (omega arith)) refl
value_room-bytes_of (two_words v w h i) rest =
    rw (value_room, le→leb 0 (length (le32 v ++ (le32 w ++ rest))) (omega arith)) refl
value_room-bytes_of (octets type s t h) rest =
    let tests = octets_tests type t in
    value_room-string s rest h type t ∙ rw (tests.0, tests.1) refl
value_room-bytes_of (identifier oid i) rest = value_room-objid_enc rest i
value_room-bytes_of (nothing type t) rest =
    let tests = nothing_tests type t in
    rw (value_room, tests.0, tests.1, tests.2, tests.3, le→leb 0 (length rest) (omega arith)) refl

room_fits :
    {type val_len : ℕ} {value : List ℕ}
    → IsXValue type val_len value
    → ltb asn1_value_max_len (room_of type val_len) ≡ false
room_fits (one_word type v t h) = rw t refl
room_fits (two_words v w h i) = refl
room_fits (octets type s t h) =
    let tests = octets_tests type t in rw (tests.0, tests.1) (ground arith)
room_fits (identifier oid i) = ground (arith, length-IsPrefixed i)
room_fits (nothing type t) = let tests = nothing_tests type t in rw (tests.0, tests.1) refl

module _ (flags : ℕ) (vb : XVarBind) (rest : List ℕ) (little : IsLittle flags)
    (right : IsXVarBind vb) where
  value_bytes : List ℕ
  value_bytes = bytes_of right.value

  data_bytes : data_enc vb ≡ value_bytes
  unfolding value_bytes
  data_bytes = data_enc-bytes_of vb right.value refl refl refl

  binding_bytes :
      var_bind_enc vb ++ rest
      ≡ le16 vb.val_type ++ (0 ∷ 0 ∷ (objid_enc vb.oid ++ (value_bytes ++ rest)))
  unfolding var_bind_enc
  binding_bytes =
      ap (λ t. le16 vb.val_type ++ (0 ∷ 0 ∷ t))
        (append_assoc (objid_enc vb.oid) (data_enc vb) rest
          ∙ ap (λ t. objid_enc vb.oid ++ (t ++ rest)) data_bytes)

  type_byte : vb.val_type % 256 ≡ vb.val_type
  type_byte = let h = right.type in omega arith

  oid_words : read_words (words vb.oid) (length vb.oid) ≡ vb.oid
  oid_words =
      ap (λ m. read_words m (length vb.oid)) (sym (append-nil (words vb.oid)))
      ∙ read_words-words vb.oid [] (words-IsPrefixed right.oid)

  alloc_read :
      var_bind_alloc flags
        (le16 vb.val_type ++ (0 ∷ 0 ∷ (objid_enc vb.oid ++ (value_bytes ++ rest))))
      ≡ decoded (received vb, rest)
  unfolding var_bind_alloc value_bytes
  alloc_read =
      rw
        (
          get16-le16 flags vb.val_type (0 ∷ 0 ∷ (objid_enc vb.oid ++ (value_bytes ++ rest))) little
              (let h = right.type in omega arith),
          type_byte,
          oid_room-objid_enc (value_bytes ++ rest) agentx_err_vb_oid_len right.oid,
          behind_oid-objid_enc (value_bytes ++ rest) right.oid,
          value_room-bytes_of right.value rest,
          room_fits right.value,
          get_value-objid_enc (value_bytes ++ rest) right.oid,
          get_value-bytes_of right.value rest,
          oid_words,
        )
        refl

  pub var_bind_alloc-var_bind_enc :
      var_bind_alloc flags (var_bind_enc vb ++ rest) ≡ decoded (received vb, rest)
  var_bind_alloc-var_bind_enc = ap (var_bind_alloc flags) binding_bytes ∙ alloc_read
