-- ===== src/Snmp/Request.antt =====
-- `snmp_get`, `snmp_getnext`, `snmp_set` and `snmp_bulkget` of core/snmp_msg_proc.c: the variable bindings of a request are answered
-- one after the other. `snmp_response`, which sends the result, is not part of them here.
pub mod Answers
pub mod Found
pub mod Encoded
pub mod Passes
pub mod Bindings
use smithsnmp.Base.{
  ℕ, zero, suc, ◌+◌, ◌%◌, ◌^◌, Bool, not, ◌&&◌, Option, none, some, List, [], ◌∷◌, ◌++◌, ◌==◌, ltb,
  if◌then◌else◌, length, words, overlay,
}
use smithsnmp.Asn1.{asn1_tag_objid, asn1_tag_valid}
use smithsnmp.Ber.Length.{ber_length_enc_try}
use smithsnmp.Ber.Value.{value_size, ber_value_enc_try, ber_value_enc, ber_value_dec}
use smithsnmp.Mib.Tree.{MibNode}
use smithsnmp.Mib.View.{MibCommunity}
use smithsnmp.Mib.Instance.{
  Variable, OidSearchRes, Lua, snmp_req_get, snmp_req_getnext, snmp_req_set,
}
use smithsnmp.Snmp.Access.{
  Outcome, returned, aborted, running, Sender, mib_get, mib_set, mib_getnext,
}

-- `var_bind`; the length of the value is that of the list.
pub record VarBind : Type 0 where
  pub oid : List ℕ
  pub vb_len : ℕ
  pub value_type : ℕ
  pub value : List ℕ

-- The parts of `snmp_datagram` that the two functions change. `vb_out_list` is the list so far.
pub record Datagram : Type 0 where
  pub err_stat : ℕ
  pub err_idx : ℕ
  pub vb_list_len : ℕ
  pub vb_out_cnt : ℕ
  pub vb_out_list : List VarBind

abbrev pub snmp_err_stat_not_writable : ℕ
snmp_err_stat_not_writable = 17

-- `tag(&ret_oid.var) = ...; length(&ret_oid.var) = ber_value_dec(...)`
unfoldable pub decode_value : VarBind → OidSearchRes → OidSearchRes
decode_value vb_in res =
    let (len, bytes) = ber_value_dec vb_in.value vb_in.value_type in
    record res {
      var = record {
        tag = vb_in.value_type;
        len = len % 2 ^ 16;
        value = overlay bytes res.var.value;
      };
    }

-- The first error is marked, with the position of its binding.
unfoldable pub mark_error : ℕ → ℕ → Datagram → Datagram
mark_error err_stat vb_in_cnt sdg =
    if not (err_stat == 0) && sdg.err_stat == 0
    then record sdg { err_stat = err_stat; err_idx = vb_in_cnt }
    else sdg

-- The encoded value: `none` where its size is not found, or the encoding is longer than the memory that
-- was allocated by it. `count` gives the number of elements to be encoded, of the size.
unfoldable pub encoded : (ℕ → ℕ) → Variable → Option (List ℕ)
unfolding ber_value_enc_try ber_value_enc
encoded count var = elim (ber_value_enc_try var.value var.len var.tag) [
  | none ↦ none
  | some val_len ↦
      let value = ber_value_enc var.value (count val_len) var.tag in
      if ltb val_len (length value) then none else some value
]

-- The datagram, if the size of the identifier is found.
unfoldable pub measured : List ℕ → Datagram → Option Datagram
unfolding ber_value_enc_try
measured oid sdg = elim (ber_value_enc_try (words oid) (length oid) asn1_tag_objid) [
  | none ↦ none
  | some oid_len ↦ some sdg
]

-- The length of a binding, without its own tag and length, where the size of the identifier is found.
unfoldable pub vb_length : List ℕ → ℕ → ℕ
vb_length oid value_len =
    let oid_len = value_size (words oid) (length oid) asn1_tag_objid in
    1 + ber_length_enc_try oid_len + oid_len + (1 + ber_length_enc_try value_len + value_len)

-- The lengths, and the binding at the end of the list. A datagram has far fewer than 2 ^ 32 bindings.
unfoldable pub add_binding : List ℕ → ℕ → List ℕ → Datagram → Datagram
unfolding vb_length
add_binding oid value_type value sdg =
    let vb_len = vb_length oid (length value) in
    record sdg {
      vb_list_len = (sdg.vb_list_len + (1 + ber_length_enc_try vb_len + vb_len)) % 2 ^ 32;
      vb_out_cnt = sdg.vb_out_cnt + 1;
      vb_out_list =
          sdg.vb_out_list
          ++ (record { oid = oid; vb_len = vb_len; value_type = value_type; value = value } ∷ []);
    }

-- What follows `mib_get` in a round; `none` where memory is exceeded or a size is not found.
unfoldable pub answer_get : ℕ → VarBind → OidSearchRes → Datagram → Option Datagram
unfolding mark_error add_binding encoded measured
answer_get vb_in_cnt vb_in ret_oid sdg = elim (encoded (λ val_len. ret_oid.var.len) ret_oid.var) [
  | none ↦ none
  | some value ↦
      measured ret_oid.oid
        (add_binding ret_oid.oid ret_oid.var.tag value (mark_error ret_oid.err_stat vb_in_cnt sdg))
]

-- Invalid tags convert to an error status.
unfoldable pub set_error : OidSearchRes → OidSearchRes
set_error ret_oid =
    if ret_oid.err_stat == 0 && not (asn1_tag_valid ret_oid.var.tag)
    then record ret_oid { err_stat = snmp_err_stat_not_writable }
    else ret_oid

-- What follows `mib_set` in a round. The value is encoded with its number of bytes for its number of
-- elements.
unfoldable pub answer_set : ℕ → VarBind → OidSearchRes → Datagram → Option Datagram
unfolding mark_error add_binding encoded measured
answer_set vb_in_cnt vb_in ret_oid sdg = elim (encoded (λ val_len. val_len) ret_oid.var) [
  | none ↦ none
  | some value ↦
      measured ret_oid.oid
        (add_binding ret_oid.oid vb_in.value_type value (mark_error ret_oid.err_stat vb_in_cnt sdg))
]

-- The state of the interpreter and the datagram after a request, or why there is none: an assertion
-- failed, the answer to a search result exceeded memory or found no size, or the rounds did not do.
pub data Served {ℓ} (S : Type ℓ) : Type ℓ where
  served : Datagram → S → Served S
  exceeded : OidSearchRes → Served S
  failed unfinished : Served S

-- The loop over the bindings, `vb_in_cnt` bindings into the request; all answers are in memory, so the
-- counter stays below 2 ^ 32. The search result is one
-- structure, which goes through all rounds; `settle` is what is done to it before the answer. What
-- follows the loop is given the bindings with the identifiers that the searches have returned.
module _ {ℓ} {S : Type ℓ} (search : List ℕ → OidSearchRes → S → Outcome S)
    (settle : OidSearchRes → OidSearchRes)
    (answer : ℕ → VarBind → OidSearchRes → Datagram → Option Datagram) where
  unfoldable pub pass :
      (ℕ → List VarBind → OidSearchRes → Datagram → S → Served S)
      → ℕ
      → List VarBind
      → OidSearchRes
      → Datagram
      → S
      → Served S
  unfolding decode_value
  pass next vb_in_cnt [] ret_oid sdg st = next vb_in_cnt [] ret_oid sdg st
  pass next vb_in_cnt (vb_in ∷ vbs) ret_oid sdg st =
      elim (search vb_in.oid (decode_value vb_in ret_oid) st) [
        | returned res st' ↦ elim (answer (suc vb_in_cnt) vb_in (settle res) sdg) [
          | none ↦ exceeded (settle res)
          | some sdg' ↦
              pass (λ n vbs'. next n (record vb_in { oid = (settle res).oid } ∷ vbs'))
                (suc vb_in_cnt) vbs (settle res) sdg' st'
        ]
        | aborted ↦ failed
        | running ↦ unfinished
      ]

-- The end of a request without `snmp_response`.
abbrev pub finish {ℓ} : {S : Type ℓ} → ℕ → List VarBind → OidSearchRes → Datagram → S → Served S
finish n vbs ret_oid sdg st = served sdg st

-- `memset(&ret_oid, 0, sizeof(ret_oid))`, and the request.
abbrev pub cleared : ℕ → OidSearchRes
cleared request = record {
  oid = [];
  inst_id = [];
  callback = 0;
  request = request;
  err_stat = 0;
  var = record { tag = 0; len = 0; value = [] };
}

-- The rounds of `snmp_bulkget`: each continues at the identifiers that the one before returned.
unfoldable pub bulk_loop {ℓ} :
    {S : Type ℓ}
    → (List ℕ → OidSearchRes → S → Outcome S)
    → ℕ
    → ℕ
    → List VarBind
    → OidSearchRes
    → Datagram
    → S
    → Served S
unfolding pass answer_get
bulk_loop search zero vb_in_cnt vbs ret_oid sdg st = served sdg st
bulk_loop search (suc repeat) vb_in_cnt vbs ret_oid sdg st =
    pass search (λ res. res) answer_get (bulk_loop search repeat) vb_in_cnt vbs ret_oid sdg st

module _ (lua : Lua) (root : MibNode) (k : ℕ) (cs : List MibCommunity) (sender : Sender) where
  unfoldable pub snmp_get : List VarBind → Datagram → lua.State → Served lua.State
  unfolding pass answer_get mib_get
  snmp_get vb_in_list sdg st =
      pass (mib_get lua root k cs sender) (λ res. res) answer_get finish 0 vb_in_list
        (cleared snmp_req_get) sdg st

  unfoldable pub snmp_set : List VarBind → Datagram → lua.State → Served lua.State
  unfolding pass set_error answer_set mib_set
  snmp_set vb_in_list sdg st =
      pass (mib_set lua root k cs sender) set_error answer_set finish 0 vb_in_list
        (cleared snmp_req_set) sdg st

  -- The two that search behind the identifiers; `f` is the number of rounds for each view.
  unfoldable pub snmp_getnext : ℕ → List VarBind → Datagram → lua.State → Served lua.State
  unfolding pass answer_get mib_getnext
  snmp_getnext f vb_in_list sdg st =
      pass (mib_getnext lua root f k cs sender) (λ res. res) answer_get finish 0 vb_in_list
        (cleared snmp_req_getnext) sdg st

  -- The number of rounds stands where another request has its error index, and is read as a
  -- `uint32_t`.
  unfoldable pub snmp_bulkget : ℕ → List VarBind → Datagram → lua.State → Served lua.State
  unfolding bulk_loop mib_getnext
  snmp_bulkget f vb_in_list sdg st =
      bulk_loop (mib_getnext lua root f k cs sender) (sdg.err_idx % 2 ^ 32) 0 vb_in_list
        (cleared snmp_req_getnext) (record sdg { err_idx = 0 }) st
