-- ===== src/Agentx/Process.antt =====
-- `agentx_get`, `agentx_getnext` and `agentx_set` of core/agentx_msg_proc.c without `agentx_response`: the
-- ranges or bindings of a request are answered one after the other, through a view of 1.3.6.1.
use smithsnmp.Base.{
  ℕ, suc, ◌+◌, ◌%◌, ◌^◌, Bool, not, ◌&&◌, ◌||◌, Option, none, some, List, [], ◌∷◌, ◌++◌, ◌==◌, ltb,
  if◌then◌else◌, length, take, overlay, is_negative,
}
use smithsnmp.Asn1.{asn1_tag_valid, asn1_tag_end_of_mib_view}
use smithsnmp.Oid.{oid_cmp}
use smithsnmp.Mib.Tree.{MibNode}
use smithsnmp.Mib.View.{MibView}
use smithsnmp.Mib.Instance.{
  Variable, OidSearchRes, Lua, Outcome, returned, aborted, running, snmp_req_get, snmp_req_getnext,
  snmp_req_set,
}
use smithsnmp.Mib.Search.{mib_tree_search}
use smithsnmp.Mib.Next.{mib_tree_search_next}
use smithsnmp.Snmp.Request.{set_error, cleared}
use smithsnmp.Agentx.{agentx_value_enc_try, agentx_value_enc}
use smithsnmp.Agentx.Message.{XSearchRange, XVarBind, AgentxDatagram}

-- `agentx_dummy_view`
abbrev pub agentx_dummy_view : MibView
agentx_dummy_view = record { addr = 0; oid = 1 ∷ 3 ∷ 6 ∷ 1 ∷ [] }

abbrev pub agentx_err_stat_not_writable : ℕ
agentx_err_stat_not_writable = 17

-- The first error is marked, with the position of its range or binding.
unfoldable pub mark_error : ℕ → ℕ → AgentxDatagram → AgentxDatagram
mark_error err_stat cnt xdg =
    if not (err_stat == 0) && xdg.response.error == 0
    then record xdg {
      response = record (xdg.response) { error = err_stat % 2 ^ 16; index = cnt % 2 ^ 16 };
    }
    else xdg

-- The binding at the end of the list. The value is given with its number of bytes.
unfoldable pub add_binding : List ℕ → ℕ → List ℕ → AgentxDatagram → AgentxDatagram
add_binding oid val_type value xdg = record xdg {
  vb_out_cnt = xdg.vb_out_cnt + 1;
  vb_out_list =
      xdg.vb_out_list
      ++ (record { oid = oid; val_type = val_type; val_len = length value; value = value } ∷ []);
}

-- The encoded value, `none` where it is longer than the memory that was allocated by its size. `count`
-- gives the number of elements to be encoded, of the size.
unfoldable pub encoded : (ℕ → ℕ) → Variable → Option (List ℕ)
unfolding agentx_value_enc_try agentx_value_enc
encoded count var =
    let val_len = agentx_value_enc_try var.len var.tag in
    let value = agentx_value_enc var.value (count val_len) var.tag in
    if ltb val_len (length value) then none else some value

-- What follows the search in a round of `agentx_get` and `agentx_getnext`.
unfoldable pub answer_get : ℕ → XSearchRange → OidSearchRes → AgentxDatagram → Option AgentxDatagram
unfolding mark_error add_binding encoded
answer_get cnt sr_in ret_oid xdg = elim (encoded (λ val_len. ret_oid.var.len) ret_oid.var) [
  | none ↦ none
  | some value ↦
      some (mark_error ret_oid.err_stat cnt (add_binding ret_oid.oid ret_oid.var.tag value xdg))
]

-- What follows it in a round of `agentx_set`. The value is encoded with its number of bytes for its
-- number of elements.
unfoldable pub answer_set : ℕ → XVarBind → OidSearchRes → AgentxDatagram → Option AgentxDatagram
unfolding mark_error add_binding encoded
answer_set cnt vb_in ret_oid xdg = elim (encoded (λ val_len. val_len) ret_oid.var) [
  | none ↦ none
  | some value ↦
      some (mark_error ret_oid.err_stat cnt (add_binding ret_oid.oid vb_in.val_type value xdg))
]

-- The value to be set.
unfoldable pub decode_value : XVarBind → OidSearchRes → OidSearchRes
unfolding agentx_value_enc_try
decode_value vb_in res =
    let tag = vb_in.val_type % 256 in
    let len = vb_in.val_len % 2 ^ 16 in
    record res {
      var = record {
        tag = tag;
        len = len;
        value = overlay (take (agentx_value_enc_try len tag) vb_in.value) res.var.value;
      };
    }

-- The state of the interpreter and the datagram after a request, or why there is none: an assertion
-- failed, the value of a search result exceeded memory, or the rounds did not do.
pub data Processed {ℓ} (S : Type ℓ) : Type ℓ where
  processed : AgentxDatagram → S → Processed S
  exceeded : OidSearchRes → Processed S
  failed unfinished : Processed S

-- The loop over the ranges or the bindings. The search result is one structure, which goes through all
-- rounds.
module _ {ℓ} {S : Type ℓ} {A : Type 0} (search : A → OidSearchRes → S → Outcome S)
    (settle : OidSearchRes → OidSearchRes)
    (answer : ℕ → A → OidSearchRes → AgentxDatagram → Option AgentxDatagram) where
  unfoldable pub pass : ℕ → List A → OidSearchRes → AgentxDatagram → S → Processed S
  pass cnt [] ret_oid xdg st = processed xdg st
  pass cnt (x ∷ xs) ret_oid xdg st = elim (search x ret_oid st) [
    | returned res st' ↦ elim (answer (suc cnt) x (settle res) xdg) [
      | none ↦ exceeded (settle res)
      | some xdg' ↦ pass (suc cnt) xs (settle res) xdg' st'
    ]
    | aborted ↦ failed
    | running ↦ unfinished
  ]

-- The search returns, or an assertion failed.
abbrev pub outcome_of {ℓ} : {S : Type ℓ} → Option OidSearchRes × S → Outcome S
outcome_of (none, st) = aborted
outcome_of (some res, st) = returned res st

-- Whether a search gave no value.
unfoldable pub is_invalid : OidSearchRes → Bool
is_invalid res = not (res.err_stat == 0) || not (asn1_tag_valid res.var.tag)

-- Whether an identifier exceeds the end of a range.
unfoldable pub exceeds : XSearchRange → List ℕ → Bool
unfolding oid_cmp
exceeds sr_in oid =
    let order = oid_cmp oid sr_in.end in
    if sr_in.end_include == 0
    then not (is_negative order)
    else not (is_negative order) && not (order == 0)

-- The result of the search behind the start, if it is in the range.
unfoldable pub within_range : XSearchRange → OidSearchRes → OidSearchRes
unfolding is_invalid exceeds
within_range sr_in res =
    if not (is_invalid res) && exceeds sr_in res.oid
    then record res {
      oid = sr_in.start;
      inst_id = [];
      var = record (res.var) { tag = asn1_tag_end_of_mib_view };
    }
    else res

-- `k` rounds are given to the search in the tree.
module _ (lua : Lua) (root : MibNode) (k : ℕ) where
  unfoldable pub mib_get : XSearchRange → OidSearchRes → lua.State → Outcome lua.State
  unfolding mib_tree_search
  mib_get sr_in ret_oid st =
      outcome_of (mib_tree_search lua root st agentx_dummy_view sr_in.start ret_oid)

  -- The search behind the start.
  unfoldable pub search_behind : XSearchRange → OidSearchRes → lua.State → Outcome lua.State
  unfolding mib_tree_search_next within_range
  search_behind sr_in ret_oid st =
      elim (mib_tree_search_next lua agentx_dummy_view sr_in.start k root ret_oid st) [
        | returned res st' ↦ returned (within_range sr_in res) st'
        | aborted ↦ aborted
        | running ↦ running
      ]

  unfoldable pub mib_getnext : XSearchRange → OidSearchRes → lua.State → Outcome lua.State
  unfolding mib_tree_search search_behind is_invalid
  mib_getnext sr_in ret_oid st =
      if sr_in.start_include == 0
      then search_behind sr_in ret_oid st
      else elim (outcome_of (mib_tree_search lua root st agentx_dummy_view sr_in.start ret_oid)) [
        | returned res st' ↦
            if is_invalid res then search_behind sr_in res st' else returned res st'
        | aborted ↦ aborted
        | running ↦ running
      ]

  unfoldable pub mib_set : XVarBind → OidSearchRes → lua.State → Outcome lua.State
  unfolding mib_tree_search decode_value
  mib_set vb_in ret_oid st =
      outcome_of
        (mib_tree_search lua root st agentx_dummy_view vb_in.oid (decode_value vb_in ret_oid))

  unfoldable pub agentx_get : AgentxDatagram → lua.State → Processed lua.State
  unfolding pass answer_get mib_get
  agentx_get xdg st =
      pass mib_get (λ res. res) answer_get 0 xdg.sr_in_list (cleared snmp_req_get) xdg st

  unfoldable pub agentx_getnext : AgentxDatagram → lua.State → Processed lua.State
  unfolding pass answer_get mib_getnext
  agentx_getnext xdg st =
      pass mib_getnext (λ res. res) answer_get 0 xdg.sr_in_list (cleared snmp_req_getnext) xdg st

  unfoldable pub agentx_set : AgentxDatagram → lua.State → Processed lua.State
  unfolding pass answer_set mib_set set_error
  agentx_set xdg st =
      pass mib_set set_error answer_set 0 xdg.vb_in_list (cleared snmp_req_set) xdg st
