-- ===== src/Mib/Instance.antt =====
-- `mib_instance_search` of core/mib_tree.c: the call of the handler that a MIB group registered. The
-- Lua interpreter and the handlers are parameters.
use smithsnmp.Base.{
  ℕ, ◌%◌, ◌^◌, ◌&&◌, Option, none, some, List, map, ◌==◌, if◌then◌else◌, length, take, le32, read32,
  read_words, words, overlay,
}
use smithsnmp.Asn1.{
  asn1_tag_int, asn1_tag_octstr, asn1_tag_objid, asn1_tag_ipaddr, asn1_tag_cnt, asn1_tag_gau,
  asn1_tag_timeticks, asn1_tag_no_such_obj, asn1_tag_valid,
}

-- `Variable` of core/asn1.h: the union is its memory.
pub record Variable : Type 0 where
  pub tag : ℕ
  pub len : ℕ
  pub value : List ℕ

-- The identifier is `id_len` long, and `inst_id` is its part from the pointer of that name on.
pub record OidSearchRes : Type 0 where
  pub oid : List ℕ
  pub inst_id : List ℕ
  pub callback : ℕ
  pub request : ℕ
  pub err_stat : ℕ
  pub var : Variable

-- The outcome of a search: it returned, an assertion failed, or it is still running.
pub data Outcome {ℓ} (S : Type ℓ) : Type ℓ where
  returned : OidSearchRes → S → Outcome S
  aborted running : Outcome S

abbrev pub snmp_req_get : ℕ
snmp_req_get = 0xA0

abbrev pub snmp_req_getnext : ℕ
snmp_req_getnext = 0xA1

abbrev pub snmp_req_set : ℕ
snmp_req_set = 0xA3

-- What is pushed for the handler.
pub data LuaArg : Type 0 where
  nil : LuaArg
  number : ℕ → LuaArg
  lstring : List ℕ → LuaArg
  table : List ℕ → LuaArg

-- The interpreter: its state, its values with the conversions of the C interface (an integer as the
-- number that it is modulo 2 ^ 64, a table as the numbers at 1, 2, ...), and the protected
-- call of a handler with the operation, the sub-identifier, the value and the type. `none` is an
-- error of the handler; otherwise it returns the error status, a sub-identifier, a value and a tag.
pub record Lua : Type 1 where
  pub State : Type 0
  pub Value : Type 0
  pub to_number : Value → ℕ
  pub to_lstring : Value → List ℕ
  pub to_table : Value → List ℕ
  pub pcall :
      State → ℕ → ℕ → List ℕ → LuaArg → LuaArg → Option (Value × Value × Value × Value) × State

-- The value of a SET request, by its tag.
unfoldable pub request_value : Variable → LuaArg
request_value var =
    if var.tag == asn1_tag_int
    then number (read32 var.value)
    else if var.tag == asn1_tag_octstr
    then lstring (take var.len var.value)
    else if var.tag == asn1_tag_cnt
    then number (read32 var.value)
    else if var.tag == asn1_tag_ipaddr
    then lstring (take var.len var.value)
    else if var.tag == asn1_tag_objid
    then table (read_words var.value var.len)
    else if var.tag == asn1_tag_gau
    then number (read32 var.value)
    else if var.tag == asn1_tag_timeticks
    then number (read32 var.value)
    else nil

module _ (lua : Lua) where
  open lua use {State, Value, to_number, to_lstring, to_table, pcall}

  -- The returned value, stored in the union under the new tag. `none` is the failed assertion at
  -- another tag.
  unfoldable pub store_value : Variable → Value → Option Variable
  store_value var v =
      let word : Option Variable =
        some (record var { len = 1; value = overlay (le32 (to_number v % 2 ^ 32)) var.value }) in
      if var.tag == asn1_tag_int
      then word
      else if var.tag == asn1_tag_octstr
      then some (record var {
        len = length (to_lstring v) % 2 ^ 16;
        value = overlay (take (length (to_lstring v) % 2 ^ 16) (to_lstring v)) var.value;
      })
      else if var.tag == asn1_tag_cnt
      then word
      else if var.tag == asn1_tag_ipaddr
      then some (record var {
        len = length (to_table v) % 2 ^ 16;
        value =
            overlay (take (length (to_table v) % 2 ^ 16) (map (λ (x : ℕ). x % 2 ^ 8) (to_table v)))
              var.value;
      })
      else if var.tag == asn1_tag_objid
      then some (record var {
        len = length (to_table v) % 2 ^ 16;
        value = overlay (words (take (length (to_table v) % 2 ^ 16) (to_table v))) var.value;
      })
      else if var.tag == asn1_tag_gau
      then word
      else if var.tag == asn1_tag_timeticks
      then word
      else none

  -- What is done with the four results.
  unfoldable pub accept_reply : OidSearchRes → ℕ → ℕ → Value → Value → Option OidSearchRes
  unfolding store_value
  accept_reply res err tag inst value =
      let var = record (res.var) { tag = tag } in
      let res' = record res { err_stat = err; var = var } in
      let next = if res.request == snmp_req_getnext then to_table inst else res.inst_id in
      if err == 0 && asn1_tag_valid tag
      then (if res.request == snmp_req_set then some res' else elim (store_value var value) [
        | none ↦ none
        | some stored ↦ some (record res' { var = stored; inst_id = next })
      ])
      else some res'

  -- What is done after the protected call.
  unfoldable pub after_call :
      OidSearchRes → Option (Value × Value × Value × Value) → Option OidSearchRes
  unfolding accept_reply
  after_call res none =
      some (record res { err_stat = 0; var = record (res.var) { tag = asn1_tag_no_such_obj } })
  after_call res (some (err, inst, v, tag)) =
      accept_reply res (to_number err) (to_number tag % 2 ^ 8) inst v

  -- The call: `lua_pcall` with what is pushed for it.
  unfoldable pub called : State → OidSearchRes → Option (Value × Value × Value × Value) × State
  unfolding request_value
  called st res =
      let is_set = res.request == snmp_req_set in
      pcall st res.callback res.request res.inst_id (if is_set then request_value res.var else nil)
        (if is_set then number res.var.tag else nil)

  -- The result, with `err_stat` as the caller assigns it, and the state of the interpreter.
  unfoldable pub mib_instance_search : State → OidSearchRes → Option OidSearchRes × State
  unfolding called after_call
  mib_instance_search st res = let (reply, st') = called st res in (after_call res reply, st')
