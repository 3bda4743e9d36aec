-- ===== src/Snmp/Request/Bindings.antt =====
-- What `snmp_get`, `snmp_set`, `snmp_getnext` and `snmp_bulkget` (core/snmp_msg_proc.c) answer: the
-- bindings, and the error that is marked.
use smithsnmp.Base.{ℕ, ◌*◌, ◌%◌, ◌^◌, ◌<◌, ◌≡◌, refl, Option, List, [], length}
use smithsnmp.Mib.Tree.{MibNode}
use smithsnmp.Mib.Tree.Insert.{IsWellFormed}
use smithsnmp.Mib.View.{MibCommunity}
use smithsnmp.Mib.View.Walk.{IsDistinct}
use smithsnmp.Mib.Instance.{OidSearchRes, Lua, snmp_req_get, snmp_req_set, snmp_req_getnext}
use smithsnmp.Mib.Next.Candidates.{rounds}
use smithsnmp.Snmp.Access.{Sender, Outcome, mib_get, mib_set, mib_getnext}
use smithsnmp.Snmp.Access.Ends.{rights}
use smithsnmp.Snmp.Request.{
  VarBind, Datagram, pass, finish, cleared, answer_get, answer_set, set_error, snmp_get, snmp_set,
  snmp_getnext, snmp_bulkget,
}
use smithsnmp.Snmp.Request.Answers.{Adds, Serves, Over, oids, done-Answers, set_error-oid}
use smithsnmp.Snmp.Request.Encoded.{answer_get-Adds, answer_set-Adds}
use smithsnmp.Snmp.Request.Passes.{
  Finds, pass-Serves, same-Over, any-Over, Serves-map, bulk_loop-Serves,
}
use smithsnmp.Snmp.Request.Found.{get-Finds, set-Finds, getnext-Finds}

-- A single pass.
module _ {ℓ} {S : Type ℓ} (search : List ℕ → OidSearchRes → S → Outcome S)
    (settle : OidSearchRes → OidSearchRes)
    (answer : ℕ → VarBind → OidSearchRes → Datagram → Option Datagram)
    (keeps : (res : OidSearchRes) → (settle res).oid ≡ res.oid) (adds : Adds answer)
    (vbs : List VarBind) (ret_oid : OidSearchRes) (sdg : Datagram) (st : S) where
  one_pass :
      (good : VarBind → List ℕ → Type 0)
      → ((vb : VarBind) (res : OidSearchRes) (st : S)
          → Finds (λ o. good vb o) (search vb.oid res st))
      → Serves
          (Over good vbs (λ t. t ≡ []))
          0
          sdg
          (pass search settle answer finish 0 vbs ret_oid sdg st)
  one_pass good finds =
      pass-Serves search settle answer good finds keeps adds (λ t. t ≡ []) finish 0 vbs ret_oid sdg
        st (λ m vbs' res sdg' st' l. ([], refl, done-Answers m sdg'))

  same_pass :
      ((oid : List ℕ) (res : OidSearchRes) (st : S) → Finds (λ o. o ≡ oid) (search oid res st))
      → Serves (λ os. os ≡ oids vbs) 0 sdg (pass search settle answer finish 0 vbs ret_oid sdg st)
  same_pass finds =
      Serves-map (Over (λ vb o. o ≡ vb.oid) vbs (λ t. t ≡ [])) (λ os. os ≡ oids vbs) 0 sdg
        (pass search settle answer finish 0 vbs ret_oid sdg st) (λ os. same-Over vbs os)
        (one_pass (λ vb o. o ≡ vb.oid) (λ vb. finds vb.oid))

module _ (lua : Lua) (root : MibNode) (k : ℕ) (cs : List MibCommunity) (sender : Sender) where
  -- `snmp_get`, when each search is given more rounds than the sender has views for reading, no two
  -- of one address, and no assertion fails and no
  -- result is excessive, answers each binding of the request, in order, with a
  -- binding of the same identifier, and counts them; the mark of an error is as before, or there
  -- was none and its index is between 1 and the number of bindings.
  pub snmp_get-Serves :
      (vbs : List VarBind) (sdg : Datagram) (st : lua.State)
      → IsDistinct (rights cs sender).ro_views
      → length (rights cs sender).ro_views < k
      → Serves (λ os. os ≡ oids vbs) 0 sdg (snmp_get lua root k cs sender vbs sdg st)
  unfolding snmp_get
  snmp_get-Serves vbs sdg st d h =
      same_pass (mib_get lua root k cs sender) (λ res. res) answer_get (λ res. refl) answer_get-Adds
        vbs (cleared snmp_req_get) sdg st
        (λ oid res s. get-Finds lua root k cs sender oid res s d h)

  -- `snmp_set`, when each search is given more rounds than the sender has views for writing, no two
  -- of one address, and no assertion fails and no
  -- result is excessive, answers each binding of the request, in order, with a
  -- binding of the same identifier, and counts them; the mark of an error is as before, or there
  -- was none and its index is between 1 and the number of bindings.
  pub snmp_set-Serves :
      (vbs : List VarBind) (sdg : Datagram) (st : lua.State)
      → IsDistinct (rights cs sender).rw_views
      → length (rights cs sender).rw_views < k
      → Serves (λ os. os ≡ oids vbs) 0 sdg (snmp_set lua root k cs sender vbs sdg st)
  unfolding snmp_set
  snmp_set-Serves vbs sdg st d h =
      same_pass (mib_set lua root k cs sender) set_error answer_set set_error-oid answer_set-Adds
        vbs (cleared snmp_req_set) sdg st
        (λ oid res s. set-Finds lua root k cs sender oid res s d h)

  -- `snmp_getnext` on a tree whose groups ascend, when each search in it is given more than twice
  -- the rounds of the tree and more rounds than the sender has views for reading, no two of one
  -- address, and no assertion fails and no result is excessive, ends and adds to the answer one binding for each binding of
  -- the request, and counts them; the mark of an error is as before, or there was none and its
  -- index is the number of a binding.
  pub snmp_getnext-Serves :
      (f : ℕ) (vbs : List VarBind) (sdg : Datagram) (st : lua.State)
      → IsWellFormed root
      → 2 * rounds root < f
      → IsDistinct (rights cs sender).ro_views
      → length (rights cs sender).ro_views < k
      → Serves (λ os. length os ≡ length vbs) 0 sdg (snmp_getnext lua root k cs sender f vbs sdg st)
  unfolding snmp_getnext
  snmp_getnext-Serves f vbs sdg st w r d h =
      Serves-map (Over (λ vb o. Unit) vbs (λ t. t ≡ [])) (λ os. length os ≡ length vbs) 0 sdg _
        (λ os. any-Over vbs os)
        (one_pass (mib_getnext lua root f k cs sender) (λ res. res) answer_get (λ res. refl)
          answer_get-Adds vbs (cleared snmp_req_getnext) sdg st (λ vb o. Unit)
          (λ vb res s. getnext-Finds lua root f w r vb.oid k cs sender res s d h))

  -- `snmp_bulkget` on a tree whose groups ascend, when each search in it is given more than twice
  -- the rounds of the tree and more rounds than the sender has views for reading, no two of one
  -- address, no assertion fails, and no answer exceeds its memory or finds no size, which for a
  -- value in bytes takes an object identifier as the value or an identifier of 256 numbers or more,
  -- ends and adds to the answer one binding for each binding of the request in each repetition, and
  -- counts them; the mark of an error is as before, or there was none and its index is between 1
  -- and the number of answers.
  pub snmp_bulkget-Serves :
      (f : ℕ) (vbs : List VarBind) (sdg : Datagram) (st : lua.State)
      → IsWellFormed root
      → 2 * rounds root < f
      → IsDistinct (rights cs sender).ro_views
      → length (rights cs sender).ro_views < k
      → Serves
          (λ os. length os ≡ (sdg.err_idx % 2 ^ 32) * length vbs)
          0
          (record sdg { err_idx = 0 })
          (snmp_bulkget lua root k cs sender f vbs sdg st)
  unfolding snmp_bulkget
  snmp_bulkget-Serves f vbs sdg st w r d h =
      bulk_loop-Serves (mib_getnext lua root f k cs sender)
        (λ vb res s. getnext-Finds lua root f w r vb.oid k cs sender res s d h)
        (sdg.err_idx % 2 ^ 32) 0 (length vbs) vbs (cleared snmp_req_getnext)
        (record sdg { err_idx = 0 }) st refl
