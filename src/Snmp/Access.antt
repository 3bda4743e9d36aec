-- ===== src/Snmp/Access.antt =====
-- `mib_get`, `mib_set` and `mib_getnext` of core/snmp_msg_proc.c: who may read or write, and the search through the
-- views of a community or a user.
pub mod Denial
pub mod Behind
pub mod Ends
use smithsnmp.Base.{
  ℕ, zero, suc, bit_and, Bool, true, false, not, ◌&&◌, ◌||◌, Option, none, some, List, [], ◌∷◌, leb,
  ◌==◌, if◌then◌else◌, is_negative,
}
use smithsnmp.Asn1.{asn1_tag_valid, asn1_tag_end_of_mib_view}
use smithsnmp.Oid.{oid_cmp}
use smithsnmp.Mib.Tree.{MibNode}
use smithsnmp.Mib.View.{
  MibView, MibCommunity, MibAcesAttr, mib_aces_read, mib_aces_write, mib_community_search,
  mib_community_view_cover, mib_community_next_view,
}
use smithsnmp.Mib.User.{MibUser, mib_user_view_cover, mib_user_next_view}
use smithsnmp.Mib.Instance.{OidSearchRes, Lua}
pub use smithsnmp.Mib.Instance.{Outcome, returned, aborted, running}
use smithsnmp.Mib.Search.{mib_tree_search}
use smithsnmp.Mib.Next.{mib_tree_search_next}

abbrev pub snmp_err_stat_no_access : ℕ
snmp_err_stat_no_access = 6

abbrev pub snmp_secur_flag_auth : ℕ
snmp_secur_flag_auth = 1

-- What the search reads of `snmp_datagram`. The version is the bit pattern of an `integer_t`; the
-- context name is the bytes of a C string.
pub record Sender : Type 0 where
  pub version : ℕ
  pub msg_flags : ℕ
  pub user : Option MibUser
  pub auth_err : ℕ
  pub context_name : List ℕ

-- `version >= 3`
unfoldable pub is_v3 : Sender → Bool
is_v3 sdg = leb 3 sdg.version && not (is_negative sdg.version)

-- Who is looked for, a community or a user, and the error status so far.
pub record Granted : Type 0 where
  pub community : Option MibCommunity
  pub user : Option MibUser
  pub err_stat : ℕ

-- `Access control` of `mib_get`
unfoldable pub access_get : List MibCommunity → Sender → ℕ → Granted
unfolding is_v3 mib_community_search
access_get cs sdg err_stat =
    if is_v3 sdg
    then elim sdg.user [
      | none ↦ record { community = none; user = none; err_stat = snmp_err_stat_no_access }
      | some u ↦ record { community = none; user = some u; err_stat = err_stat }
    ]
    else elim (mib_community_search cs sdg.context_name) [
      | none ↦ record { community = none; user = none; err_stat = snmp_err_stat_no_access }
      | some c ↦ record { community = some c; user = none; err_stat = err_stat }
    ]

-- `Access control` of `mib_set`: that of `mib_get`, and a view for writing must cover the identifier.
unfoldable pub access_set : List MibCommunity → Sender → List ℕ → ℕ → Granted
unfolding is_v3 mib_community_search mib_community_view_cover mib_user_view_cover
access_set cs sdg oid err_stat =
    let denied : Granted = record {
      community = none;
      user = none;
      err_stat = snmp_err_stat_no_access;
    } in
    if is_v3 sdg
    then elim sdg.user [
      | none ↦ denied
      | some u ↦
          if mib_user_view_cover (some u) mib_aces_write oid
          then record { community = none; user = some u; err_stat = err_stat }
          else denied
    ]
    else elim (mib_community_search cs sdg.context_name) [
      | none ↦ denied
      | some c ↦
          if mib_community_view_cover (some c) mib_aces_write oid
          then record { community = some c; user = none; err_stat = err_stat }
          else denied
    ]

-- `Authentication`
unfoldable pub authenticate : Sender → Granted → ℕ
authenticate sdg g = elim g.user [
  | none ↦ g.err_stat
  | some u ↦ if bit_and sdg.msg_flags snmp_secur_flag_auth == 0 then g.err_stat else sdg.auth_err
]

unfoldable pub next_of : Sender → Granted → MibAcesAttr → Option MibView → Option MibView
unfolding is_v3 mib_community_next_view mib_user_next_view
next_of sdg g attribute view =
    if is_v3 sdg
    then mib_user_next_view g.user attribute view
    else mib_community_next_view g.community attribute view

-- Whether the search stops at a view.
unfoldable pub stops : List ℕ → MibView → OidSearchRes → Bool
unfolding oid_cmp
stops oid view ret_oid =
    (ret_oid.err_stat == 0 && asn1_tag_valid ret_oid.var.tag) || is_negative (oid_cmp oid view.oid)

-- The end of a round: the search stops at the view, or goes on.
unfoldable pub go_on {ℓ} :
    {S : Type ℓ}
    → List ℕ
    → MibView
    → Option OidSearchRes × S
    → (OidSearchRes → S → Outcome S)
    → Outcome S
unfolding stops
go_on oid view (none, st) rest = aborted
go_on oid view (some res, st) rest = if stops oid view res then returned res st else rest res st

-- The loop over the views, for a number of rounds: what is done at a view is given the rest of the
-- loop.
module _ {ℓ} {S : Type ℓ}
    (round : MibView → (OidSearchRes → S → Outcome S) → OidSearchRes → S → Outcome S)
    (oid : List ℕ) where
  unfoldable pub over_views :
      ℕ → (Option MibView → Option MibView) → Option MibView → OidSearchRes → S → Outcome S
  over_views zero next view res st = running
  over_views (suc k) next view res st = elim (next view) [
    | none ↦ returned (record res { oid = oid }) st
    | some v ↦ round v (over_views k next (some v)) res st
  ]

module _ (lua : Lua) (root : MibNode) where
  -- The search at a view.
  unfoldable pub get_round :
      List ℕ
      → MibView
      → (OidSearchRes → lua.State → Outcome lua.State)
      → OidSearchRes
      → lua.State
      → Outcome lua.State
  unfolding mib_tree_search go_on
  get_round oid v rest res st = go_on oid v (mib_tree_search lua root st v oid res) rest

  unfoldable pub mib_get :
      ℕ → List MibCommunity → Sender → List ℕ → OidSearchRes → lua.State → Outcome lua.State
  unfolding access_get authenticate next_of get_round over_views
  mib_get k cs sdg oid res st =
      let g = access_get cs sdg res.err_stat in
      over_views (get_round oid) oid k (next_of sdg g mib_aces_read) none
        (record res { err_stat = authenticate sdg g }) st

  unfoldable pub mib_set :
      ℕ → List MibCommunity → Sender → List ℕ → OidSearchRes → lua.State → Outcome lua.State
  unfolding access_set authenticate next_of get_round over_views
  mib_set k cs sdg oid res st =
      let g = access_set cs sdg oid res.err_stat in
      over_views (get_round oid) oid k (next_of sdg g mib_aces_write) none
        (record res { err_stat = authenticate sdg g }) st

  -- The search behind an identifier at a view, for `f` rounds of `mib_tree_search_next`.
  unfoldable pub next_round :
      ℕ
      → List ℕ
      → MibView
      → (OidSearchRes → lua.State → Outcome lua.State)
      → OidSearchRes
      → lua.State
      → Outcome lua.State
  unfolding mib_tree_search_next
  next_round f oid v rest res st = elim (mib_tree_search_next lua v oid f root res st) [
    | returned res' st' ↦
        if res'.var.tag == asn1_tag_end_of_mib_view then rest res' st' else returned res' st'
    | aborted ↦ aborted
    | running ↦ running
  ]

  unfoldable pub mib_getnext :
      ℕ → ℕ → List MibCommunity → Sender → List ℕ → OidSearchRes → lua.State → Outcome lua.State
  unfolding access_get authenticate next_of next_round over_views
  mib_getnext f k cs sdg oid res st =
      let g = access_get cs sdg res.err_stat in
      over_views (next_round f oid) oid k (next_of sdg g mib_aces_read) none
        (record res { err_stat = authenticate sdg g }) st
