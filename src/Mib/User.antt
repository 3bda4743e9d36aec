-- ===== src/Mib/User.antt =====
-- The users of core/mib_view.c: the functions for users do with them what those for communities do,
-- but for `mib_user_create`, which makes keys, and `mib_user_reg`.
pub mod Create
pub mod Register
pub mod Unreg
use smithsnmp.Base.{
  overlay, take, length, ◌==◌, ℕ, zero, suc, ◌&&◌, Bool, false, Option, none, some, List, [], ◌∷◌,
  if◌then◌else◌,
}
use smithsnmp.Mib.View.{
  MibView, ViewLists, MibAcesAttr, views_of, same_name, bind_views, unbind_views, is_empty,
  view_cover, next_view,
}

pub record MibUser : Type 0 where
  pub name : List ℕ
  pub auth_mode : ℕ
  pub priv_mode : ℕ
  pub auth_key : List ℕ
  pub priv_key : List ℕ
  pub views : ViewLists

pub record UserState : Type 0 where
  pub mib_views : List MibView
  pub mib_users : List MibUser

unfoldable pub mib_user_search : List MibUser → List ℕ → Option MibUser
unfolding same_name
mib_user_search [] user = none
mib_user_search (u ∷ us) user = if same_name u.name user then some u else mib_user_search us user

-- A change of the user that the search finds.
unfoldable pub set_user : List MibUser → List ℕ → MibUser → List MibUser
unfolding same_name
set_user [] user u' = []
set_user (u ∷ us) user u' = if same_name u.name user then u' ∷ us else u ∷ set_user us user u'

abbrev pub aes_secretkeylen : ℕ
aes_secretkeylen = 16

abbrev pub snmp_user_auth_md5 : ℕ
snmp_user_auth_md5 = 0

abbrev pub snmp_user_auth_sha1 : ℕ
snmp_user_auth_sha1 = 1

-- The functions of 3rd/crypto that make a key of a phrase and the engine identifier.
pub record KeyMaker : Type 0 where
  pub md5_key : List ℕ → List ℕ → List ℕ
  pub sha1_key : List ℕ → List ℕ → List ℕ

-- What the user that `mib_user_create` allocates holds is not given: `memory` is it, but for the name
-- and the views. A key is written to the front of its array.
module _ (keys : KeyMaker) (engine_id : List ℕ) (memory : MibUser) where
  -- Generate and localize a key, over what was in the array.
  unfoldable pub make_key : ℕ → List ℕ → List ℕ → List ℕ
  make_key auth_mode phrase old =
      if auth_mode == snmp_user_auth_md5
      then overlay (keys.md5_key phrase engine_id) old
      else if auth_mode == snmp_user_auth_sha1
      then overlay (keys.sha1_key phrase engine_id) old
      else old

  -- `secret` is what the array `secret_key` held before.
  unfoldable pub with_keys : ℕ → List ℕ → ℕ → List ℕ → List ℕ → MibUser → MibUser
  unfolding make_key
  with_keys auth_mode auth_phrase priv_mode priv_phrase secret u =
      if length auth_phrase == 0
      then u
      else let authentic : MibUser = record u {
        auth_mode = auth_mode;
        auth_key = make_key auth_mode auth_phrase u.auth_key;
      } in
        if length priv_phrase == 0 then authentic else record authentic {
          priv_mode = priv_mode;
          priv_key = take aes_secretkeylen (make_key auth_mode priv_phrase secret);
        }

  -- A user of a new name is put in front of the list, without views.
  unfoldable pub mib_user_create :
      List MibUser → List ℕ → ℕ → List ℕ → ℕ → List ℕ → List ℕ → List MibUser
  unfolding mib_user_search with_keys set_user
  mib_user_create us user auth_mode auth_phrase priv_mode priv_phrase secret =
      elim (mib_user_search us user) [
        | none ↦
            with_keys auth_mode auth_phrase priv_mode priv_phrase secret
              (record memory { name = user; views = record { ro_views = []; rw_views = [] } })
            ∷ us
        | some u ↦ set_user us user (with_keys auth_mode auth_phrase priv_mode priv_phrase secret u)
      ]

-- Only a user that was created gets views.
unfoldable pub mib_user_reg : UserState → List ℕ → List ℕ → MibAcesAttr → UserState
unfolding mib_user_search bind_views set_user
mib_user_reg s oid user attribute = elim (mib_user_search s.mib_users user) [
  | none ↦ s
  | some u ↦
      let (l, mib_views') = bind_views oid attribute u.views s.mib_views in
      record {
        mib_views = mib_views';
        mib_users = set_user s.mib_users user (record u { views = l });
      }
]

-- As for communities, the loop meets a user that it keeps again. `none` means that it has not ended
-- within the given number of rounds.
unfoldable pub mib_user_unreg : ℕ → List MibUser → List ℕ → MibAcesAttr → Option (List MibUser)
unfolding same_name unbind_views
mib_user_unreg zero us user attribute = none
mib_user_unreg (suc k) [] user attribute = some []
mib_user_unreg (suc k) (u ∷ us) user attribute =
    let left = unbind_views attribute u.views in
    let gone = mib_user_unreg k us user attribute in
    let again = mib_user_unreg k (record u { views = left } ∷ us) user attribute in
    if same_name u.name user
    then (if is_empty left.ro_views && is_empty left.rw_views then gone else again)
    else elim gone [ none ↦ none | some us' ↦ some (u ∷ us') ]

unfoldable pub mib_user_view_cover : Option MibUser → MibAcesAttr → List ℕ → Bool
unfolding view_cover
mib_user_view_cover none attribute oid = false
mib_user_view_cover (some u) attribute oid = view_cover (views_of attribute u.views) oid

unfoldable pub mib_user_next_view : Option MibUser → MibAcesAttr → Option MibView → Option MibView
unfolding next_view
mib_user_next_view none attribute v = none
mib_user_next_view (some u) attribute v = next_view (views_of attribute u.views) v
