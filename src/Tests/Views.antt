-- ===== src/Tests/Views.antt =====
-- Runs of the views, and their theorems at concrete inputs.
use smithsnmp.Base.{ℕ, ◌≡◌, ◌↔◌, ◌⊎◌, refl, arith, true, none, some, List, [], ◌∷◌, ◌++◌}
use smithsnmp.Oid.Prefix.{IsPrefix}
use smithsnmp.Mib.View.{
  MibView, ViewState, MibCommunity, mib_aces_read, mib_aces_write, mib_community_reg,
  mib_community_unreg, same_name, views_in,
}
use smithsnmp.Mib.View.Register.{grants, accessible, mib_community_reg-covers}
use smithsnmp.Mib.View.Unreg.{without, mib_community_unreg_read, mib_community_unreg_write}
use smithsnmp.Mib.User.{
  MibUser, UserState, KeyMaker, mib_user_search, mib_user_reg, mib_user_create, mib_user_view_cover,
}
use smithsnmp.Mib.User.Create.{mib_user_create-covers}
use smithsnmp.Mib.User.Register.{allowed, mib_user_reg-covers}

abbrev public_name : List ℕ
public_name = 112 ∷ 117 ∷ 98 ∷ []

abbrev other_name : List ℕ
other_name = 111 ∷ []

abbrev system_view : MibView
system_view = record { addr = 1; oid = 1 ∷ 3 ∷ 6 ∷ [] }

abbrev interface_view : MibView
interface_view = record { addr = 2; oid = 1 ∷ 3 ∷ 7 ∷ [] }

abbrev public_community : MibCommunity
public_community = record {
  name = public_name;
  views = record { ro_views = system_view ∷ interface_view ∷ []; rw_views = [] };
}

abbrev start : ViewState
start = record {
  mib_views = interface_view ∷ system_view ∷ [];
  mib_communities = public_community ∷ [];
}

-- The new view takes the place of the two below it.
registered :
    (mib_community_reg start (1 ∷ 3 ∷ []) public_name mib_aces_read).mib_communities
    ≡ record {
      name = public_name;
      views = record { ro_views = record { addr = 3; oid = 1 ∷ 3 ∷ [] } ∷ []; rw_views = [] };
    }
      ∷ []
unfolding mib_community_reg
registered = refl

mib_community_reg-covers_example :
    (accessible
        (mib_community_reg start (1 ∷ 3 ∷ []) public_name mib_aces_write)
        public_name
        mib_aces_read
        (1 ∷ 3 ∷ 9 ∷ [])
      ≡ true)
    ↔ (((grants mib_aces_write mib_aces_read ≡ true) × IsPrefix (1 ∷ 3 ∷ []) (1 ∷ 3 ∷ 9 ∷ []))
        ⊎ (accessible start public_name mib_aces_read (1 ∷ 3 ∷ 9 ∷ []) ≡ true))
unfolding views_in same_name
mib_community_reg-covers_example =
    mib_community_reg-covers start (1 ∷ 3 ∷ []) public_name mib_aces_write mib_aces_read
      (1 ∷ 3 ∷ 9 ∷ []) (omega arith) (omega arith) (omega arith) (omega arith)

mib_community_unreg_read_example :
    mib_community_unreg 2 (public_community ∷ []) public_name mib_aces_read
    ≡ some (without (public_community ∷ []) public_name)
mib_community_unreg_read_example =
    mib_community_unreg_read 2 (public_community ∷ []) public_name (omega arith)

mib_community_unreg_write_example :
    mib_community_unreg 1000 (public_community ∷ []) public_name mib_aces_write ≡ none
unfolding same_name
mib_community_unreg_write_example =
    mib_community_unreg_write 1000 (public_community ∷ []) public_name refl

abbrev other_user : MibUser
other_user = record {
  name = other_name;
  auth_mode = 0;
  priv_mode = 0;
  auth_key = [];
  priv_key = [];
  views = record { ro_views = system_view ∷ interface_view ∷ []; rw_views = [] };
}

abbrev user_state : UserState
user_state = record { mib_views = interface_view ∷ system_view ∷ []; mib_users = other_user ∷ [] }

mib_user_reg-covers_example :
    (allowed
        (mib_user_reg user_state (1 ∷ 3 ∷ []) other_name mib_aces_write)
        other_name
        mib_aces_read
        (1 ∷ 3 ∷ 9 ∷ [])
      ≡ true)
    ↔ (((grants mib_aces_write mib_aces_read ≡ true) × IsPrefix (1 ∷ 3 ∷ []) (1 ∷ 3 ∷ 9 ∷ []))
        ⊎ (allowed user_state other_name mib_aces_read (1 ∷ 3 ∷ 9 ∷ []) ≡ true))
unfolding mib_user_search same_name
mib_user_reg-covers_example =
    mib_user_reg-covers user_state (1 ∷ 3 ∷ []) other_name other_user refl mib_aces_write
      mib_aces_read (1 ∷ 3 ∷ 9 ∷ []) (omega arith) (omega arith) (omega arith) (omega arith)

abbrev some_keys : KeyMaker
some_keys = record {
  md5_key = λ phrase engine_id. phrase ++ engine_id;
  sha1_key = λ phrase engine_id. engine_id ++ phrase;
}

-- A user whose key is made over what the memory held.
new_key :
    elim (mib_user_search
      (mib_user_create some_keys (9 ∷ []) other_user [] public_name 0 (5 ∷ []) 1 [] [])
      public_name) [ none ↦ [] | some u ↦ u.auth_key ]
    ≡ 5 ∷ 9 ∷ []
unfolding mib_user_search same_name mib_user_create
new_key = refl

mib_user_create-covers_example :
    mib_user_view_cover
      (mib_user_search
        (mib_user_create some_keys
          (9 ∷ [])
          other_user
          (other_user ∷ [])
          public_name
          0
          (5 ∷ [])
          1
          (6 ∷ [])
          (0 ∷ []))
        other_name)
      mib_aces_read
      (1 ∷ 3 ∷ [])
    ≡ mib_user_view_cover (mib_user_search (other_user ∷ []) other_name) mib_aces_read (1 ∷ 3 ∷ [])
mib_user_create-covers_example =
    mib_user_create-covers some_keys (9 ∷ []) other_user (other_user ∷ []) public_name 0 (5 ∷ []) 1
      (6 ∷ []) (0 ∷ []) other_name mib_aces_read (1 ∷ 3 ∷ [])
