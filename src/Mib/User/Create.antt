-- ===== src/Mib/User/Create.antt =====
-- Creation of a user, `mib_user_create` of core/mib_view.c: what it leaves of the access of the users.
use smithsnmp.Base.{
  ◌≡◌, refl, arith, ℕ, false, none, some, List, [], ◌∷◌, Bool-cases, Option-cases, inl, inr,
}
use smithsnmp.Mib.View.{MibAcesAttr, views_of, same_name, view_cover, mib_aces_read, mib_aces_write}
use smithsnmp.Mib.View.Names.{same_name_eq}
use smithsnmp.Mib.User.{
  MibUser, KeyMaker, mib_user_search, set_user, with_keys, mib_user_create, mib_user_view_cover,
}

with_keys_name :
    (keys : KeyMaker) (engine_id : List ℕ) (memory : MibUser) (auth_mode : ℕ) (auth_phrase : List ℕ)
    (priv_mode : ℕ) (priv_phrase secret : List ℕ) (u : MibUser)
    → (with_keys keys engine_id memory auth_mode auth_phrase priv_mode priv_phrase secret u).name
      ≡ u.name
unfolding with_keys
with_keys_name keys engine_id memory auth_mode auth_phrase priv_mode priv_phrase secret u =
    ground arith

with_keys_views :
    (keys : KeyMaker) (engine_id : List ℕ) (memory : MibUser) (auth_mode : ℕ) (auth_phrase : List ℕ)
    (priv_mode : ℕ) (priv_phrase secret : List ℕ) (u : MibUser)
    → (with_keys keys engine_id memory auth_mode auth_phrase priv_mode priv_phrase secret u).views
      ≡ u.views
unfolding with_keys
with_keys_views keys engine_id memory auth_mode auth_phrase priv_mode priv_phrase secret u =
    ground arith

no_views :
    (attribute : MibAcesAttr) (o : List ℕ)
    → view_cover (views_of attribute (record { ro_views = []; rw_views = [] })) o ≡ false
unfolding view_cover
no_views mib_aces_read o = refl
no_views mib_aces_write o = refl

-- A changed user of the same name and views has the access that it had, and so have all others.
set_user-covers :
    (us : List MibUser) (user : List ℕ) (u u' : MibUser)
    → mib_user_search us user ≡ some u
    → u'.name ≡ u.name
    → u'.views ≡ u.views
    → (other : List ℕ) (attribute : MibAcesAttr) (o : List ℕ)
    → mib_user_view_cover (mib_user_search (set_user us user u') other) attribute o
      ≡ mib_user_view_cover (mib_user_search us other) attribute o
unfolding mib_user_search set_user mib_user_view_cover
set_user-covers [] user u u' e en ev other attribute o = refl
set_user-covers (v ∷ us) user u u' e en ev other attribute o =
    elim (Bool-cases (same_name v.name user)) [
      | inl n ↦
          let q : v ≡ u = ground (arith, n, e) in
          rw (n, q, en)
            (elim (Bool-cases (same_name u.name other)) [
              | inl m ↦ rw (m, ev) refl
              | inr m ↦ rw m refl
            ])
      | inr n ↦ rw n (elim (Bool-cases (same_name v.name other)) [
        | inl m ↦ rw m refl
        | inr m ↦ rw m (set_user-covers us user u u' (ground (arith, n, e)) en ev other attribute o)
      ])
    ]

-- A new user without views in front of the others.
new_user-covers :
    (us : List MibUser) (user : List ℕ) (u' : MibUser)
    → mib_user_search us user ≡ none
    → u'.name ≡ user
    → u'.views ≡ record { ro_views = []; rw_views = [] }
    → (other : List ℕ) (attribute : MibAcesAttr) (o : List ℕ)
    → mib_user_view_cover (mib_user_search (u' ∷ us) other) attribute o
      ≡ mib_user_view_cover (mib_user_search us other) attribute o
unfolding mib_user_search mib_user_view_cover
new_user-covers us user u' e en ev other attribute o =
    rw en (elim (Bool-cases (same_name user other)) [
      | inl m ↦
          let q : user ≡ other = same_name_eq _ _ m in rw (m, ev, ← q, e) (no_views attribute o)
      | inr m ↦ rw m refl
    ])

module _ (keys : KeyMaker) (engine_id : List ℕ) (memory : MibUser) (us : List MibUser)
    (user : List ℕ) (auth_mode : ℕ) (auth_phrase : List ℕ) (priv_mode : ℕ)
    (priv_phrase secret : List ℕ) where
  created_new :
      mib_user_search us user ≡ none
      → mib_user_create keys engine_id memory us user auth_mode auth_phrase priv_mode priv_phrase
          secret
        ≡ with_keys keys engine_id memory auth_mode auth_phrase priv_mode priv_phrase secret
            (record memory { name = user; views = record { ro_views = []; rw_views = [] } })
          ∷ us
  unfolding mib_user_create
  created_new e = rw (mib_user_create, e) refl

  created_known :
      (u : MibUser)
      → mib_user_search us user ≡ some u
      → mib_user_create keys engine_id memory us user auth_mode auth_phrase priv_mode priv_phrase
          secret
        ≡ set_user us user
            (with_keys keys engine_id memory auth_mode auth_phrase priv_mode priv_phrase secret u)
  unfolding mib_user_create
  created_known u e = ground (arith, e)

  -- `mib_user_create` changes nobody's access, whatever is in the new user's memory: a new user has
  -- no views, a known one keeps its own, and so do all others.
  pub mib_user_create-covers :
      (other : List ℕ) (attribute : MibAcesAttr) (o : List ℕ)
      → mib_user_view_cover
          (mib_user_search
            (mib_user_create keys engine_id memory us user auth_mode auth_phrase priv_mode
              priv_phrase secret)
            other)
          attribute
          o
        ≡ mib_user_view_cover (mib_user_search us other) attribute o
  mib_user_create-covers other attribute o = elim (Option-cases (mib_user_search us user)) [
    | inl e ↦ rw (created_new e) (
        new_user-covers us user _ e
          (with_keys_name keys engine_id memory auth_mode auth_phrase priv_mode priv_phrase secret
            _)
          (with_keys_views keys engine_id memory auth_mode auth_phrase priv_mode priv_phrase secret
            _)
          other attribute o)
    | inr (u, e) ↦ rw (created_known u e) (
        set_user-covers us user u _ e
          (with_keys_name keys engine_id memory auth_mode auth_phrase priv_mode priv_phrase secret
            u)
          (with_keys_views keys engine_id memory auth_mode auth_phrase priv_mode priv_phrase secret
            u)
          other attribute o)
  ]
