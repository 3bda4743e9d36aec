-- ===== src/Mib/User/Register.antt =====
-- Registration of a user's view, `mib_user_reg` of core/mib_view.c: what a user may do afterwards.
use smithsnmp.Base.{
  ◌≡◌, ◌↔◌, ◌⊎◌, refl, arith, ℕ, Bool, true, some, List, [], ◌∷◌, Bool-cases, inl, inr,
}
use smithsnmp.Oid.Prefix.{IsPrefix, IsOidArray}
use smithsnmp.Mib.View.{ViewLists, MibAcesAttr, views_of, same_name, view_cover, bind_views}
use smithsnmp.Mib.View.Filter.{AllOid}
use smithsnmp.Mib.View.Register.{IsValidLists, grants, bind_views_covers}
use smithsnmp.Mib.User.{
  MibUser, UserState, mib_user_search, set_user, mib_user_reg, mib_user_view_cover,
}

-- What the named user may do.
abbrev pub allowed : UserState → List ℕ → MibAcesAttr → List ℕ → Bool
allowed s user attribute oid = mib_user_view_cover (mib_user_search s.mib_users user) attribute oid

search-set_user :
    (us : List MibUser) (user : List ℕ) (u : MibUser) (l : ViewLists)
    → mib_user_search us user ≡ some u
    → mib_user_search (set_user us user (record u { views = l })) user
      ≡ some (record u { views = l })
unfolding mib_user_search set_user
search-set_user [] user u l e = absurd (cc)
search-set_user (v ∷ us) user u l e = elim (Bool-cases (same_name v.name user)) [
  | inl n ↦
      let q : v ≡ u = ground (arith, n, e) in
      let m : same_name u.name user ≡ true = rw (← q) n in rw (n, m) refl
  | inr n ↦ ground (arith, n, e, search-set_user us user u l)
]

module _ (s : UserState) (oid user : List ℕ) (u : MibUser)
    (e : mib_user_search s.mib_users user ≡ some u) where
  allowed-mib_user_reg :
      (attribute wanted : MibAcesAttr) (o : List ℕ)
      → allowed (mib_user_reg s oid user attribute) user wanted o
        ≡ view_cover (views_of wanted (bind_views oid attribute u.views s.mib_views).0) o
  unfolding mib_user_reg mib_user_view_cover
  allowed-mib_user_reg attribute wanted o =
      let l = (bind_views oid attribute u.views s.mib_views).0 in
      ground (arith, e, search-set_user s.mib_users user u l e)

  allowed_before :
      (wanted : MibAcesAttr) (o : List ℕ)
      → allowed s user wanted o ≡ view_cover (views_of wanted u.views) o
  unfolding mib_user_view_cover
  allowed_before wanted o = rw e refl

  -- After `mib_user_reg` a user that was created has access to exactly the identifiers it had
  -- access to before and, in the modes that the attribute grants, those that begin with the
  -- registered one; the identifiers, and those of the stored views, are arrays of 32-bit numbers
  -- that `oid_cmp` can measure.
  pub mib_user_reg-covers :
      (attribute wanted : MibAcesAttr) (o : List ℕ)
      → IsOidArray oid
      → IsOidArray o
      → AllOid s.mib_views
      → IsValidLists u.views
      → (allowed (mib_user_reg s oid user attribute) user wanted o ≡ true)
        ↔ (((grants attribute wanted ≡ true) × IsPrefix oid o) ⊎ (allowed s user wanted o ≡ true))
  mib_user_reg-covers attribute wanted o w wo a v =
      rw (allowed-mib_user_reg attribute wanted o, allowed_before wanted o)
        (bind_views_covers oid w u.views v s.mib_views a attribute wanted o wo)
