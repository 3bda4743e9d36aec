-- ===== src/Mib/User/Unreg.antt =====
-- `mib_user_unreg` of core/mib_view.c: which users are left, where its loop ends.
use smithsnmp.Base.{
  ℕ, zero, suc, ◌<◌, ◌≡◌, refl, arith, false, none, some, List, [], ◌∷◌, length, if◌then◌else◌,
  Bool-cases, inl, inr,
}
use smithsnmp.Mib.View.{mib_aces_read, mib_aces_write, same_name, is_empty, unbind_views}
use smithsnmp.Mib.User.{MibUser, mib_user_unreg}

-- The users that have another name.
unfoldable pub without_user : List MibUser → List ℕ → List MibUser
without_user [] user = []
without_user (u ∷ us) user =
    if same_name u.name user then without_user us user else u ∷ without_user us user

-- `mib_user_unreg` with the attribute for reading ends within one round more than there are users,
-- and leaves those of another name, in order.
pub mib_user_unreg_read :
    (k : ℕ) (us : List MibUser) (user : List ℕ)
    → length us < k
    → mib_user_unreg k us user mib_aces_read ≡ some (without_user us user)
unfolding mib_user_unreg without_user
mib_user_unreg_read zero us user h = absurd (omega arith)
mib_user_unreg_read (suc k) [] user h = refl
mib_user_unreg_read (suc k) (u ∷ us) user h = elim (Bool-cases (same_name u.name user)) [
  | inl e ↦ rw e (mib_user_unreg_read k us user (omega arith))
  | inr e ↦ ground (arith, e, mib_user_unreg_read k us user (omega arith))
]

-- The first user of that name can read something.
abbrev pub CanRead : List MibUser → List ℕ → Type 0
CanRead [] user = ⊥
CanRead (u ∷ us) user =
    if same_name u.name user then is_empty u.views.ro_views ≡ false else CanRead us user

-- `mib_user_unreg` with the attribute for writing ends in no number of rounds when the first user
-- of the name has a view for reading.
pub mib_user_unreg_write :
    (k : ℕ) (us : List MibUser) (user : List ℕ)
    → CanRead us user
    → mib_user_unreg k us user mib_aces_write ≡ none
unfolding mib_user_unreg
mib_user_unreg_write zero us user h = refl
mib_user_unreg_write (suc k) [] user h = absurd h
mib_user_unreg_write (suc k) (u ∷ us) user h = elim (Bool-cases (same_name u.name user)) [
  | inl e ↦
      rw (e, rw e at h)
        (mib_user_unreg_write k (record u { views = unbind_views mib_aces_write u.views } ∷ us) user
          (rw e (rw e at h)))
  | inr e ↦ ground (arith, e, mib_user_unreg_write k us user (rw e at h))
]
