-- ===== src/Mib/View/Unreg.antt =====
-- Unregistration of a community: reading rights go with the community; taking back the writing
-- rights alone does not end.
use smithsnmp.Base.{
  ℕ, zero, suc, ◌<◌, ◌≡◌, refl, arith, false, none, some, List, [], ◌∷◌, if◌then◌else◌, Bool-cases,
  inl, inr, length,
}
use smithsnmp.Mib.View.{
  MibCommunity, mib_aces_read, mib_aces_write, same_name, unbind_views, mib_community_unreg,
  is_empty,
}

-- The communities with another name.
pub without : List MibCommunity → List ℕ → List MibCommunity
without [] community = []
without (c ∷ cs) community =
    if same_name c.name community then without cs community else c ∷ without cs community

-- `mib_community_unreg` with the attribute for reading ends within one round more than there are
-- communities, and leaves those of another name, in order.
pub mib_community_unreg_read :
    (k : ℕ) (cs : List MibCommunity) (community : List ℕ)
    → length cs < k
    → mib_community_unreg k cs community mib_aces_read ≡ some (without cs community)
unfolding mib_community_unreg without
mib_community_unreg_read zero cs community h = absurd (omega arith)
mib_community_unreg_read (suc k) [] community h = refl
mib_community_unreg_read (suc k) (c ∷ cs) community h =
    elim (Bool-cases (same_name c.name community)) [
      | inl e ↦ rw e (mib_community_unreg_read k cs community (omega arith))
      | inr e ↦ ground (arith, e, mib_community_unreg_read k cs community (omega arith))
    ]

-- A community of that name that can read something.
abbrev pub CanRead : List MibCommunity → List ℕ → Type 0
CanRead [] community = ⊥
CanRead (c ∷ cs) community =
    if same_name c.name community then is_empty c.views.ro_views ≡ false else CanRead cs community

-- `mib_community_unreg` with the attribute for writing ends in no number of rounds when the first
-- community of the name has a view for reading.
pub mib_community_unreg_write :
    (k : ℕ) (cs : List MibCommunity) (community : List ℕ)
    → CanRead cs community
    → mib_community_unreg k cs community mib_aces_write ≡ none
unfolding mib_community_unreg
mib_community_unreg_write zero cs community h = refl
mib_community_unreg_write (suc k) [] community h = absurd h
mib_community_unreg_write (suc k) (c ∷ cs) community h =
    elim (Bool-cases (same_name c.name community)) [
      | inl e ↦
          rw (e, rw e at h)
            (mib_community_unreg_write k
              (record c { views = unbind_views mib_aces_write c.views } ∷ cs) community
              (rw e (rw e at h)))
      | inr e ↦ ground (arith, e, mib_community_unreg_write k cs community (rw e at h))
    ]
