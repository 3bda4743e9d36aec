-- ===== src/Snmp/Request/Answers.antt =====
-- What a round of a request (core/snmp_msg_proc.c) adds to the answer.
use smithsnmp.Base.{
  ℕ, suc, ◌+◌, ◌<◌, ◌≤◌, ◌≡◌, refl, sym, ap, ◌∙◌, arith, Option, none, some, List, [], ◌∷◌, ◌++◌,
  append_assoc, append-nil, length, ◌==◌, All, IsByte, Bool-cases, inl, inr, ◌⊎◌,
}
use smithsnmp.Asn1.{asn1_tag_objid}
use smithsnmp.Mib.Instance.{OidSearchRes}
use smithsnmp.Snmp.Request.{
  VarBind, Datagram, Served, served, exceeded, failed, unfinished, mark_error, add_binding,
  set_error,
}

abbrev pub oids : List VarBind → List (List ℕ)
oids [] = []
oids (vb ∷ vbs) = vb.oid ∷ oids vbs

-- The answer `after` with bindings to the identifiers `os`, of which the first is number `n + 1`, in
-- order, and the counter counts them; the mark of an error is as before, or there was none and its
-- index is the number of a binding.
pub record Answers (n : ℕ) (os : List (List ℕ)) (before after : Datagram) : Type 0 where
  pub order : oids after.vb_out_list ≡ oids before.vb_out_list ++ os
  pub count : after.vb_out_cnt ≡ before.vb_out_cnt + length os
  pub error :
      ((after.err_stat ≡ before.err_stat) × (after.err_idx ≡ before.err_idx))
      ⊎ ((before.err_stat ≡ 0) × (n < after.err_idx) × (after.err_idx ≤ n + length os))

-- The answer to this result may exceed memory or find no size, if it is in bytes: the value is an object
-- identifier, or the identifier has 256 numbers or more.
abbrev pub IsExcessive : OidSearchRes → Type 0
IsExcessive res = All IsByte res.var.value → (res.var.tag ≡ asn1_tag_objid) ⊎ (256 ≤ length res.oid)

-- The request ran out of rounds in no search; it ended with identifiers as `fits` wants them, at an
-- excessive result, or an assertion failed.
abbrev pub Serves {ℓ} : {S : Type ℓ} → (List (List ℕ) → Type 0) → ℕ → Datagram → Served S → Type 0
Serves fits n before (served after st) = (os : List (List ℕ)) × fits os × Answers n os before after
Serves fits n before (exceeded res) = IsExcessive res
Serves fits n before failed = Unit
Serves fits n before unfinished = ⊥

-- Identifiers for the bindings, each `good`, and then what `fits`.
abbrev pub Over :
    (VarBind → List ℕ → Type 0) → List VarBind → (List (List ℕ) → Type 0) → List (List ℕ) → Type 0
Over good [] fits os = fits os
Over good (vb ∷ vbs) fits [] = ⊥
Over good (vb ∷ vbs) fits (o ∷ os) = good vb o × Over good vbs fits os

oids-append : (a b : List VarBind) → oids (a ++ b) ≡ oids a ++ oids b
oids-append [] b = refl
oids-append (vb ∷ a) b = ap (λ t. vb.oid ∷ t) (oids-append a b)

module _ (e n : ℕ) (before : Datagram) where
  mark_cases :
      ((mark_error e n before).err_stat ≡ before.err_stat)
        × ((mark_error e n before).err_idx ≡ before.err_idx)
      ⊎ (before.err_stat ≡ 0) × ((mark_error e n before).err_idx ≡ n)
  unfolding mark_error
  mark_cases = elim (Bool-cases (before.err_stat == 0)) [
    | inl q ↦ elim (Bool-cases (e == 0)) [ inl p ↦ inl (ground arith) | inr p ↦ inr (ground arith) ]
    | inr q ↦ inl (ground arith)
  ]

  mark_list : (mark_error e n before).vb_out_list ≡ before.vb_out_list
  unfolding mark_error
  mark_list = ground arith

  mark_count : (mark_error e n before).vb_out_cnt ≡ before.vb_out_cnt
  unfolding mark_error
  mark_count = ground arith

pub set_error-oid : (res : OidSearchRes) → (set_error res).oid ≡ res.oid
unfolding set_error
set_error-oid res = ground arith

-- One round.
module _ (n : ℕ) (before : Datagram) (oid : List ℕ) (type e : ℕ) (value : List ℕ) where
  unfoldable pub round_step : Datagram
  round_step = add_binding oid type value (mark_error e (suc n) before)

  pub round-Answers :
      (os : List (List ℕ)) (after : Datagram)
      → Answers (suc n) os round_step after
      → Answers n (oid ∷ os) before after
  unfolding round_step add_binding
  round-Answers os after a = record {
    order =
        a.order
        ∙ ap (λ t. t ++ os) (oids-append (mark_error e (suc n) before).vb_out_list _)
        ∙ ap (λ (d : List VarBind). (oids d ++ (oid ∷ [])) ++ os) (mark_list e (suc n) before)
        ∙ append_assoc (oids before.vb_out_list) (oid ∷ []) os;
    count = omega (arith, a.count, mark_count e (suc n) before);
    error = elim a.error [
      | inl r ↦ elim (mark_cases e (suc n) before) [
        | inl m ↦ inl (r.0 ∙ m.0, r.1 ∙ m.1)
        | inr m ↦ inr (m.0, omega arith, omega arith)
      ]
      | inr r ↦ elim (mark_cases e (suc n) before) [
        | inl m ↦ inr (sym m.0 ∙ r.0, omega arith, omega arith)
        | inr m ↦ inr (m.0, omega arith, omega arith)
      ]
    ];
  }

-- Nothing is left to do.
pub done-Answers : (n : ℕ) (sdg : Datagram) → Answers n [] sdg sdg
done-Answers n sdg = record {
  order = sym (append-nil (oids sdg.vb_out_list));
  count = omega arith;
  error = inl (refl, refl);
}

-- An answer is a step with the identifier of the search result, or the result is excessive.
abbrev pub Adds : (ℕ → VarBind → OidSearchRes → Datagram → Option Datagram) → Type 0
Adds answer =
    (n : ℕ) (vb : VarBind) (res : OidSearchRes) (sdg : Datagram)
    → ((answer (suc n) vb res sdg ≡ none) × IsExcessive res)
      ⊎ ((type e : ℕ) × (value : List ℕ) × (answer (suc n) vb res sdg
            ≡ some (round_step n sdg res.oid type e value)))
