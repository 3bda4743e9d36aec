-- ===== src/Agentx/Answers.antt =====
-- What a request adds to the response (core/agentx_msg_proc.c): one binding for each range or binding.
use smithsnmp.Base.{
  ℕ, suc, ◌+◌, ◌^◌, ◌<◌, ◌≤◌, ◌≡◌, refl, sym, ap, ◌∙◌, subst, arith, List, [], ◌∷◌, ◌++◌,
  append_assoc, append-nil, length, ◌==◌, not, ◌&&◌, ◌≢◌, none, some, Option, Option-cases,
  read_words, length-read_words, length-take, Bool-cases, inl, inr, ◌⊎◌,
}
use smithsnmp.Asn1.{asn1_tag_objid}
use smithsnmp.Agentx.{agentx_value_enc_try, agentx_value_enc}
use smithsnmp.Agentx.Sizes.{length-words}
use smithsnmp.Mib.Instance.{Variable, OidSearchRes, Outcome, returned, aborted, running}
use smithsnmp.Snmp.Request.Passes.{Finds}
use smithsnmp.Agentx.Message.{XVarBind, AgentxDatagram}
use smithsnmp.Agentx.Process.{
  encoded, mark_error, add_binding, exceeded, answer_get, answer_set, Processed, processed, failed,
  unfinished, pass,
}

-- The bindings `new` are at the end of the list and are counted; the mark of an error is as before, or
-- there was none and its index is the number of a range. The header is as before.
pub record Extends (n : ℕ) (new : List XVarBind) (before after : AgentxDatagram) : Type 0 where
  pub header : after.pdu_hdr ≡ before.pdu_hdr
  pub order : after.vb_out_list ≡ before.vb_out_list ++ new
  pub count : after.vb_out_cnt ≡ before.vb_out_cnt + length new
  pub error :
      ((after.response.error ≡ before.response.error)
        × (after.response.index ≡ before.response.index))
      ⊎ ((before.response.error ≡ 0)
          × (n < after.response.index)
          × (after.response.index ≤ n + length new))

-- A binding for each item, whose identifier is good for it.
abbrev pub Pairs : {A : Type 0} → (A → List ℕ → Type 0) → List A → List XVarBind → Type 0
Pairs good [] [] = Unit
Pairs good [] (vb ∷ vbs) = ⊥
Pairs good (x ∷ xs) [] = ⊥
Pairs good (x ∷ xs) (vb ∷ vbs) = good x vb.oid × Pairs good xs vbs

-- The request ran out of rounds in no search; it ended with such bindings, at a `bad` search result
-- whose value exceeded memory, or an assertion failed.
abbrev pub Serves {ℓ} :
    {S : Type ℓ} {A : Type 0}
    → (OidSearchRes → Type 0)
    → (A → List ℕ → Type 0)
    → ℕ
    → List A
    → AgentxDatagram
    → Processed S
    → Type 0
Serves bad good n xs before (processed after st) =
    (new : List XVarBind) × Pairs good xs new × Extends n new before after
Serves bad good n xs before (exceeded res) = bad res
Serves bad good n xs before failed = Unit
Serves bad good n xs before unfinished = ⊥

none-Extends : (n : ℕ) (xdg : AgentxDatagram) → Extends n [] xdg xdg
none-Extends n xdg = record {
  header = refl;
  order = sym (append-nil xdg.vb_out_list);
  count = omega arith;
  error = inl (refl, refl);
}

-- One binding, and then the others.
then-Extends :
    (n : ℕ) (vb : XVarBind) (new : List XVarBind) (a b c : AgentxDatagram)
    → Extends n (vb ∷ []) a b
    → Extends (suc n) new b c
    → Extends n (vb ∷ new) a c
then-Extends n vb new a b c f s = record {
  header = s.header ∙ f.header;
  order = s.order ∙ ap (λ t. t ++ new) f.order ∙ append_assoc a.vb_out_list (vb ∷ []) new;
  count = omega (arith, f.count, s.count);
  error = elim s.error [
    | inl r ↦ elim f.error [
      | inl m ↦ inl (r.0 ∙ m.0, r.1 ∙ m.1)
      | inr m ↦ inr (m.0, omega arith, omega arith)
    ]
    | inr r ↦ elim f.error [
      | inl m ↦ inr (sym m.0 ∙ r.0, omega arith, omega arith)
      | inr m ↦ inr (m.0, omega arith, omega arith)
    ]
  ];
}

module _ (e n : ℕ) (oid : List ℕ) (type : ℕ) (value : List ℕ) (xdg : AgentxDatagram) where
  added : XVarBind
  added = record { oid = oid; val_type = type; val_len = length value; value = value }

  round-Extends :
      suc n < 2 ^ 16
      → Extends n (added ∷ []) xdg (mark_error e (suc n) (add_binding oid type value xdg))
  unfolding mark_error add_binding added
  round-Extends h = elim (Bool-cases (not (e == 0) && xdg.response.error == 0)) [
    | inl g ↦ rw g (record {
      header = refl;
      order = refl;
      count = omega arith;
      error = inr (ground arith, omega arith, omega arith);
    })
    | inr g ↦
        rw g (record { header = refl; order = refl; count = omega arith; error = inl (refl, refl) })
  ]

-- An answer is a binding with the identifier of the search result, or the result is bad.
abbrev pub Adds :
    {A : Type 0}
    → (OidSearchRes → Type 0)
    → (ℕ → A → OidSearchRes → AgentxDatagram → Option AgentxDatagram)
    → Type 0
Adds {A} bad answer =
    (n : ℕ) (x : A) (res : OidSearchRes) (xdg : AgentxDatagram)
    → suc n < 2 ^ 16
    → ((answer (suc n) x res xdg ≡ none) × bad res)
      ⊎ ((vb : XVarBind) × (after : AgentxDatagram) × (answer (suc n) x res xdg ≡ some after)
          × (vb.oid ≡ res.oid)
          × Extends n (vb ∷ []) xdg after)

-- The size is that of the value for a number of elements that is the length, and holds it but for
-- object identifiers in any case.
encoded_own : (var : Variable) → encoded (λ val_len. var.len) var ≢ none
unfolding encoded agentx_value_enc agentx_value_enc_try
encoded_own var e = ground (
  arith,
  e,
  length-words (read_words var.value var.len),
  length-read_words var.value var.len,
  length-take var.len var.value,
)

encoded_size : (var : Variable) → encoded (λ val_len. val_len) var ≡ none → var.tag ≡ asn1_tag_objid
unfolding encoded agentx_value_enc agentx_value_enc_try
encoded_size var e = elim (Bool-cases (var.tag == asn1_tag_objid)) [
  | inl o ↦ ground arith
  | inr o ↦ absurd (ground (arith, e, o, length-take var.len var.value))
]

-- What is bad for GET and GETNEXT, and for SET.
abbrev pub Never : OidSearchRes → Type 0
Never res = ⊥

abbrev pub HoldsObjid : OidSearchRes → Type 0
HoldsObjid res = res.var.tag ≡ asn1_tag_objid

pub answer_get-Adds : Adds Never answer_get
unfolding answer_get added
answer_get-Adds n x res xdg h = elim (Option-cases (encoded (λ val_len. res.var.len) res.var)) [
  | inl e ↦ absurd (encoded_own res.var e)
  | inr (value, e) ↦ inr (
    added 0 n res.oid res.var.tag value xdg,
    _,
    rw (answer_get, e) refl,
    refl,
    round-Extends res.err_stat n res.oid res.var.tag value xdg h,
  )
]

pub answer_set-Adds : Adds HoldsObjid answer_set
unfolding answer_set added
answer_set-Adds n x res xdg h = elim (Option-cases (encoded (λ val_len. val_len) res.var)) [
  | inl e ↦ inl (rw (answer_set, e) refl, encoded_size res.var e)
  | inr (value, e) ↦ inr (
    added 0 n res.oid x.val_type value xdg,
    _,
    rw (answer_set, e) refl,
    refl,
    round-Extends res.err_stat n res.oid x.val_type value xdg h,
  )
]

step-Serves {ℓ} :
    {S : Type ℓ} {A : Type 0} (bad : OidSearchRes → Type 0) (good : A → List ℕ → Type 0) (n : ℕ)
    (x : A) (xs : List A) (vb : XVarBind) (before after : AgentxDatagram) (s : Processed S)
    → good x vb.oid
    → Extends n (vb ∷ []) before after
    → Serves bad good (suc n) xs after s
    → Serves bad good n (x ∷ xs) before s
step-Serves bad good n x xs vb before after (processed last st) g f (new, p, e) =
    (vb ∷ new, (g, p), then-Extends n vb new before after last f e)
step-Serves bad good n x xs vb before after (exceeded res) g f s = s
step-Serves bad good n x xs vb before after failed g f s = tt
step-Serves bad good n x xs vb before after unfinished g f s = s

module _ {ℓ} {S : Type ℓ} {A : Type 0} (search : A → OidSearchRes → S → Outcome S)
    (settle : OidSearchRes → OidSearchRes)
    (answer : ℕ → A → OidSearchRes → AgentxDatagram → Option AgentxDatagram)
    (bad : OidSearchRes → Type 0) (good : A → List ℕ → Type 0)
    (finds : (x : A) (res : OidSearchRes) (st : S) → Finds (good x) (search x res st))
    (keeps : (res : OidSearchRes) → (settle res).oid ≡ res.oid) (adds : Adds bad answer) where
  pub pass-Serves :
      (n : ℕ) (xs : List A) (res : OidSearchRes) (xdg : AgentxDatagram) (st : S)
      → n + length xs < 2 ^ 16
      → Serves bad good n xs xdg (pass search settle answer n xs res xdg st)
  unfolding pass
  pass-Serves n [] res xdg st h = ([], tt, none-Extends n xdg)
  pass-Serves n (x ∷ xs) res xdg st h =
      go (λ r s after. pass-Serves (suc n) xs (settle r) after s (omega arith)) (search x res st)
        refl (finds x res st)
    where
      go :
          ((r : OidSearchRes) (s : S) (after : AgentxDatagram)
            → Serves bad good
                (suc n)
                xs
                after
                (pass search settle answer (suc n) xs (settle r) after s))
          → (r : Outcome S) → search x res st ≡ r
          → Finds (good x) r
          → Serves bad good n (x ∷ xs) xdg (pass search settle answer n (x ∷ xs) res xdg st)
      go ih (returned r s) q f = elim (adds n x (settle r) xdg (omega arith)) [
        | inl (a, b) ↦ rw (pass, q, a) b
        | inr (vb, after, a, same, ext) ↦
            rw (pass, q, a)
              (step-Serves bad good n x xs vb xdg after _ (subst (good x) (sym (same ∙ keeps r)) f)
                ext (ih r s after))
      ]
      go ih aborted q f = rw (pass, q) tt
      go ih running q f = absurd f
