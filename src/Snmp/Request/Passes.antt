-- ===== src/Snmp/Request/Passes.antt =====
-- The loop over the bindings of a request (core/snmp_msg_proc.c): one answer for each.
use smithsnmp.Base.{
  ℕ, zero, suc, ◌+◌, ◌*◌, ◌≡◌, refl, ap, ◌∙◌, arith, Option, inl, inr, List, [], ◌∷◌, length,
}
use smithsnmp.Snmp.Request.Encoded.{answer_get-Adds}
use smithsnmp.Mib.Instance.{OidSearchRes}
use smithsnmp.Snmp.Access.{Outcome, returned, aborted, running}
use smithsnmp.Snmp.Request.{
  VarBind, Datagram, Served, served, failed, unfinished, decode_value, pass, exceeded, answer_get,
  bulk_loop,
}
use smithsnmp.Snmp.Request.Answers.{
  Adds, Serves, Over, oids, round_step, round-Answers, done-Answers,
}

-- The search did not run out of rounds, and what it returned has a good identifier.
abbrev pub Finds {ℓ} : {S : Type ℓ} → (List ℕ → Type 0) → Outcome S → Type 0
Finds good (returned res st) = good res.oid
Finds good aborted = Unit
Finds good running = ⊥

-- Behind a step.
step-Serves {ℓ} :
    {S : Type ℓ} (good : VarBind → List ℕ → Type 0) (fits : List (List ℕ) → Type 0) (n : ℕ)
    (vb : VarBind) (vbs : List VarBind) (oid : List ℕ) (before : Datagram) (type e : ℕ)
    (value : List ℕ) (s : Served S)
    → good vb oid
    → Serves (Over good vbs fits) (suc n) (round_step n before oid type e value) s
    → Serves (Over good (vb ∷ vbs) fits) n before s
step-Serves good fits n vb vbs oid before type e value (served last st) g (os, f, a) =
    (oid ∷ os, (g, f), round-Answers n before oid type e value os last a)
step-Serves good fits n vb vbs oid before type e value (exceeded res) g a = a
step-Serves good fits n vb vbs oid before type e value failed g a = tt
step-Serves good fits n vb vbs oid before type e value unfinished g a = a

module _ {ℓ} {S : Type ℓ} (search : List ℕ → OidSearchRes → S → Outcome S)
    (settle : OidSearchRes → OidSearchRes)
    (answer : ℕ → VarBind → OidSearchRes → Datagram → Option Datagram)
    (good : VarBind → List ℕ → Type 0)
    (finds : (vb : VarBind) (res : OidSearchRes) (st : S)
      → Finds (λ o. good vb o) (search vb.oid res st))
    (keeps : (res : OidSearchRes) → (settle res).oid ≡ res.oid) (adds : Adds answer)
    (fits : List (List ℕ) → Type 0) where
  pub pass-Serves :
      (next : ℕ → List VarBind → OidSearchRes → Datagram → S → Served S) (n : ℕ)
      (vbs : List VarBind) (ret_oid : OidSearchRes) (sdg : Datagram) (st : S)
      → ((m : ℕ) (vbs' : List VarBind) (res : OidSearchRes) (sdg' : Datagram) (st' : S)
          → length vbs' ≡ length vbs
          → Serves fits m sdg' (next m vbs' res sdg' st'))
      → Serves (Over good vbs fits) n sdg (pass search settle answer next n vbs ret_oid sdg st)
  unfolding pass
  pass-Serves next n [] ret_oid sdg st rest = rest n [] ret_oid sdg st refl
  pass-Serves next n (vb ∷ vbs) ret_oid sdg st rest =
      go
        (λ res st' sdg1.
          pass-Serves (λ m vbs'. next m (record vb { oid = (settle res).oid } ∷ vbs')) (suc n) vbs
            (settle res) sdg1 st'
            (λ m vbs' res' sdg' s' l.
              rest m (record vb { oid = (settle res).oid } ∷ vbs') res' sdg' s'
                (ap (λ t. suc t) l)))
        (search vb.oid (decode_value vb ret_oid) st) refl (finds vb (decode_value vb ret_oid) st)
    where
      go :
          ((res : OidSearchRes) (st' : S) (sdg1 : Datagram)
            → Serves (Over good vbs fits) (suc n) sdg1 (
                pass search settle answer
                  (λ m vbs'. next m (record vb { oid = (settle res).oid } ∷ vbs'))
                  (suc n)
                  vbs
                  (settle res)
                  sdg1
                  st'))
          → (r : Outcome S) → search vb.oid (decode_value vb ret_oid) st ≡ r
          → Finds (λ o. good vb o) r
          → Serves
              (Over good (vb ∷ vbs) fits)
              n
              sdg
              (pass search settle answer next n (vb ∷ vbs) ret_oid sdg st)
      go ih (returned res st') q f = elim (adds n vb (settle res) sdg) [
        | inl (a, x) ↦ rw (pass, q, a) x
        | inr (type, e, value, a) ↦
            rw (pass, q, a)
              (step-Serves good fits n vb vbs (settle res).oid sdg type e value _ (rw (keeps res) f)
                (ih res st' (round_step n sdg (settle res).oid type e value)))
      ]
      go ih aborted q f = rw (pass, q) tt
      go ih running q f = absurd f

-- Any identifiers, one for each binding, and then so many.
more-Over :
    (vbs : List VarBind) (c : ℕ) (os : List (List ℕ))
    → Over (λ vb o. Unit) vbs (λ t. length t ≡ c) os
    → length os ≡ length vbs + c
more-Over [] c os h = omega arith
more-Over (vb ∷ vbs) c [] h = absurd h
more-Over (vb ∷ vbs) c (o ∷ os) h = let e = more-Over vbs c os h.1 in omega arith

-- One for each binding.
pub any-Over :
    (vbs : List VarBind) (os : List (List ℕ))
    → Over (λ vb o. Unit) vbs (λ t. t ≡ []) os
    → length os ≡ length vbs
any-Over [] os h = rw h refl
any-Over (vb ∷ vbs) [] h = absurd h
any-Over (vb ∷ vbs) (o ∷ os) h = ap (λ t. suc t) (any-Over vbs os h.1)

-- The same identifiers.
pub same-Over :
    (vbs : List VarBind) (os : List (List ℕ))
    → Over (λ vb o. o ≡ vb.oid) vbs (λ t. t ≡ []) os
    → os ≡ oids vbs
same-Over [] os h = h
same-Over (vb ∷ vbs) [] h = absurd h
same-Over (vb ∷ vbs) (o ∷ os) h = rw (h.0, same-Over vbs os h.1) refl

-- A request with weaker wants.
pub Serves-map {ℓ} :
    {S : Type ℓ} (fits wants : List (List ℕ) → Type 0) (n : ℕ) (before : Datagram) (s : Served S)
    → ((os : List (List ℕ)) → fits os → wants os)
    → Serves fits n before s
    → Serves wants n before s
Serves-map fits wants n before (served after st) f (os, h, a) = (os, f os h, a)
Serves-map fits wants n before (exceeded res) f h = h
Serves-map fits wants n before failed f h = tt
Serves-map fits wants n before unfinished f h = h

module _ {ℓ} {S : Type ℓ} (search : List ℕ → OidSearchRes → S → Outcome S)
    (finds : (vb : VarBind) (res : OidSearchRes) (st : S)
      → Finds (λ o. Unit) (search vb.oid res st)) where
  pub bulk_loop-Serves :
      (repeat n c : ℕ) (vbs : List VarBind) (ret_oid : OidSearchRes) (sdg : Datagram) (st : S)
      → length vbs ≡ c
      → Serves (λ os. length os ≡ repeat * c) n sdg (bulk_loop search repeat n vbs ret_oid sdg st)
  unfolding bulk_loop
  bulk_loop-Serves zero n c vbs ret_oid sdg st l = ([], omega arith, done-Answers n sdg)
  bulk_loop-Serves (suc repeat) n c vbs ret_oid sdg st l =
      Serves-map (Over (λ vb o. Unit) vbs (λ t. length t ≡ repeat * c))
        (λ os. length os ≡ suc repeat * c) n sdg
        (pass search (λ res. res) answer_get (bulk_loop search repeat) n vbs ret_oid sdg st)
        (λ os h. let e = more-Over vbs (repeat * c) os h in omega arith)
        (pass-Serves search (λ res. res) answer_get (λ vb o. Unit) finds (λ res. refl)
          answer_get-Adds (λ t. length t ≡ repeat * c) (bulk_loop search repeat) n vbs ret_oid sdg
          st (λ m vbs' res sdg' st' e. bulk_loop-Serves repeat m c vbs' res sdg' st' (e ∙ l)))
