-- ===== src/Parse.antt =====
-- Messages as they are read from their front in core/snmp_msg_in.c and core/agentx_msg_in.c.
use smithsnmp.Base.{
  ℕ, ◌+◌, ◌-◌, ◌%◌, ◌^◌, ◌≡◌, refl, arith, Bool, true, false, List, [], ◌∷◌, ◌++◌, length, take,
  drop, leb, le→leb, if◌then◌else◌, length-append, take-length-append, drop-length-append,
}

-- What decoding gives, with the error codes of the protocol. `overrun` is a read behind the end of the
-- message or a write behind the end of a field, of which C promises nothing.
pub data Parsed {ℓ} (E : Type 0) (A : Type ℓ) : Type ℓ where
  decoded : A → Parsed E A
  rejected : E → Parsed E A
  overrun : Parsed E A

infixl 5 ◌>>=◌ ◌>>◌
abbrev pub ◌>>=◌ {ℓ κ} :
    {E : Type 0} {A : Type ℓ} {B : Type κ} → Parsed E A → (A → Parsed E B) → Parsed E B
decoded a >>= f = f a
rejected e >>= f = rejected e
overrun >>= f = overrun

abbrev pub ◌>>◌ {ℓ} : {E : Type 0} {B : Type ℓ} → Parsed E (Unit {0}) → Parsed E B → Parsed E B
m >> k = m >>= λ _. k

-- `if (bad) return err;`
abbrev pub check : {E : Type 0} → Bool → E → Parsed E (Unit {0})
check true err = rejected err
check false err = decoded tt

-- `*buf++`
unfoldable pub get_byte : {E : Type 0} → List ℕ → Parsed E (ℕ × List ℕ)
get_byte [] = overrun
get_byte (b ∷ buf) = decoded (b, buf)

-- The `len` bytes of a value, and what is behind them.
unfoldable pub get_bytes : {E : Type 0} → ℕ → List ℕ → Parsed E (List ℕ × List ℕ)
get_bytes len buf = if leb len (length buf) then decoded (take len buf, drop len buf) else overrun

-- What is left of a length, a `uint32_t`, after `n` bytes.
abbrev pub less : ℕ → ℕ → ℕ
less len n = (len + 2 ^ 32 - n % 2 ^ 32) % 2 ^ 32

-- What was written is read.
pub get_bytes-append :
    {E : Type 0} (len : ℕ) (bytes rest : List ℕ)
    → len ≡ length bytes
    → get_bytes {E = E} len (bytes ++ rest) ≡ decoded (bytes, rest)
unfolding get_bytes
get_bytes-append len bytes rest e =
    rw
      (
        e,
        le→leb (length bytes) (length (bytes ++ rest)) (omega (arith, length-append bytes rest)),
        take-length-append bytes rest,
        drop-length-append bytes rest,
      )
      refl
