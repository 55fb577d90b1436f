-- ===== src/Outcome.antt =====
-- How a Go call ends: it returns a value, returns an error, or panics. A panic passes through
-- every caller, an error is a value that the caller looks at.
pub mod Loops
use rbac_manager.Prelude.{◌≡◌, ◌⊎◌, inl, inr, refl, ap, Bool, true, false}

pub data Outcome {ℓ} (E A : Type ℓ) : Type ℓ where
  ok : A → Outcome E A
  err : E → Outcome E A
  panic : Outcome E A

module _ {ℓ} {E A : Type ℓ} where
  -- `if err != nil { return err }`
  infixl 5 ◌>>=◌
  abbrev pub ◌>>=◌ : {B : Type ℓ} → Outcome E A → (A → Outcome E B) → Outcome E B
  panic >>= next = panic
  err e >>= next = err e
  ok a >>= next = next a

  -- The error of a callee, seen as another error: `fmt.Errorf("...: %s", err)`.
  abbrev pub map_err : {F : Type ℓ} → (E → F) → Outcome E A → Outcome F A
  map_err wrap panic = panic
  map_err wrap (err e) = err (wrap e)
  map_err wrap (ok a) = ok a

  -- What is read of a returned value.
  abbrev pub map_ok : {B : Type ℓ} → (A → B) → Outcome E A → Outcome E B
  map_ok f panic = panic
  map_ok f (err e) = err e
  map_ok f (ok a) = ok (f a)

  pub map_err-eq-ok :
      {F : Type ℓ} (wrap : E → F) (o : Outcome E A) {a : A} → map_err wrap o ≡ ok a → o ≡ ok a
  map_err-eq-ok wrap panic is_ok = cc
  map_err-eq-ok wrap (err e) is_ok = cc
  map_err-eq-ok wrap (ok a) is_ok = cc

  -- What a successful chain says of its first call is handed to the rest of the proof.
  pub >>=-then {κ} :
      {B : Type ℓ} {R : Type κ} (o : Outcome E A) (next : A → Outcome E B) {b : B}
      → (o >>= next) ≡ ok b
      → ((a : A) → o ≡ ok a → next a ≡ ok b → R)
      → R
  >>=-then panic next is_ok rest = absurd (cc)
  >>=-then (err e) next is_ok rest = absurd (cc)
  >>=-then (ok a) next is_ok rest = rest a refl is_ok

ok_or {ℓ} : {E A : Type ℓ} → A → Outcome E A → A
ok_or a (ok b) = b
ok_or a (err e) = a
ok_or a panic = a

pub ok-injective {ℓ} : {E A : Type ℓ} {a b : A} → ◌≡◌ {A = Outcome E A} (ok a) (ok b) → a ≡ b
unfolding ok_or
ok-injective {a} e = ap (ok_or a) e

pub Outcome-cases {ℓ} :
    {E A : Type ℓ} (o : Outcome E A)
    → ((a : A) × (o ≡ ok a)) ⊎ (((e : E) × (o ≡ err e)) ⊎ (o ≡ panic))
Outcome-cases (ok a) = inl (a, refl)
Outcome-cases (err e) = inr (inl (e, refl))
Outcome-cases panic = inr (inr refl)
