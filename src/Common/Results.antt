-- ===== src/Common/Results.antt =====
-- Exceptions as values. An exception is its class; the message text is not kept.
use mathlib.Core.Path.{◌≡◌, refl}
use mathlib.Core.Bool.{Bool, true, false}
use mathlib.Core.Logic.{◌⊎◌, inl, inr}
use native.Mathlib.Omega.{arith}

-- std::invalid_argument and its siblings.
pub data Exception : Type 0 where
  invalid_argument length_error logic_error runtime_error out_of_range : Exception

pub data Result {ℓ} (A : Type ℓ) : Type ℓ where
  ok : A → Result A
  err : Exception → Result A

-- `if (bad) throw e;`
abbrev pub throw_if : Bool → Exception → Result (Unit {0})
throw_if true e = err e
throw_if false e = ok tt

abbrev pub Succeeds {ℓ} : {A : Type ℓ} → Result A → Type 0
Succeeds (ok a) = Unit {0}
Succeeds (err e) = ⊥

pub throw_if-eq-ok : (b : Bool) (e : Exception) {u : Unit {0}} → throw_if b e ≡ ok u → b ≡ false
throw_if-eq-ok true e h = cc
throw_if-eq-ok false e h = refl

-- A validation that may throw, then the rest, in files where `do` is another monad's.
infixr 6 ◌⨾◌
abbrev pub ◌⨾◌ {ℓ} : {B : Type ℓ} → Result (Unit {0}) → Result B → Result B
ok _ ⨾ k = k
err e ⨾ k = err e

pub ⨾-eq-ok {ℓ} :
    {B : Type ℓ} (m : Result (Unit {0})) (k : Result B) {b : B}
    → (m ⨾ k) ≡ ok b
    → (m ≡ ok tt) × (k ≡ ok b)
⨾-eq-ok (ok tt) k h = (refl, h)
⨾-eq-ok (err e) k h = cc

-- `static_cast<void>(f(…))`: only whether it throws counts.
abbrev pub discard {ℓ} : {A : Type ℓ} → Result A → Result (Unit {0})
discard (ok a) = ok tt
discard (err e) = err e

module _ {ℓ} {A : Type ℓ} (m : Result (Unit {0})) (a : A) where
  pub discard-ok : m ≡ ok tt → discard (m ⨾ ok a) ≡ ok tt
  discard-ok h = rw h

  pub discard-eq-ok : discard (m ⨾ ok a) ≡ ok tt → m ≡ ok tt
  discard-eq-ok h = ground arith

pub Result-cases : (m : Result (Unit {0})) → (m ≡ ok tt) ⊎ ((x : Exception) × (m ≡ err x))
Result-cases (ok tt) = inl refl
Result-cases (err x) = inr (x, refl)

pub Outcome-cases {ℓ} :
    {A : Type ℓ} (m : Result A) → ((a : A) × (m ≡ ok a)) ⊎ ((x : Exception) × (m ≡ err x))
Outcome-cases (ok a) = inl (a, refl)
Outcome-cases (err x) = inr (x, refl)
