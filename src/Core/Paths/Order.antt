-- ===== src/Core/Paths/Order.antt =====
-- The order of paths, of core/src/workspace_sync.cpp.
use lan_pilot.Common.{
  ℕ, true, false, [], ◌∷◌, refl, List, ◌≡◌, bytes_eq, ◌⊎◌, arith, inl, Bool-cases, inr,
  bytes_eq_sound, subst, bytes_eq_refl, sym,
}
use lan_pilot.Core.Paths.{path_less}

pub path_less_irrefl : (p : List ℕ) → path_less p p ≡ false
unfolding path_less
path_less_irrefl [] = refl
path_less_irrefl (x ∷ p) = ground (arith, path_less_irrefl p)

pub path_less_trans :
    (p q r : List ℕ) → path_less p q ≡ true → path_less q r ≡ true → path_less p r ≡ true
unfolding path_less
path_less_trans p q [] h k = absurd (ground (arith, k))
path_less_trans p [] (z ∷ r) h k = absurd (ground (arith, h))
path_less_trans [] (y ∷ q) (z ∷ r) h k = refl
path_less_trans (x ∷ p) (y ∷ q) (z ∷ r) h k = ground (arith, path_less_trans p q r)

pub path_less_total : (p q : List ℕ) → (p ≡ q) ⊎ (path_less p q ≡ true) ⊎ (path_less q p ≡ true)
unfolding path_less
path_less_total [] [] = inl refl
path_less_total [] (y ∷ q) = inr (inl refl)
path_less_total (x ∷ p) [] = inr (inr refl)
path_less_total (x ∷ p) (y ∷ q) = ground (arith, path_less_total p q)

-- Two paths are equal or are told apart.
pub path-cases : (p q : List ℕ) → (p ≡ q) ⊎ (bytes_eq p q ≡ false)
path-cases p q = elim (Bool-cases (bytes_eq p q)) [
  | inl e ↦ inl (bytes_eq_sound p q e)
  | inr e ↦ inr e
]

pub less-differ : (p q : List ℕ) → path_less p q ≡ true → bytes_eq q p ≡ false
less-differ p q h = elim (path-cases q p) [
  | inl e ↦
      let k : path_less p p ≡ true = subst (λ r. path_less p r ≡ true) e h in
      absurd (ground (arith, k, path_less_irrefl p))
  | inr e ↦ e
]

pub less-not : (p q : List ℕ) → path_less p q ≡ true → path_less q p ≡ false
less-not p q h = elim (Bool-cases (path_less q p)) [
  | inl k ↦ absurd (ground (arith, path_less_trans p q p h k, path_less_irrefl p))
  | inr k ↦ k
]

pub same-path : (p q : List ℕ) → p ≡ q → bytes_eq p q ≡ true
same-path p q e = rw e (bytes_eq_refl q)

pub less-apart : (p q : List ℕ) → path_less p q ≡ true → bytes_eq p q ≡ false
less-apart p q h = elim (path-cases p q) [
  | inl e ↦ absurd (ground (arith, less-differ p q h, same-path q p (sym e)))
  | inr e ↦ e
]
