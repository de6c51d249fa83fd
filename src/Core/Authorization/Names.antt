-- ===== src/Core/Authorization/Names.antt =====
-- to_string and capability_from_string of core/src/authorization.cpp.
use Prim.Native.String.{String}
use text.Mathlib.TextEquality.{eq_iff}
use lan_pilot.Common.{
  ℕ, true, some, [], ◌∷◌, List, contains, All, ◌≡◌, arith, ◌↔◌, Bool-cases, sym, ◌==◌, inl, subst,
  ==_iff, inr, refl, ap,
}
use lan_pilot.Core.Authorization.{capability_from_string, to_string, find_named, capabilities}

find_named-to_string :
    (cs : List ℕ) (name : String) (c : ℕ) → find_named cs name ≡ some c → to_string c ≡ name
unfolding find_named
find_named-to_string [] name c e = absurd (cc)
find_named-to_string (d ∷ cs) name c e =
    ground (arith, eq_iff (to_string d) name, find_named-to_string cs name c, ap to_string)

named : All (λ c. capability_from_string (to_string c) ≡ some c) capabilities
unfolding capability_from_string to_string
named = (
  refl,
  (
    refl,
    (
      refl,
      (
        refl,
        (
          refl,
          (
            refl,
            (
              refl,
              (
                refl,
                (refl, (refl, (refl, (refl, (refl, (refl, (refl, (refl, (refl, (refl, tt)))))))))),
              ),
            ),
          ),
        ),
      ),
    ),
  ),
)

All-contains : (P : ℕ → Type 0) (cs : List ℕ) (c : ℕ) → All P cs → contains cs c ≡ true → P c
All-contains P [] c a h = absurd (cc)
All-contains P (d ∷ cs) c a h = elim (Bool-cases (c == d)) [
  | inl e ↦ subst P (sym ((==_iff c d).0 e)) a.0
  | inr e ↦ All-contains P cs c a.1 (ground (arith, e))
]

-- Names and capabilities correspond: each capability has a name that is read back as itself, and a
-- name that is read as a capability is that capability's name.
pub capability_from_string-to_string :
    (c : ℕ) (name : String)
    → contains capabilities c ≡ true
    → (capability_from_string name ≡ some c) ↔ (name ≡ to_string c)
unfolding capability_from_string
capability_from_string-to_string c name h = (
  (λ e. sym (find_named-to_string capabilities name c e)),
  λ e.
      rw e
        (All-contains (λ c. capability_from_string (to_string c) ≡ some c) capabilities c named h),
)
