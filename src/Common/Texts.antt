-- ===== src/Common/Texts.antt =====
-- std::string and std::map over texts: a map is a list of keys with their values, in the order in
-- which the keys came.
use Prim.Native.Nat.{ℕ}
use Prim.Native.Char.{code}
use Prim.Native.String.{String}
use text.Mathlib.Text.{◌==◌ as str_eq}
use text.Mathlib.TextEquality.{eq_iff}
use mathlib.Core.Path.{◌≡◌, refl}
use mathlib.Core.Bool.{Bool, true, false}
use mathlib.Core.Option.{Option, none, some}
use mathlib.Core.List.{List, [], ◌∷◌}
use mathlib.Core.Logic.{◌⊎◌, inl, inr}
use lan_pilot.Common.Tests.{if◌then◌else◌, Bool-cases}
use native.Mathlib.Omega.{arith}

-- The code points of a text: its bytes, where it is ASCII.
abbrev pub codes : String → List ℕ
codes String.[] = []
codes (String.◌∷◌ c s) = code c ∷ codes s

abbrev pub is_empty : String → Bool
is_empty s = str_eq s ""

module _ {ℓ} {V : Type ℓ} where
  unfoldable pub lookup : String → List (String × V) → Option V
  lookup k [] = none
  lookup k ((x, v) ∷ m) = let rest = lookup k m in if str_eq x k then some v else rest

  -- `insert_or_assign`
  unfoldable pub put : String → V → List (String × V) → List (String × V)
  put k v [] = (k, v) ∷ []
  put k v ((x, w) ∷ m) = let rest = put k v m in if str_eq x k then (k, v) ∷ m else (x, w) ∷ rest

  pub lookup-put :
      (k j : String) (v : V) (m : List (String × V))
      → lookup j (put k v m) ≡ (if str_eq k j then some v else lookup j m)
  unfolding lookup put
  lookup-put k j v [] = refl
  lookup-put k j v ((x, w) ∷ m) =
      ground (arith, lookup-put k j v m, eq_iff x k, eq_iff k j, eq_iff x j)

pub same_text : (s : String) → str_eq s s ≡ true
same_text s = (eq_iff s s).1 refl

-- Two texts are equal or are told apart.
pub text-cases : (s t : String) → (s ≡ t) ⊎ (str_eq s t ≡ false)
text-cases s t = elim (Bool-cases (str_eq s t)) [ inl e ↦ inl ((eq_iff s t).0 e) | inr e ↦ inr e ]
