-- ===== src/Common/Tables.antt =====
-- std::map from numbers to values of any type: a list of the keys, in ascending order, with their
-- values.
use Prim.Native.Nat.{ℕ, suc, ◌<◌, ◌≤◌}
use mathlib.Core.Path.{◌≡◌, refl}
use mathlib.Core.Option.{Option, none, some}
use mathlib.Core.List.{List, [], ◌∷◌}
use mathlib.Core.Logic.{inl, inr}
use lan_pilot.Common.Tests.{if◌then◌else◌, ltb, ◌==◌, Bool-cases}
use lan_pilot.Common.Lists.{length}
use native.Mathlib.Omega.{arith}

module _ {ℓ} {V : Type ℓ} where
  unfoldable pub find_key : ℕ → List (ℕ × V) → Option V
  find_key k [] = none
  find_key k ((x, v) ∷ m) = let rest = find_key k m in if k == x then some v else rest

  -- `emplace` or `insert_or_assign`
  unfoldable pub put_key : ℕ → V → List (ℕ × V) → List (ℕ × V)
  put_key k v [] = (k, v) ∷ []
  put_key k v ((x, w) ∷ m) =
      let rest = put_key k v m in
      if ltb k x then (k, v) ∷ (x, w) ∷ m else if k == x then (k, v) ∷ m else (x, w) ∷ rest

  unfoldable pub remove_key : ℕ → List (ℕ × V) → List (ℕ × V)
  remove_key k [] = []
  remove_key k ((x, v) ∷ m) = let rest = remove_key k m in if k == x then m else (x, v) ∷ rest

  -- `begin()->first`; 0 where the map is empty.
  abbrev pub first_key : List (ℕ × V) → ℕ
  first_key [] = 0
  first_key ((x, v) ∷ m) = x

  -- Every key is at least `k`.
  abbrev pub From : ℕ → List (ℕ × V) → Type 0
  From k [] = Unit {0}
  From k ((x, v) ∷ m) = (k ≤ x) × From k m

  abbrev pub Ascending : List (ℕ × V) → Type 0
  Ascending [] = Unit {0}
  Ascending ((x, v) ∷ m) = From (suc x) m × Ascending m

  pub From-le : (j k : ℕ) (m : List (ℕ × V)) → j ≤ k → From k m → From j m
  From-le j k [] h f = tt
  From-le j k ((x, v) ∷ m) h f = (omega (arith, h, f.0), From-le j k m h f.1)

  pub From-none : (j k : ℕ) (m : List (ℕ × V)) → j < k → From k m → find_key j m ≡ none
  unfolding find_key
  From-none j k [] h f = refl
  From-none j k ((x, v) ∷ m) h f = ground (arith, From-none j k m h f.1, f.0)

  pub From-find : (j k : ℕ) (m : List (ℕ × V)) (v : V) → From k m → find_key j m ≡ some v → k ≤ j
  unfolding find_key
  From-find j k [] v f e = absurd (ground arith)
  From-find j k ((x, w) ∷ m) v f e = elim (Bool-cases (j == x)) [
    | inl h ↦ ground (arith, h, f.0)
    | inr h ↦ From-find j k m v f.1 (ground (arith, e, h))
  ]

  pub From-put : (k j : ℕ) (v : V) (m : List (ℕ × V)) → j ≤ k → From j m → From j (put_key k v m)
  unfolding put_key
  From-put k j v [] h f = (h, tt)
  From-put k j v ((x, w) ∷ m) h f = ground (arith, From-put k j v m h f.1, f.0, f.1)

  pub From-remove : (k j : ℕ) (m : List (ℕ × V)) → From j m → From j (remove_key k m)
  unfolding remove_key
  From-remove k j [] f = tt
  From-remove k j ((x, w) ∷ m) f = ground (arith, From-remove k j m f.1, f.0, f.1)

  pub Ascending-put : (k : ℕ) (v : V) (m : List (ℕ × V)) → Ascending m → Ascending (put_key k v m)
  unfolding put_key
  Ascending-put k v [] h = (tt, tt)
  Ascending-put k v ((x, w) ∷ m) h = elim (Bool-cases (ltb k x)) [
    | inl a ↦
        rw a ((ground (arith, a), From-le (suc k) (suc x) m (ground (arith, a)) h.0), (h.0, h.1))
    | inr a ↦ elim (Bool-cases (k == x)) [
      | inl b ↦ rw (a, b) (From-le (suc k) (suc x) m (ground (arith, b)) h.0, h.1)
      | inr b ↦
          rw (a, b) (From-put k (suc x) v m (ground (arith, a, b)) h.0, Ascending-put k v m h.1)
    ]
  ]

  pub Ascending-remove : (k : ℕ) (m : List (ℕ × V)) → Ascending m → Ascending (remove_key k m)
  unfolding remove_key
  Ascending-remove k [] h = tt
  Ascending-remove k ((x, w) ∷ m) h = elim (Bool-cases (k == x)) [
    | inl b ↦ rw b h.1
    | inr b ↦ rw b (From-remove k (suc x) m h.0, Ascending-remove k m h.1)
  ]

  pub find-put_key :
      (k j : ℕ) (v : V) (m : List (ℕ × V))
      → find_key j (put_key k v m) ≡ (if j == k then some v else find_key j m)
  unfolding find_key put_key
  find-put_key k j v [] = ground arith
  find-put_key k j v ((x, w) ∷ m) = ground (arith, find-put_key k j v m)

  pub find-remove_key :
      (k j : ℕ) (m : List (ℕ × V))
      → Ascending m
      → find_key j (remove_key k m) ≡ (if j == k then none else find_key j m)
  unfolding find_key remove_key
  find-remove_key k j [] h = ground arith
  find-remove_key k j ((x, w) ∷ m) h = elim (Bool-cases (k == x)) [
    | inl b ↦ elim (Bool-cases (j == k)) [
      | inl c ↦ ground (arith, b, c, From-none j (suc x) m (ground (arith, b, c)) h.0)
      | inr c ↦ ground (arith, b, c)
    ]
    | inr b ↦ ground (arith, b, find-remove_key k j m h.1)
  ]

  pub length-put_key :
      (k : ℕ) (v : V) (m : List (ℕ × V))
      → find_key k m ≡ none
      → length (put_key k v m) ≡ suc (length m)
  unfolding find_key put_key
  length-put_key k v [] h = refl
  length-put_key k v ((x, w) ∷ m) h = ground (arith, length-put_key k v m)

  pub length-remove_key :
      (k : ℕ) (m : List (ℕ × V)) (v : V)
      → find_key k m ≡ some v
      → suc (length (remove_key k m)) ≡ length m
  unfolding find_key remove_key
  length-remove_key k [] v h = absurd (ground arith)
  length-remove_key k ((x, w) ∷ m) v h = ground (arith, length-remove_key k m v)

  -- A key that is found makes the map begin no later.
  pub first_key-le :
      (k : ℕ) (m : List (ℕ × V)) (v : V)
      → Ascending m
      → find_key k m ≡ some v
      → (first_key m ≤ k) × (0 < length m)
  unfolding find_key
  first_key-le k [] v h e = absurd (ground arith)
  first_key-le k ((x, w) ∷ m) v h e = elim (Bool-cases (k == x)) [
    | inl b ↦ (ground (arith, b), omega arith)
    | inr b ↦ (omega (arith, From-find k (suc x) m v h.0 (ground (arith, b, e))), omega arith)
  ]
