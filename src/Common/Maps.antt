-- ===== src/Common/Maps.antt =====
-- std::set and std::map over numbers: sorted lists of keys, and of keys with their values. A set's
-- keys come in the order that the containers are walked in.
use Prim.Native.Nat.{ℕ}
use mathlib.Core.Path.{◌≡◌}
use mathlib.Core.Bool.{Bool, false, ◌||◌, ◌&&◌, not}
use mathlib.Core.List.{List, [], ◌∷◌}
use lan_pilot.Common.Tests.{ltb, ◌==◌, if◌then◌else◌}
use native.Mathlib.Omega.{arith}

abbrev pub contains : List ℕ → ℕ → Bool
contains [] k = false
contains (x ∷ xs) k = k == x || contains xs k

unfoldable pub insert : ℕ → List ℕ → List ℕ
insert k [] = k ∷ []
insert k (x ∷ xs) =
    let rest = insert k xs in if ltb k x then k ∷ x ∷ xs else if k == x then x ∷ xs else x ∷ rest

-- A key occurs at most once.
unfoldable pub erase : ℕ → List ℕ → List ℕ
erase k [] = []
erase k (x ∷ xs) = let rest = erase k xs in if k == x then rest else x ∷ rest

pub contains-insert : (k j : ℕ) (xs : List ℕ) → contains (insert k xs) j ≡ (j == k || contains xs j)
unfolding insert
contains-insert k j [] = ground arith
contains-insert k j (x ∷ xs) = ground (arith, contains-insert k j xs)

pub contains-erase :
    (k j : ℕ) (xs : List ℕ) → contains (erase k xs) j ≡ (not (j == k) && contains xs j)
unfolding erase
contains-erase k j [] = ground arith
contains-erase k j (x ∷ xs) = ground (arith, contains-erase k j xs)

abbrev pub has_key : List (ℕ × ℕ) → ℕ → Bool
has_key [] k = false
has_key ((x, v) ∷ m) k = k == x || has_key m k

-- `m[k] = v`
unfoldable pub assign : ℕ → ℕ → List (ℕ × ℕ) → List (ℕ × ℕ)
assign k v [] = (k, v) ∷ []
assign k v ((x, w) ∷ m) =
    let rest = assign k v m in
    if ltb k x then (k, v) ∷ (x, w) ∷ m else if k == x then (k, v) ∷ m else (x, w) ∷ rest

unfoldable pub erase_key : ℕ → List (ℕ × ℕ) → List (ℕ × ℕ)
erase_key k [] = []
erase_key k ((x, v) ∷ m) = let rest = erase_key k m in if k == x then rest else (x, v) ∷ rest

pub has_key-assign :
    (k v j : ℕ) (m : List (ℕ × ℕ)) → has_key (assign k v m) j ≡ (j == k || has_key m j)
unfolding assign
has_key-assign k v j [] = ground arith
has_key-assign k v j ((x, w) ∷ m) = ground (arith, has_key-assign k v j m)

pub has_key-erase_key :
    (k j : ℕ) (m : List (ℕ × ℕ)) → has_key (erase_key k m) j ≡ (not (j == k) && has_key m j)
unfolding erase_key
has_key-erase_key k j [] = ground arith
has_key-erase_key k j ((x, w) ∷ m) = ground (arith, has_key-erase_key k j m)
