-- ===== src/Core/Identity/Compare.antt =====
-- constant_time_equals of core/src/identity.cpp.
use lan_pilot.Common.{
  ℕ, [], ◌∷◌, refl, true, Bool, ◌<◌, List, All, ◌≡◌, bits_or, ◌↔◌, bits_xor, arith, byte_or_bound,
  ap₂, byte_or_iff, length, byte_xor_iff, ◌%◌, sym, byte_xor_bound, ==_iff,
}
use lan_pilot.Core.Identity.{compare_loop, constant_time_equals, is_hex, all_of}

abbrev pub IsByte : ℕ → Type 0
IsByte x = x < 256

-- The texts agree, where the shorter one is continued by zeros.
abbrev pub Padded : List ℕ → List ℕ → Type 0
Padded [] [] = Unit {0}
Padded (x ∷ xs) [] = (x ≡ 0) × Padded xs []
Padded [] (y ∷ ys) = (y ≡ 0) × Padded [] ys
Padded (x ∷ xs) (y ∷ ys) = (x ≡ y) × Padded xs ys

-- One round leaves no difference exactly when there was none and the bytes agree.
round_iff :
    (d x y : ℕ)
    → d < 256
    → x < 256
    → y < 256
    → (bits_or 8 d (bits_xor 8 x y) ≡ 0) ↔ ((d ≡ 0) × (x ≡ y))
round_iff d x y hd hx hy =
    let (f, g) = byte_or_iff d (bits_xor 8 x y) in
    let (u, v) = byte_xor_iff x y in
    let b = byte_xor_bound x y in
    (
      λ h.
          let (p, q) = f h in
          let e = u (omega (arith, q, b)) in (omega (arith, p), omega (arith, e)),
      λ h. let e = v (omega (arith, h.1)) in g (omega (arith, h.0), omega (arith, e)),
    )

compare_loop_iff :
    (xs ys : List ℕ) (d : ℕ)
    → All IsByte xs
    → All IsByte ys
    → d < 256
    → (compare_loop xs ys d ≡ 0) ↔ ((d ≡ 0) × Padded xs ys)
unfolding compare_loop
compare_loop_iff [] [] d hx hy hd = (λ h. (h, tt), λ h. h.0)
compare_loop_iff (x ∷ xs) [] d hx hy hd =
    let (f, g) =
      compare_loop_iff xs [] (bits_or 8 d (bits_xor 8 x 0)) hx.1 tt (byte_or_bound d _) in
    let (u, v) = round_iff d x 0 hd hx.0 (omega arith) in
    (λ h. let (p, q) = f h in let (r, s) = u p in (r, (s, q)), λ h. g (v (h.0, h.1.0), h.1.1))
compare_loop_iff [] (y ∷ ys) d hx hy hd =
    let (f, g) =
      compare_loop_iff [] ys (bits_or 8 d (bits_xor 8 0 y)) tt hy.1 (byte_or_bound d _) in
    let (u, v) = round_iff d 0 y hd (omega arith) hy.0 in
    (
      λ h. let (p, q) = f h in let (r, s) = u p in (r, (sym s, q)),
      λ h. g (v (h.0, sym h.1.0), h.1.1),
    )
compare_loop_iff (x ∷ xs) (y ∷ ys) d hx hy hd =
    let (f, g) =
      compare_loop_iff xs ys (bits_or 8 d (bits_xor 8 x y)) hx.1 hy.1 (byte_or_bound d _) in
    let (u, v) = round_iff d x y hd hx.0 hy.0 in
    (λ h. let (p, q) = f h in let (r, s) = u p in (r, (s, q)), λ h. g (v (h.0, h.1.0), h.1.1))

-- Two byte strings compare as equal exactly when their lengths agree modulo 256 and they agree byte
-- for byte, the shorter one continued by zeros.
pub constant_time_equals_iff :
    (xs ys : List ℕ)
    → All IsByte xs
    → All IsByte ys
    → (constant_time_equals xs ys ≡ true) ↔ ((length xs % 256 ≡ length ys % 256) × Padded xs ys)
unfolding constant_time_equals
constant_time_equals_iff xs ys hx hy =
    let n = bits_xor 8 (length xs) (length ys) in
    let (f, g) = compare_loop_iff xs ys n hx hy (byte_xor_bound (length xs) (length ys)) in
    let (u, v) = byte_xor_iff (length xs) (length ys) in
    let (a, b) = ==_iff (compare_loop xs ys n) 0 in
    (λ h. let (p, q) = f (a h) in (u p, q), λ h. b (g (v h.0, h.1)))

Padded-refl : (xs : List ℕ) → Padded xs xs
Padded-refl [] = tt
Padded-refl (x ∷ xs) = (refl, Padded-refl xs)

pub constant_time_equals_refl : (xs : List ℕ) → All IsByte xs → constant_time_equals xs xs ≡ true
constant_time_equals_refl xs h = (constant_time_equals_iff xs xs h h).1 (refl, Padded-refl xs)

-- On texts with no zero byte nothing is continued.
Padded-nonzero :
    (xs ys : List ℕ) → All (λ x. 0 < x) xs → All (λ y. 0 < y) ys → Padded xs ys → xs ≡ ys
Padded-nonzero [] [] hx hy h = refl
Padded-nonzero (x ∷ xs) [] hx hy h = absurd (omega (arith, hx.0, h.0))
Padded-nonzero [] (y ∷ ys) hx hy h = absurd (omega (arith, hy.0, h.0))
Padded-nonzero (x ∷ xs) (y ∷ ys) hx hy h =
    ap₂ (λ (a : ℕ) (l : List ℕ). a ∷ l) h.0 (Padded-nonzero xs ys hx.1 hy.1 h.1)

module _ (p : ℕ → Bool) (P : ℕ → Type 0) (h : (x : ℕ) → p x ≡ true → P x) where
  pub All_of_test : (xs : List ℕ) → all_of p xs ≡ true → All P xs
  All_of_test [] e = tt
  All_of_test (x ∷ xs) e = (h x (ground arith), All_of_test xs (ground arith))

hex-IsByte : (x : ℕ) → is_hex x ≡ true → IsByte x
hex-IsByte x h = ground arith

hex-nonzero : (x : ℕ) → is_hex x ≡ true → 0 < x
hex-nonzero x h = ground arith

-- Hexadecimal texts compare as equal only when they are.
pub constant_time_equals_hex :
    (xs ys : List ℕ)
    → all_of is_hex xs ≡ true
    → all_of is_hex ys ≡ true
    → constant_time_equals xs ys ≡ true
    → xs ≡ ys
constant_time_equals_hex xs ys hx hy h =
    let bytes_x = All_of_test is_hex IsByte hex-IsByte xs hx in
    let bytes_y = All_of_test is_hex IsByte hex-IsByte ys hy in
    Padded-nonzero xs ys (All_of_test is_hex (λ x. 0 < x) hex-nonzero xs hx)
      (All_of_test is_hex (λ x. 0 < x) hex-nonzero ys hy)
      ((constant_time_equals_iff xs ys bytes_x bytes_y).0 h).1

-- A text compares as equal to itself.
pub constant_time_equals_hex_refl :
    (xs : List ℕ) → all_of is_hex xs ≡ true → constant_time_equals xs xs ≡ true
constant_time_equals_hex_refl xs h =
    constant_time_equals_refl xs (All_of_test is_hex IsByte hex-IsByte xs h)
