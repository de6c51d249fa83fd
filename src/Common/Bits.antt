-- ===== src/Common/Bits.antt =====
-- Bitwise operators on the low `w` bits of unsigned numbers.
use Prim.Native.Nat.{ℕ, zero, suc, ◌+◌, ◌*◌, ◌/◌, ◌%◌, ◌^◌, ◌<◌, max}
use mathlib.Core.Path.{◌≡◌, refl}
use mathlib.Core.Logic.{◌↔◌}
use native.Mathlib.Omega.{arith}

unfoldable pub bits_xor : ℕ → ℕ → ℕ → ℕ
bits_xor zero a b = 0
bits_xor (suc w) a b = (a + b) % 2 + 2 * bits_xor w (a / 2) (b / 2)

unfoldable pub bits_or : ℕ → ℕ → ℕ → ℕ
bits_or zero a b = 0
bits_or (suc w) a b = max (a % 2) (b % 2) + 2 * bits_or w (a / 2) (b / 2)

-- The low bits, one by one.
unfoldable low : ℕ → ℕ → ℕ
low zero a = 0
low (suc w) a = a % 2 + 2 * low w (a / 2)

low-byte : (a : ℕ) → low 8 a ≡ a % 256
unfolding low
low-byte a = omega arith

bits_xor_iff : (w a b : ℕ) → (bits_xor w a b ≡ 0) ↔ (low w a ≡ low w b)
unfolding bits_xor low
bits_xor_iff zero a b = (λ h. refl, λ h. refl)
bits_xor_iff (suc w) a b =
    let (f, g) = bits_xor_iff w (a / 2) (b / 2) in
    (
      λ h. let e : bits_xor w (a / 2) (b / 2) ≡ 0 = omega arith in omega (arith, h, f e),
      λ h. let e : low w (a / 2) ≡ low w (b / 2) = omega arith in omega (arith, h, g e),
    )

bits_or_iff : (w a b : ℕ) → (bits_or w a b ≡ 0) ↔ ((low w a ≡ 0) × (low w b ≡ 0))
unfolding bits_or low
bits_or_iff zero a b = (λ h. (refl, refl), λ h. refl)
bits_or_iff (suc w) a b =
    let (f, g) = bits_or_iff w (a / 2) (b / 2) in
    (
      λ h.
          let e : bits_or w (a / 2) (b / 2) ≡ 0 = omega arith in
          let (u, v) = f e in (omega (arith, h, u, v), omega (arith, h, u, v)),
      λ h.
          let e : bits_or w (a / 2) (b / 2) ≡ 0 = g (omega (arith, h.0), omega (arith, h.1)) in
          omega (arith, h.0, h.1, e),
    )

bits_or_bound : (w a b : ℕ) → bits_or w a b < 2 ^ w
unfolding bits_or
bits_or_bound zero a b = omega arith
bits_or_bound (suc w) a b = let h = bits_or_bound w (a / 2) (b / 2) in ground (arith, h)

bits_xor_bound : (w a b : ℕ) → bits_xor w a b < 2 ^ w
unfolding bits_xor
bits_xor_bound zero a b = omega arith
bits_xor_bound (suc w) a b = let h = bits_xor_bound w (a / 2) (b / 2) in ground (arith, h)

pub byte_xor_bound : (a b : ℕ) → bits_xor 8 a b < 256
byte_xor_bound a b = bits_xor_bound 8 a b

pub byte_or_bound : (a b : ℕ) → bits_or 8 a b < 256
byte_or_bound a b = bits_or_bound 8 a b

-- Two bytes agree exactly when no bit of their difference is left.
pub byte_xor_iff : (a b : ℕ) → (bits_xor 8 a b ≡ 0) ↔ (a % 256 ≡ b % 256)
byte_xor_iff a b =
    let (f, g) = bits_xor_iff 8 a b in
    (
      λ h. omega (arith, f h, low-byte a, low-byte b),
      λ h. g (omega (arith, h, low-byte a, low-byte b)),
    )

pub byte_or_iff : (a b : ℕ) → (bits_or 8 a b ≡ 0) ↔ ((a % 256 ≡ 0) × (b % 256 ≡ 0))
byte_or_iff a b =
    let (f, g) = bits_or_iff 8 a b in
    (
      λ h. let (u, v) = f h in (omega (arith, u, low-byte a), omega (arith, v, low-byte b)),
      λ h. g (omega (arith, h.0, low-byte a), omega (arith, h.1, low-byte b)),
    )
