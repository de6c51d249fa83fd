-- ===== src/Desktop/Wire/Inverse.antt =====
-- A read of the Reader that succeeded, call by call.
use lan_pilot.Common.{
  ℕ, ◌^◌, ◌<◌, ◌≡◌, refl, Bool, true, false, List, [], ◌∷◌, ◌++◌, length, arith, Result, ok, err,
  Exception, All-take, All-drop, take-append-drop, length-take, bytes_eq_sound, not, bytes_eq,
  invalid_argument,
}
use lan_pilot.Desktop.Wire.{
  IsBytes, Reader, put_u8, put_u16, put_u32, put_u64, u8, u16, u32, u64, bytes, ◌>>=◌, ◌>>◌,
  refuse_if, require_magic, bind_pair, lift, end, done,
}

-- `bs` begins with `front`, and what follows is `rest`, bytes again.
abbrev pub Begins : List ℕ → List ℕ → List ℕ → Type 0
Begins bs front rest = (bs ≡ front ++ rest) × IsBytes rest

u8-inv :
    (bs : List ℕ) (v : ℕ) (rest : List ℕ)
    → IsBytes bs
    → u8 bs ≡ ok (v, rest)
    → (v < 256) × Begins bs (put_u8 v) rest
unfolding u8 put_u8
u8-inv (a ∷ r) v rest hb e = ground arith
u8-inv _ v rest hb e = ground arith

u16-inv :
    (bs : List ℕ) (v : ℕ) (rest : List ℕ)
    → IsBytes bs
    → u16 bs ≡ ok (v, rest)
    → (v < 2 ^ 16) × Begins bs (put_u16 v) rest
unfolding u16 put_u16
u16-inv (a ∷ b ∷ r) v rest hb e = ground arith
u16-inv _ v rest hb e = ground arith

u32-inv :
    (bs : List ℕ) (v : ℕ) (rest : List ℕ)
    → IsBytes bs
    → u32 bs ≡ ok (v, rest)
    → (v < 2 ^ 32) × Begins bs (put_u32 v) rest
unfolding u32 put_u32
u32-inv (a ∷ b ∷ c ∷ d ∷ r) v rest hb e = ground arith
u32-inv _ v rest hb e = ground arith

u64-inv :
    (bs : List ℕ) (v : ℕ) (rest : List ℕ)
    → IsBytes bs
    → u64 bs ≡ ok (v, rest)
    → (v < 2 ^ 64) × Begins bs (put_u64 v) rest
unfolding u64 put_u64
u64-inv (a ∷ b ∷ c ∷ d ∷ a' ∷ b' ∷ c' ∷ d' ∷ r) v rest hb e = ground arith
u64-inv _ v rest hb e = ground arith

bytes-inv :
    (n : ℕ) (bs xs rest : List ℕ)
    → IsBytes bs
    → bytes n bs ≡ ok (xs, rest)
    → (length xs ≡ n) × IsBytes xs × Begins bs xs rest
unfolding bytes
bytes-inv n bs xs rest hb e = ground (
  arith,
  length-take n bs,
  take-append-drop n bs,
  All-take (λ b. b < 256) n bs hb,
  All-drop (λ b. b < 256) n bs hb,
)

pub >>=-inv :
    {A B : Type 0} (m : Reader A) (k : A → Reader B) (bs : List ℕ) {y : B × List ℕ}
    → (m >>= k) bs ≡ ok y
    → (a : A) × (rest : List ℕ) × (m bs ≡ ok (a, rest)) × (k a rest ≡ ok y)
unfolding ◌>>=◌
>>=-inv {A} {B} m k bs {y} e = go (m bs) refl e
  where
    go :
        (r : Result (A × List ℕ))
        → m bs ≡ r
        → bind_pair r k ≡ ok y
        → (a : A) × (rest : List ℕ) × (m bs ≡ ok (a, rest)) × (k a rest ≡ ok y)
    go (ok (a, rest)) e₁ e₂ = (a, rest, e₁, e₂)
    go (err x) e₁ e₂ = cc

-- Each step hands what was read to the rest of an argument.
module _ {B : Type 0} (k : ℕ → Reader B) (bs : List ℕ) {y : B × List ℕ} {P : Type 0}
    (hb : IsBytes bs) where
  pub u8_then :
      (u8 >>= k) bs ≡ ok y
      → ((v : ℕ) (rest : List ℕ)
          → v < 256
          → bs ≡ put_u8 v ++ rest
          → IsBytes rest
          → k v rest ≡ ok y
          → P)
      → P
  u8_then e f =
      let (v, rest, e₁, e₂) = >>=-inv u8 k bs e in
      let (l, b) = u8-inv bs v rest hb e₁ in f v rest l b.0 b.1 e₂

  pub u16_then :
      (u16 >>= k) bs ≡ ok y
      → ((v : ℕ) (rest : List ℕ)
          → v < 2 ^ 16
          → bs ≡ put_u16 v ++ rest
          → IsBytes rest
          → k v rest ≡ ok y
          → P)
      → P
  u16_then e f =
      let (v, rest, e₁, e₂) = >>=-inv u16 k bs e in
      let (l, b) = u16-inv bs v rest hb e₁ in f v rest l b.0 b.1 e₂

  pub u32_then :
      (u32 >>= k) bs ≡ ok y
      → ((v : ℕ) (rest : List ℕ)
          → v < 2 ^ 32
          → bs ≡ put_u32 v ++ rest
          → IsBytes rest
          → k v rest ≡ ok y
          → P)
      → P
  u32_then e f =
      let (v, rest, e₁, e₂) = >>=-inv u32 k bs e in
      let (l, b) = u32-inv bs v rest hb e₁ in f v rest l b.0 b.1 e₂

  pub u64_then :
      (u64 >>= k) bs ≡ ok y
      → ((v : ℕ) (rest : List ℕ)
          → v < 2 ^ 64
          → bs ≡ put_u64 v ++ rest
          → IsBytes rest
          → k v rest ≡ ok y
          → P)
      → P
  u64_then e f =
      let (v, rest, e₁, e₂) = >>=-inv u64 k bs e in
      let (l, b) = u64-inv bs v rest hb e₁ in f v rest l b.0 b.1 e₂

pub bytes_then :
    {B : Type 0} (n : ℕ) (k : List ℕ → Reader B) (bs : List ℕ) {y : B × List ℕ} {P : Type 0}
    → IsBytes bs
    → (bytes n >>= k) bs ≡ ok y
    → ((xs rest : List ℕ)
        → length xs ≡ n
        → IsBytes xs
        → bs ≡ xs ++ rest
        → IsBytes rest
        → k xs rest ≡ ok y
        → P)
    → P
bytes_then n k bs hb e f =
    let (xs, rest, e₁, e₂) = >>=-inv (bytes n) k bs e in
    let (l, h, b) = bytes-inv n bs xs rest hb e₁ in f xs rest l h b.0 b.1 e₂

magic-inv :
    (magic bs rest : List ℕ) {u : Unit {0}}
    → IsBytes bs
    → require_magic magic bs ≡ ok (u, rest)
    → Begins bs magic rest
unfolding require_magic refuse_if
magic-inv magic bs rest hb e =
    bytes_then (length magic) (λ found. refuse_if (not (bytes_eq found magic)) invalid_argument) bs
      hb e λ xs mid l h p q e₂. ground (arith, bytes_eq_sound xs magic)

module _ {B : Type 0} (k : Reader B) (bs : List ℕ) {y : B × List ℕ} {P : Type 0} where
  pub magic_then :
      (magic : List ℕ)
      → IsBytes bs
      → (require_magic magic >> k) bs ≡ ok y
      → ((rest : List ℕ) → bs ≡ magic ++ rest → IsBytes rest → k rest ≡ ok y → P)
      → P
  magic_then magic hb e f =
      let (u, rest, e₁, e₂) = >>=-inv (require_magic magic) (λ _. k) bs e in
      let b = magic-inv magic bs rest hb e₁ in f rest b.0 b.1 e₂

  pub pass_then :
      (bad : Bool) (x : Exception)
      → (refuse_if bad x >> k) bs ≡ ok y
      → (bad ≡ false → k bs ≡ ok y → P)
      → P
  unfolding ◌>>=◌ refuse_if
  pass_then true x e f = absurd (cc)
  pass_then false x e f = f refl e

  pub lift_then :
      (m : Result (Unit {0})) → (lift m >> k) bs ≡ ok y → (m ≡ ok tt → k bs ≡ ok y → P) → P
  unfolding ◌>>=◌ lift
  lift_then (ok tt) e f = f refl e
  lift_then (err x) e f = absurd (cc)

module _ {B : Type 0} (k : Reader B) {y : B × List ℕ} {P : Type 0} where
  pub end_then : (bs : List ℕ) → (end >> k) bs ≡ ok y → (bs ≡ [] → k [] ≡ ok y → P) → P
  unfolding end ◌>>=◌
  end_then [] e f = f refl e
  end_then (b ∷ bs) e f = absurd (cc)

pub done_then : {B : Type 0} (b : B) (bs : List ℕ) {y : B × List ℕ} → done b bs ≡ ok y → y ≡ (b, bs)
unfolding done
done_then b bs e = cc
