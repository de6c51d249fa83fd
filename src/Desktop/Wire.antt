-- ===== src/Desktop/Wire.antt =====
-- The Writer and Reader of desktop/src/desktop.cpp: big-endian integers in a byte string.
-- A byte string is a list of numbers below 256. What a Writer call appends is the value of its
-- model; a Reader is what is left to read, so `offset_` and `bytes_` are one list.
pub mod Laws
pub mod Inverse
pub mod Codec
use lan_pilot.Common.{
  ℕ, zero, suc, throw_if, ◌⨾◌, logic_error, ◌!=◌, ◌+◌, ◌*◌, ◌/◌, ◌%◌, ◌^◌, ◌<◌, Bool, not, List, [],
  ◌∷◌, map, length, take, drop, All, leb, ltb, ◌==◌, bytes_eq, if◌then◌else◌, Exception,
  invalid_argument, Result, ok, err, false, true,
}

abbrev pub IsBytes : List ℕ → Type 0
IsBytes = All λ b. b < 256

-- `static_cast<std::byte>((value >> shift) & 0xff)`
abbrev pub byte_at : ℕ → ℕ → ℕ
byte_at value shift = (value / 2 ^ shift) % 256

unfoldable pub put_u8 : ℕ → List ℕ
put_u8 value = value % 256 ∷ []

unfoldable pub put_u16 : ℕ → List ℕ
put_u16 value = map (byte_at value) (8 ∷ 0 ∷ [])

unfoldable pub put_u32 : ℕ → List ℕ
put_u32 value = map (byte_at value) (24 ∷ 16 ∷ 8 ∷ 0 ∷ [])

unfoldable pub put_u64 : ℕ → List ℕ
put_u64 value = map (byte_at value) (56 ∷ 48 ∷ 40 ∷ 32 ∷ 24 ∷ 16 ∷ 8 ∷ 0 ∷ [])

abbrev pub Reader : Type 0 → Type 0
Reader A = List ℕ → Result (A × List ℕ)

pub bind_pair : {A B : Type 0} → Result (A × List ℕ) → (A → Reader B) → Result (B × List ℕ)
bind_pair (ok (a, rest)) f = f a rest
bind_pair (err e) f = err e

-- Shut, so that the laws in `Laws` rewrite a chain of reads step by step.
infixl 5 ◌>>=◌ ◌>>◌
unfoldable pub ◌>>=◌ : {A B : Type 0} → Reader A → (A → Reader B) → Reader B
unfolding bind_pair
◌>>=◌ m f bs = bind_pair (m bs) f

abbrev pub ◌>>◌ : {B : Type 0} → Reader (Unit {0}) → Reader B → Reader B
m >> k = m >>= λ _. k

unfoldable pub done : {A : Type 0} → A → Reader A
done a bs = ok (a, bs)

-- `if (bad) throw …` between two reads.
unfoldable pub refuse_if : Bool → Exception → Reader (Unit {0})
refuse_if bad e bs = if bad then err e else ok (tt, bs)

-- `for (…) result = (result << 8U) | bytes_[offset_++];` in an unsigned type of that modulus.
read_loop : ℕ → ℕ → ℕ → List ℕ → ℕ × List ℕ
read_loop zero modulus result bs = (result, bs)
read_loop (suc n) modulus result [] = (result, [])
read_loop (suc n) modulus result (b ∷ bs) = read_loop n modulus (result * 256 % modulus + b) bs

-- `require(size)`, then the loop.
read_be : ℕ → ℕ → Reader ℕ
unfolding read_loop
read_be size modulus bs =
    if ltb (length bs) size then err invalid_argument else ok (read_loop size modulus 0 bs)

unfoldable pub u8 : Reader ℕ
unfolding read_be
u8 = read_be 1 (2 ^ 8)

unfoldable pub u16 : Reader ℕ
unfolding read_be
u16 = read_be 2 (2 ^ 16)

unfoldable pub u32 : Reader ℕ
unfolding read_be
u32 = read_be 4 (2 ^ 32)

unfoldable pub u64 : Reader ℕ
unfolding read_be
u64 = read_be 8 (2 ^ 64)

unfoldable pub bytes : ℕ → Reader (List ℕ)
bytes size bs =
    if ltb (length bs) size then err invalid_argument else ok (take size bs, drop size bs)

-- `if (!reader.empty()) throw std::invalid_argument(…);`
unfoldable pub end : Reader (Unit {0})
end [] = ok (tt, [])
end (_ ∷ _) = err invalid_argument

-- A validation between two reads.
unfoldable pub lift : Result (Unit {0}) → Reader (Unit {0})
lift (ok _) bs = ok (tt, bs)
lift (err e) bs = err e

unfoldable pub require_magic : List ℕ → Reader (Unit {0})
unfolding bytes bytes_eq
require_magic magic =
    bytes (length magic) >>= λ found. refuse_if (not (bytes_eq found magic)) invalid_argument

abbrev pub drop_rest : {A : Type 0} → Result (A × List ℕ) → Result A
drop_rest (ok (a, rest)) = ok a
drop_rest (err e) = err e

-- A whole message: what the reader leaves over is dropped with the Reader.
abbrev pub parse : {A : Type 0} → Reader A → List ℕ → Result A
parse r bs = drop_rest (r bs)

-- `if (encoded.size() != size) throw std::logic_error(…); return encoded;`
abbrev pub checked_size : ℕ → List ℕ → Result (List ℕ)
checked_size size encoded = throw_if (length encoded != size) logic_error ⨾ ok encoded

-- `value ? 1U : 0U`
abbrev pub flag : Bool → ℕ
flag true = 1
flag false = 0
