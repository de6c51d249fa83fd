-- ===== src/Desktop/Wire/Laws.antt =====
-- The Reader on what the Writer wrote, call by call.
use lan_pilot.Common.{
  refl, ℕ, ◌^◌, ◌<◌, ◌≡◌, Bool, false, List, ◌++◌, length, arith, ok, Exception, length-append,
  take-append_left, drop-append_left, bytes_eq_refl, [], Result, ◌+◌, ◌/◌, ◌%◌, true, ◌!=◌,
}
use lan_pilot.Desktop.Wire.{
  Reader, put_u8, put_u16, put_u32, put_u64, u8, u16, u32, u64, bytes, ◌>>=◌, ◌>>◌, refuse_if,
  require_magic, lift, end, done, flag,
}

put_u8-u8 : (v : ℕ) (rest : List ℕ) → v < 256 → u8 (put_u8 v ++ rest) ≡ ok (v, rest)
unfolding u8 put_u8
put_u8-u8 v rest h = ground arith

put_u16-u16 : (v : ℕ) (rest : List ℕ) → v < 2 ^ 16 → u16 (put_u16 v ++ rest) ≡ ok (v, rest)
unfolding u16 put_u16
put_u16-u16 v rest h = ground arith

put_u32-u32 : (v : ℕ) (rest : List ℕ) → v < 2 ^ 32 → u32 (put_u32 v ++ rest) ≡ ok (v, rest)
unfolding u32 put_u32
put_u32-u32 v rest h = ground arith

put_u64-u64 : (v : ℕ) (rest : List ℕ) → v < 2 ^ 64 → u64 (put_u64 v ++ rest) ≡ ok (v, rest)
unfolding u64 put_u64
put_u64-u64 v rest h = ground arith

bytes-append : (xs rest : List ℕ) → bytes (length xs) (xs ++ rest) ≡ ok (xs, rest)
unfolding bytes
bytes-append xs rest =
    ground (arith, length-append xs rest, take-append_left xs rest, drop-append_left xs rest)

module _ {B : Type 0} (k : ℕ → Reader B) (v : ℕ) (rest : List ℕ) where
  pub u8_step : v < 256 → (u8 >>= k) (put_u8 v ++ rest) ≡ k v rest
  unfolding ◌>>=◌
  u8_step h = rw (put_u8-u8 v rest h)

  pub u16_step : v < 2 ^ 16 → (u16 >>= k) (put_u16 v ++ rest) ≡ k v rest
  unfolding ◌>>=◌
  u16_step h = rw (put_u16-u16 v rest h)

  pub u32_step : v < 2 ^ 32 → (u32 >>= k) (put_u32 v ++ rest) ≡ k v rest
  unfolding ◌>>=◌
  u32_step h = rw (put_u32-u32 v rest h)

  pub u64_step : v < 2 ^ 64 → (u64 >>= k) (put_u64 v ++ rest) ≡ k v rest
  unfolding ◌>>=◌
  u64_step h = rw (put_u64-u64 v rest h)

module _ {B : Type 0} where
  pub bytes_step :
      (k : List ℕ → Reader B) (n : ℕ) (xs rest : List ℕ)
      → n ≡ length xs
      → (bytes n >>= k) (xs ++ rest) ≡ k xs rest
  unfolding ◌>>=◌
  bytes_step k n xs rest e = rw (e, bytes-append xs rest)

  pub magic_step :
      (magic rest : List ℕ) (k : Reader B) → (require_magic magic >> k) (magic ++ rest) ≡ k rest
  unfolding ◌>>=◌ require_magic refuse_if
  magic_step magic rest k = rw (bytes-append magic rest, bytes_eq_refl magic)

  pub pass_step :
      (bad : Bool) (e : Exception) (k : Reader B) (bs : List ℕ)
      → bad ≡ false
      → (refuse_if bad e >> k) bs ≡ k bs
  unfolding ◌>>=◌ refuse_if
  pass_step bad e k bs h = rw h

  pub lift_step :
      (m : Result (Unit {0})) (k : Reader B) (bs : List ℕ) → m ≡ ok tt → (lift m >> k) bs ≡ k bs
  unfolding ◌>>=◌ lift
  lift_step m k bs h = rw h

  pub end_step : (k : Reader B) → (end >> k) [] ≡ k []
  unfolding ◌>>=◌ end
  end_step k = refl

pub ruleset reading =
    (magic_step, u8_step, u16_step, u32_step, u64_step, bytes_step, pass_step, lift_step, end_step)

pub done_step : {B : Type 0} (b : B) (bs : List ℕ) → done b bs ≡ ok (b, bs)
unfolding done
done_step b bs = refl

module _ (v : ℕ) (rest : List ℕ) where
  pub length-put_u8 : length (put_u8 v ++ rest) ≡ 1 + length rest
  unfolding put_u8
  length-put_u8 = omega arith

  pub length-put_u16 : length (put_u16 v ++ rest) ≡ 2 + length rest
  unfolding put_u16
  length-put_u16 = omega arith

  pub length-put_u32 : length (put_u32 v ++ rest) ≡ 4 + length rest
  unfolding put_u32
  length-put_u32 = omega arith

  pub length-put_u64 : length (put_u64 v ++ rest) ≡ 8 + length rest
  unfolding put_u64
  length-put_u64 = omega arith

pub length-append_bytes : (xs ys : List ℕ) → length (xs ++ ys) ≡ length xs + length ys
length-append_bytes xs ys = length-append xs ys

-- `omega` reads the length of what was written through these.
pub ruleset sizes =
    (length-put_u8, length-put_u16, length-put_u32, length-put_u64, length-append_bytes)

pub flag_lt : (b : Bool) → flag b < 2 ^ 16
flag_lt true = omega arith
flag_lt false = omega arith

pub flag-high : (b : Bool) → (flag b / 2 != 0) ≡ false
flag-high true = refl
flag-high false = refl

pub flag-low : (b : Bool) → (flag b % 2 != 0) ≡ b
flag-low true = refl
flag-low false = refl
