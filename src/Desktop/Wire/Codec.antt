-- ===== src/Desktop/Wire/Codec.antt =====
-- A codec whose encoder validates and writes, and whose decoder reads and validates.
use lan_pilot.Common.{
  ℕ, Result, List, Bool, Exception, ◌≡◌, ok, err, false, arith, ◌⨾◌, refl, ◌↔◌, throw_if, ⨾-eq-ok,
  throw_if-eq-ok, ap,
}
use lan_pilot.Desktop.Wire.{Reader, parse, drop_rest}

parse-eq-ok :
    {A : Type 0} (r : Reader A) (bs : List ℕ) {a : A}
    → parse r bs ≡ ok a
    → (rest : List ℕ) × (r bs ≡ ok (a, rest))
parse-eq-ok {A} r bs {a} e = go (r bs) refl e
  where
    go :
        (x : Result (A × List ℕ))
        → r bs ≡ x
        → drop_rest x ≡ ok a
        → (rest : List ℕ) × (r bs ≡ ok (a, rest))
    go (ok (b, rest)) e₁ e₂ = (rest, ground (arith, e₁, e₂))
    go (err c) e₁ e₂ = absurd (cc)

-- The reader may look at the size of the message that it reads.
module _ {A : Type 0} (check : Result (Unit {0})) (bad : List ℕ → Bool) (x : Exception)
    (front : List ℕ) (r : List ℕ → Reader A) (a : A) (bs : List ℕ)
    (fits : check ≡ ok tt → bad front ≡ false)
    (reads : check ≡ ok tt → (rest : List ℕ) × (r front front ≡ ok (a, rest)))
    (written : (rest : List ℕ)
      → bad bs ≡ false
      → r bs bs ≡ ok (a, rest)
      → (check ≡ ok tt) × (bs ≡ front)) where
  pub codec_iff : ((check ⨾ ok front) ≡ ok bs) ↔ ((throw_if (bad bs) x ⨾ parse (r bs) bs) ≡ ok a)
  codec_iff = (to, from)
    where
      to : (check ⨾ ok front) ≡ ok bs → (throw_if (bad bs) x ⨾ parse (r bs) bs) ≡ ok a
      to e =
          let (c, f) = ⨾-eq-ok check (ok front) e in
          let e' : front ≡ bs = cc in
          let (rest, q) = reads c in rw (← e') (rw (fits c) (ap drop_rest q))

      from : (throw_if (bad bs) x ⨾ parse (r bs) bs) ≡ ok a → (check ⨾ ok front) ≡ ok bs
      from e =
          let (c, f) = ⨾-eq-ok (throw_if (bad bs) x) (parse (r bs) bs) e in
          let (rest, q) = parse-eq-ok (r bs) bs f in
          let (v, w) = written rest (throw_if-eq-ok (bad bs) x c) q in rw (v, w)
