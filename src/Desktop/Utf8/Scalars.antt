-- ===== src/Desktop/Utf8/Scalars.antt =====
-- UTF-8 as the encoding of scalar values, and valid_utf8 against it.
use lan_pilot.Common.{
  ℕ, zero, suc, true, false, none, some, [], ◌∷◌, if◌then◌else◌, ◌≤◌, List, arith, ◌<◌, ◌/◌, ◌≡◌,
  ltb, ◌++◌, ◌⊎◌, refl, ◌+◌, ◌%◌, ◌*◌, length, Bool-cases, Option, leb, inl, leb→le, ap, inr, ◌==◌,
  ==_iff, All, ◌↔◌, Option-cases, ◌∙◌, length-append,
}
use lan_pilot.Desktop.Utf8.{
  utf8_round, utf8_loop, valid_utf8, refused_codepoint, continue_from, continuations,
  accept_codepoint,
}

abbrev pub Scalar : ℕ → Type 0
Scalar c = (c ≤ 1114111) × ((c < 55296) ⊎ (57343 < c))

abbrev pub utf8_of : ℕ → List ℕ
utf8_of c =
    if ltb c 128
    then c ∷ []
    else if ltb c 2048
    then (192 + c / 64) ∷ (128 + c % 64) ∷ []
    else if ltb c 65536
    then (224 + c / 4096) ∷ (128 + c / 64 % 64) ∷ (128 + c % 64) ∷ []
    else (240 + c / 262144) ∷ (128 + c / 4096 % 64) ∷ (128 + c / 64 % 64) ∷ (128 + c % 64) ∷ []

abbrev pub utf8_text : List ℕ → List ℕ
utf8_text [] = []
utf8_text (c ∷ cs) = utf8_of c ++ utf8_text cs

-- A round that goes on has read the encoding of one scalar value.
abbrev Reads : List ℕ → List ℕ → Type 0
Reads text later = (c : ℕ) × Scalar c × (text ≡ utf8_of c ++ later)

reads₁ : (first : ℕ) (later : List ℕ) → first ≤ 127 → Reads (first ∷ later) later
reads₁ first later h = (first, ground arith, ground arith)

reads₂ :
    (a b : ℕ) (later : List ℕ)
    → a / 32 ≡ 6
    → b / 64 ≡ 2
    → refused_codepoint 1 (a % 32 * 64 + b % 64) ≡ false
    → Reads (a ∷ b ∷ later) later
reads₂ a b later ha hb h = (a % 32 * 64 + b % 64, ground arith, ground arith)

reads₃ :
    (a b c : ℕ) (later : List ℕ)
    → a / 16 ≡ 14
    → b / 64 ≡ 2
    → c / 64 ≡ 2
    → refused_codepoint 2 ((a % 16 * 64 + b % 64) * 64 + c % 64) ≡ false
    → Reads (a ∷ b ∷ c ∷ later) later
reads₃ a b c later ha hb hc h = ((a % 16 * 64 + b % 64) * 64 + c % 64, ground arith, ground arith)

reads₄ :
    (a b c d : ℕ) (later : List ℕ)
    → a / 8 ≡ 30
    → b / 64 ≡ 2
    → c / 64 ≡ 2
    → d / 64 ≡ 2
    → refused_codepoint 3 (((a % 8 * 64 + b % 64) * 64 + c % 64) * 64 + d % 64) ≡ false
    → Reads (a ∷ b ∷ c ∷ d ∷ later) later
reads₄ a b c d later ha hb hc hd h =
    (((a % 8 * 64 + b % 64) * 64 + c % 64) * 64 + d % 64, ground arith, ground arith)

abbrev Advances : List ℕ → List ℕ → Type 0
Advances text later = Reads text later × (length later < length text)

from₁ :
    (a : ℕ) (rest later : List ℕ)
    → a / 32 ≡ 6
    → continue_from (some (1, a % 32)) rest ≡ some later
    → Advances (a ∷ rest) later
unfolding continue_from continuations accept_codepoint
from₁ a [] later ha e = absurd (ground arith)
from₁ a (b ∷ rest) later ha e =
    let (hb, h, same) : (b / 64 ≡ 2)
        × (refused_codepoint 1 (a % 32 * 64 + b % 64) ≡ false)
        × (rest ≡ later) =
      ground arith in
    (rw same (reads₂ a b later ha hb h), omega (arith, ap length same))

from₂ :
    (a : ℕ) (rest later : List ℕ)
    → a / 16 ≡ 14
    → continue_from (some (2, a % 16)) rest ≡ some later
    → Advances (a ∷ rest) later
unfolding continue_from continuations accept_codepoint
from₂ a [] later ha e = absurd (ground arith)
from₂ a (b ∷ []) later ha e = absurd (ground arith)
from₂ a (b ∷ c ∷ rest) later ha e =
    let (hb, hc, h, same) : (b / 64 ≡ 2)
        × (c / 64 ≡ 2)
        × (refused_codepoint 2 ((a % 16 * 64 + b % 64) * 64 + c % 64) ≡ false)
        × (rest ≡ later) =
      ground arith in
    (rw same (reads₃ a b c later ha hb hc h), omega (arith, ap length same))

from₃ :
    (a : ℕ) (rest later : List ℕ)
    → a / 8 ≡ 30
    → continue_from (some (3, a % 8)) rest ≡ some later
    → Advances (a ∷ rest) later
unfolding continue_from continuations accept_codepoint
from₃ a [] later ha e = absurd (ground arith)
from₃ a (b ∷ []) later ha e = absurd (ground arith)
from₃ a (b ∷ c ∷ []) later ha e = absurd (ground arith)
from₃ a (b ∷ c ∷ d ∷ rest) later ha e =
    let (hb, hc, hd, h, same) : (b / 64 ≡ 2)
        × (c / 64 ≡ 2)
        × (d / 64 ≡ 2)
        × (refused_codepoint 3 (((a % 8 * 64 + b % 64) * 64 + c % 64) * 64 + d % 64) ≡ false)
        × (rest ≡ later) =
      ground arith in
    (rw same (reads₄ a b c d later ha hb hc hd h), omega (arith, ap length same))

none_then :
    (first : ℕ) (rest later : List ℕ)
    → leb first 127 ≡ false
    → (first / 32 == 6) ≡ false
    → (first / 16 == 14) ≡ false
    → (first / 8 == 30) ≡ false
    → utf8_round first rest ≡ some later
    → Advances (first ∷ rest) later
unfolding utf8_round continue_from
none_then first rest later a b c d e = absurd (ground arith)

round-Advances :
    (first : ℕ) (rest later : List ℕ)
    → utf8_round first rest ≡ some later
    → Advances (first ∷ rest) later
unfolding utf8_round
round-Advances first rest later e = elim (Bool-cases (leb first 127)) [
  | inl low ↦
      let same : rest ≡ later = ground (arith, low) in
      (rw same (reads₁ first later (leb→le first 127 low)), omega (arith, ap length same))
  | inr high ↦ elim (Bool-cases (first / 32 == 6)) [
    | inl two ↦ from₁ first rest later ((==_iff (first / 32) 6).0 two) (rw (high, two) at e)
    | inr not_two ↦ elim (Bool-cases (first / 16 == 14)) [
      | inl three ↦
          from₂ first rest later ((==_iff (first / 16) 14).0 three) (rw (high, not_two, three) at e)
      | inr not_three ↦ elim (Bool-cases (first / 8 == 30)) [
        | inl four ↦
            from₃ first rest later ((==_iff (first / 8) 30).0 four)
              (rw (high, not_two, not_three, four) at e)
        | inr not_four ↦ none_then first rest later high not_two not_three not_four e
      ]
    ]
  ]
]

abbrev round_of : List ℕ → Option (List ℕ)
round_of [] = none
round_of (first ∷ rest) = utf8_round first rest

-- A round reads back the encoding of a scalar value.
round_of-utf8_of : (c : ℕ) (later : List ℕ) → Scalar c → round_of (utf8_of c ++ later) ≡ some later
unfolding utf8_round continue_from continuations accept_codepoint
round_of-utf8_of c later s = elim (Bool-cases (ltb c 128)) [
  | inl one ↦ rw one (ground (arith, one))
  | inr not_one ↦ elim (Bool-cases (ltb c 2048)) [
    | inl two ↦ rw (not_one, two) (ground arith)
    | inr not_two ↦ elim (Bool-cases (ltb c 65536)) [
      | inl three ↦ rw (not_one, not_two, three) (ground arith)
      | inr four ↦ rw (not_one, not_two, four) (ground arith)
    ]
  ]
]

utf8_loop_sound :
    (fuel : ℕ) (text : List ℕ)
    → utf8_loop fuel text ≡ true
    → (cs : List ℕ) × All Scalar cs × (text ≡ utf8_text cs)
unfolding utf8_loop
utf8_loop_sound fuel [] e = ([], tt, refl)
utf8_loop_sound zero (first ∷ rest) e = absurd (cc)
utf8_loop_sound (suc fuel) (first ∷ rest) e = elim (Option-cases (utf8_round first rest)) [
  | inl stop ↦ let bad : false ≡ true = rw (stop, utf8_loop) at e in absurd (cc)
  | inr (later, on) ↦
      let ((c, s, t), shorter) = round-Advances first rest later on in
      let (cs, all, u) = utf8_loop_sound fuel later (rw (on, utf8_loop) at e) in
      (c ∷ cs, (s, all), t ∙ ap (◌++◌ (utf8_of c)) u)
]

utf8_loop-round :
    (fuel : ℕ) (text later : List ℕ)
    → round_of text ≡ some later
    → utf8_loop (suc fuel) text ≡ utf8_loop fuel later
unfolding utf8_loop
utf8_loop-round fuel [] later e = absurd (cc)
utf8_loop-round fuel (first ∷ rest) later e = rw (e, utf8_loop) refl

longer : (c : ℕ) (text : List ℕ) → length text < length (utf8_of c ++ text)
longer c text = ground (arith, length-append (utf8_of c) text)

utf8_loop_complete :
    (fuel : ℕ) (cs : List ℕ)
    → All Scalar cs
    → length (utf8_text cs) ≤ fuel
    → utf8_loop fuel (utf8_text cs) ≡ true
unfolding utf8_loop
utf8_loop_complete zero [] a h = refl
utf8_loop_complete (suc fuel) [] a h = refl
utf8_loop_complete zero (c ∷ cs) a h = absurd (omega (arith, longer c (utf8_text cs)))
utf8_loop_complete (suc fuel) (c ∷ cs) a h =
    utf8_loop-round fuel (utf8_of c ++ utf8_text cs) (utf8_text cs)
      (round_of-utf8_of c (utf8_text cs) a.0)
    ∙ utf8_loop_complete fuel cs a.1 (omega (arith, longer c (utf8_text cs)))

-- A text is accepted exactly when it is the UTF-8 encoding of some sequence of Unicode scalar values.
pub valid_utf8_iff :
    (text : List ℕ)
    → (valid_utf8 text ≡ true) ↔ ((cs : List ℕ) × All Scalar cs × (text ≡ utf8_text cs))
unfolding valid_utf8
valid_utf8_iff text = (
  utf8_loop_sound (length text) text,
  λ (cs, all, e). rw e (utf8_loop_complete (length (utf8_text cs)) cs all (omega arith)),
)
