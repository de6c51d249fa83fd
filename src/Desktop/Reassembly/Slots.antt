-- ===== src/Desktop/Reassembly/Slots.antt =====
-- The slots of a frame that is being assembled, against the list of its chunks.
use lan_pilot.Common.{
  ℕ, List, replicate, length, ◌∷◌, Option, none, [], ◌+◌, get_elem?, ◌≤◌, some, ◌++◌, ◌≡◌, ap, suc,
  arith, set, refl, zero, length-append, ap₂,
}
use lan_pilot.Desktop.Reassembly.{join_parts}

-- Every slot is empty or holds its own chunk.
abbrev pub Partial : List (List ℕ) → List (Option (List ℕ)) → Type 0
Partial [] [] = Unit {0}
Partial [] (s ∷ ss) = ⊥
Partial (c ∷ cs) [] = ⊥
Partial (c ∷ cs) (none ∷ ss) = Partial cs ss
Partial (c ∷ cs) (some d ∷ ss) = (d ≡ c) × Partial cs ss

abbrev pub filled : List (Option (List ℕ)) → ℕ
filled [] = 0
filled (none ∷ ss) = filled ss
filled (some d ∷ ss) = suc (filled ss)

abbrev pub held : List (Option (List ℕ)) → ℕ
held [] = 0
held (none ∷ ss) = held ss
held (some d ∷ ss) = length d + held ss

abbrev pub total : List (List ℕ) → ℕ
total [] = 0
total (c ∷ cs) = length c + total cs

abbrev pub concat : List (List ℕ) → List ℕ
concat [] = []
concat (c ∷ cs) = c ++ concat cs

pub length-concat : (cs : List (List ℕ)) → length (concat cs) ≡ total cs
length-concat [] = refl
length-concat (c ∷ cs) = omega (arith, length-append c (concat cs), length-concat cs)

pub Partial-empty : (cs : List (List ℕ)) → Partial cs (replicate (length cs) none)
Partial-empty [] = tt
Partial-empty (c ∷ cs) = Partial-empty cs

pub filled-empty : (n : ℕ) → filled (replicate n none) ≡ 0
filled-empty zero = refl
filled-empty (suc n) = filled-empty n

pub held-empty : (n : ℕ) → held (replicate n none) ≡ 0
held-empty zero = refl
held-empty (suc n) = held-empty n

pub length-Partial :
    (cs : List (List ℕ)) (ss : List (Option (List ℕ))) → Partial cs ss → length ss ≡ length cs
length-Partial [] [] p = refl
length-Partial [] (s ∷ ss) p = absurd p
length-Partial (c ∷ cs) [] p = absurd p
length-Partial (c ∷ cs) (none ∷ ss) p = ap suc (length-Partial cs ss p)
length-Partial (c ∷ cs) (some d ∷ ss) p = ap suc (length-Partial cs ss p.1)

pub filled_le : (ss : List (Option (List ℕ))) → filled ss ≤ length ss
filled_le [] = omega arith
filled_le (none ∷ ss) = omega (arith, filled_le ss)
filled_le (some d ∷ ss) = omega (arith, filled_le ss)

pub held_le :
    (cs : List (List ℕ)) (ss : List (Option (List ℕ))) → Partial cs ss → held ss ≤ total cs
held_le [] [] p = omega arith
held_le [] (s ∷ ss) p = absurd p
held_le (c ∷ cs) [] p = absurd p
held_le (c ∷ cs) (none ∷ ss) p = omega (arith, held_le cs ss p)
held_le (c ∷ cs) (some d ∷ ss) p = omega (arith, held_le cs ss p.1, ap length p.0)

-- Filling slot `j`, when it is empty, with its chunk.
module _ (c : List ℕ) where
  pub Partial-set :
      (cs : List (List ℕ)) (ss : List (Option (List ℕ))) (j : ℕ)
      → Partial cs ss
      → get_elem? cs j ≡ some c
      → Partial cs (set ss j (some c))
  Partial-set [] [] j p e = tt
  Partial-set [] (s ∷ ss) j p e = absurd p
  Partial-set (d ∷ cs) [] j p e = absurd p
  Partial-set (d ∷ cs) (none ∷ ss) zero p e = (cc, p)
  Partial-set (d ∷ cs) (some x ∷ ss) zero p e = (cc, p.1)
  Partial-set (d ∷ cs) (none ∷ ss) (suc j) p e = Partial-set cs ss j p e
  Partial-set (d ∷ cs) (some x ∷ ss) (suc j) p e = (p.0, Partial-set cs ss j p.1 e)

  pub filled-set :
      (ss : List (Option (List ℕ))) (j : ℕ)
      → get_elem? ss j ≡ some none
      → filled (set ss j (some c)) ≡ suc (filled ss)
  filled-set [] j e = absurd (cc)
  filled-set (none ∷ ss) zero e = refl
  filled-set (some x ∷ ss) zero e = absurd (cc)
  filled-set (none ∷ ss) (suc j) e = filled-set ss j e
  filled-set (some x ∷ ss) (suc j) e = ap suc (filled-set ss j e)

  pub held-set :
      (ss : List (Option (List ℕ))) (j : ℕ)
      → get_elem? ss j ≡ some none
      → held (set ss j (some c)) ≡ held ss + length c
  held-set [] j e = absurd (cc)
  held-set (none ∷ ss) zero e = omega arith
  held-set (some x ∷ ss) zero e = absurd (cc)
  held-set (none ∷ ss) (suc j) e = held-set ss j e
  held-set (some x ∷ ss) (suc j) e = omega (arith, held-set ss j e)

-- With every slot filled the parts join to the chunks.
pub held-full :
    (cs : List (List ℕ)) (ss : List (Option (List ℕ)))
    → Partial cs ss
    → filled ss ≡ length cs
    → held ss ≡ total cs
held-full [] [] p e = refl
held-full [] (s ∷ ss) p e = absurd p
held-full (c ∷ cs) [] p e = absurd p
held-full (c ∷ cs) (none ∷ ss) p e = absurd (omega (arith, filled_le ss, length-Partial cs ss p))
held-full (c ∷ cs) (some d ∷ ss) p e =
    omega (arith, held-full cs ss p.1 (omega arith), ap length p.0)

pub join_parts-full :
    (cs : List (List ℕ)) (ss : List (Option (List ℕ)))
    → Partial cs ss
    → filled ss ≡ length cs
    → join_parts ss ≡ concat cs
unfolding join_parts
join_parts-full [] [] p e = refl
join_parts-full [] (s ∷ ss) p e = absurd p
join_parts-full (c ∷ cs) [] p e = absurd p
join_parts-full (c ∷ cs) (none ∷ ss) p e =
    absurd (omega (arith, filled_le ss, length-Partial cs ss p))
join_parts-full (c ∷ cs) (some d ∷ ss) p e = ap₂ ◌++◌ p.0 (join_parts-full cs ss p.1 (omega arith))
