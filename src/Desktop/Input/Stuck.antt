-- ===== src/Desktop/Input/Stuck.antt =====
-- Keys that are held too long.
use lan_pilot.Common.{
  ℕ, true, false, [], ◌∷◌, refl, List, ◌<◌, ◌≤◌, erase_key, arith, Bool-cases, All, ◌-◌, leb,
  contains, ◌==◌, ◌*◌, ◌&&◌, inl, ◌≡◌, inr, ◌⊎◌, subst, sym,
}
use lan_pilot.Desktop.Input.{InputReceiver, release_stuck_keys, release_each, stale_keys}

abbrev pub HeldLong : ℕ → ℕ → ℕ → Type 0
HeldLong now hold pressed_at = (pressed_at ≤ now) × (hold ≤ now - pressed_at)

-- Every key held too long is among `usages`.
abbrev Covered : ℕ → ℕ → List ℕ → List (ℕ × ℕ) → Type 0
Covered now hold usages = All λ k. HeldLong now hold k.1 → contains usages k.0 ≡ true

Covered-more :
    (now hold usage : ℕ) (usages : List ℕ) (keys : List (ℕ × ℕ))
    → Covered now hold usages keys
    → Covered now hold (usage ∷ usages) keys
Covered-more now hold usage usages [] a = tt
Covered-more now hold usage usages ((u, t) ∷ keys) a =
    ((λ h. ground (arith, a.0 h)), Covered-more now hold usage usages keys a.1)

stale_keys-cases :
    (now hold u t : ℕ) (keys : List (ℕ × ℕ))
    → let rest = stale_keys now hold keys in
      (stale_keys now hold ((u, t) ∷ keys) ≡ u ∷ rest)
      ⊎ ((stale_keys now hold ((u, t) ∷ keys) ≡ rest) × ¬ (HeldLong now hold t))
unfolding stale_keys
stale_keys-cases now hold u t keys = elim (Bool-cases (leb t now && leb hold (now - t))) [
  | inl stale ↦ inl (rw stale refl)
  | inr fresh ↦ inr (rw fresh refl, λ h. ground (arith, fresh, h))
]

stale_keys-Covered :
    (now hold : ℕ) (keys : List (ℕ × ℕ)) → Covered now hold (stale_keys now hold keys) keys
stale_keys-Covered now hold [] = tt
stale_keys-Covered now hold ((u, t) ∷ keys) =
    let rest = stale_keys now hold keys in
    let later = stale_keys-Covered now hold keys in
    let P = λ (us : List ℕ). Covered now hold us ((u, t) ∷ keys) in
    elim (stale_keys-cases now hold u t keys) [
      | inl more ↦ subst P (sym more) ((λ h. ground arith), Covered-more now hold u rest keys later)
      | inr (same, fresh) ↦ subst P (sym same) ((λ h. absurd (fresh h)), later)
    ]

erase_key-Covered :
    (now hold usage : ℕ) (usages : List ℕ) (keys : List (ℕ × ℕ))
    → Covered now hold (usage ∷ usages) keys
    → Covered now hold usages (erase_key usage keys)
unfolding erase_key
erase_key-Covered now hold usage usages [] a = tt
erase_key-Covered now hold usage usages ((u, t) ∷ keys) a = elim (Bool-cases (usage == u)) [
  | inl same ↦ rw same (erase_key-Covered now hold usage usages keys a.1)
  | inr apart ↦
      rw apart
        ((λ h. ground (arith, apart, a.0 h)), erase_key-Covered now hold usage usages keys a.1)
]

release_each-Covered :
    (now hold : ℕ) (usages : List ℕ) (s : InputReceiver)
    → Covered now hold usages s.pressed_keys
    → Covered now hold [] (release_each usages s).pressed_keys
unfolding release_each
release_each-Covered now hold [] s a = a
release_each-Covered now hold (usage ∷ usages) s a =
    release_each-Covered now hold usages _
      (erase_key-Covered now hold usage usages s.pressed_keys a)

uncovered :
    (now hold : ℕ) (keys : List (ℕ × ℕ))
    → Covered now hold [] keys
    → All (λ k. ¬ (HeldLong now hold k.1)) keys
uncovered now hold [] a = tt
uncovered now hold ((u, t) ∷ keys) a =
    ((λ h. absurd (ground (arith, a.0 h))), uncovered now hold keys a.1)

-- After releasing stuck keys with a positive hold time, no key that is still taken to be held was
-- pressed that long ago.
pub release_stuck_keys_lem :
    (s : InputReceiver) (now hold : ℕ)
    → 0 < hold
    → All (λ k. ¬ (HeldLong now (hold * 1000) k.1)) (release_stuck_keys s now hold).0.pressed_keys
unfolding release_stuck_keys
release_stuck_keys_lem s now hold h =
    let positive : (hold == 0) ≡ false = ground arith in
    rw positive (
      uncovered now (hold * 1000) _ (
        release_each-Covered now (hold * 1000) _ s
          (stale_keys-Covered now (hold * 1000) s.pressed_keys)))
