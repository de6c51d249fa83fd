-- ===== src/Desktop/Reassembly/Delivery.antt =====
-- FrameReassembler::receive on a sequence of datagrams that carry the fragments of one frame.
use lan_pilot.Common.{
  zero, suc, ℕ, false, none, some, ok, err, inl, inr, Result, List, Option, ◌∷◌, ◌<◌, ◌≡◌,
  get_elem?, length, set, [], All, ◌⊎◌, ◌≢◌, arith, suc, ◌≤◌, map, refl, ◌∙◌, ap, ◌&&◌, not,
  lt_of_get_elem?, length-replicate, ◌%◌, ◌^◌,
}
use lan_pilot.Desktop.Fragment.{VideoFrame, validate_frame, VideoFragment, fragment_total}
use lan_pilot.Desktop.Reassembly.{FrameReassembler, receive, receive_valid, store, settle, begin}
use lan_pilot.Desktop.Reassembly.Slots.{filled, length-Partial}
use lan_pilot.Desktop.Reassembly.Assembly.{
  Assembling, piece, parts, length-parts, receive-piece, store-taken, store-free, settle-last,
  placed, settle-more, receive-first, fragments-placed, begun-Assembling, rebuilt,
}
use lan_pilot.Desktop.Fragment.Split.{validate-fragment_at, validate_frame-FrameShape}

-- The frames that a receiver is given, datagram after datagram.
abbrev pub frame_of : Result (Option VideoFrame) → List VideoFrame → List VideoFrame
frame_of (ok (some x)) rest = x ∷ rest
frame_of (ok none) rest = rest
frame_of (err e) rest = rest

abbrev pub received : FrameReassembler → List VideoFragment → List VideoFrame
received s [] = []
received s (f ∷ fs) = let (s', r) = receive s f in frame_of r (received s' fs)

abbrev pub Occurs : ℕ → List ℕ → Type 0
Occurs i [] = ⊥
Occurs i (j ∷ js) = (i ≡ j) ⊎ Occurs i js

has_free :
    (ss : List (Option (List ℕ)))
    → filled ss < length ss
    → (i : ℕ) × (i < length ss) × (get_elem? ss i ≡ some none)
has_free [] h = absurd (omega arith)
has_free (none ∷ ss) h = (0, omega arith, refl)
has_free (some d ∷ ss) h = let (i, l, e) = has_free ss (omega arith) in (suc i, omega arith, e)

free_before :
    (x : List ℕ) (ss : List (Option (List ℕ))) (i j : ℕ)
    → get_elem? (set ss j (some x)) i ≡ some none
    → (i ≢ j) × (get_elem? ss i ≡ some none)
free_before x [] i j e = absurd (cc)
free_before x (s ∷ ss) zero zero e = absurd (cc)
free_before x (s ∷ ss) zero (suc j) e = (omega arith, e)
free_before x (s ∷ ss) (suc i) zero e = (omega arith, e)
free_before x (s ∷ ss) (suc i) (suc j) e = let (a, b) = free_before x ss i j e in (omega arith, b)

slot_cases :
    (ss : List (Option (List ℕ))) (j : ℕ)
    → j < length ss
    → (get_elem? ss j ≡ some none) ⊎ ((d : List ℕ) × (get_elem? ss j ≡ some (some d)))
slot_cases [] j h = absurd (omega arith)
slot_cases (none ∷ ss) zero h = inl refl
slot_cases (some d ∷ ss) zero h = inr (d, refl)
slot_cases (s ∷ ss) (suc j) h = slot_cases ss j (omega arith)

module _ (frame : VideoFrame) (v : validate_frame frame ≡ ok tt) where
  -- A completed frame is not delivered again.
  received_after :
      (s : FrameReassembler) (js : List ℕ)
      → All (λ j. j < fragment_total frame) js
      → frame.frame_id ≤ s.last_completed_frame_id
      → received s (map (piece frame) js) ≡ []
  unfolding receive receive_valid
  received_after s [] a h = refl
  received_after s (j ∷ js) a h =
      ground (arith, validate-fragment_at frame j v a.0, received_after s js a.1 h)

  received-Assembling :
      (c : VideoFragment) (s : FrameReassembler) (js : List ℕ)
      → All (λ j. j < fragment_total frame) js
      → Assembling frame c s
      → ((i : ℕ) → get_elem? s.fragments i ≡ some none → Occurs i js)
      → received s (map (piece frame) js) ≡ rebuilt frame ∷ []
  received-Assembling c s [] b a covers =
      let e = length-Partial (parts frame) s.fragments a.slots ∙ length-parts frame v in
      let (i, l, free) = has_free s.fragments (omega (arith, a.missing)) in absurd (covers i free)
  received-Assembling c s (j ∷ js) b a covers =
      let e = length-Partial (parts frame) s.fragments a.slots ∙ length-parts frame v in
      let step = receive-piece frame v c s j a b.0 in
      elim (slot_cases s.fragments j (omega (arith, b.0))) [
        | inr (d, taken) ↦
            rw (step, taken, store-taken frame v c s j d a)
              (received-Assembling c s js b.1 a
                λ i free. elim (covers i free) [ inl same ↦ absurd (cc) | inr later ↦ later ])
        | inl free ↦
            let stored =
              step ∙ ap (store s c (piece frame j)) free ∙ store-free frame v c s j a b.0 free in
            let split : (suc (filled s.fragments) ≡ fragment_total frame)
                ⊎ (suc (filled s.fragments) < fragment_total frame) =
              ground (arith, a.missing) in
            elim split [
              | inl last ↦
                  let (out, seen) = settle-last frame v c s j a b.0 free last in
                  rw (stored, out)
                    (ap (◌∷◌ (rebuilt frame)) (
                      received_after (settle (placed frame v s j, ok tt) c).0 js b.1
                        (omega (arith, seen))))
              | inr more ↦
                  let (out, next) = settle-more frame v c s j a b.0 free more in
                  rw (stored, out)
                    (received-Assembling c (placed frame v s j) js b.1 next λ i still.
                      let (apart, before) =
                        free_before (piece frame j).payload s.fragments i j
                          (rw (fragments-placed frame v s j) at still) in
                      elim (covers i before) [ inl same ↦ absurd (apart same) | inr later ↦ later ])
            ]
      ]

  -- A receiver that is assembling nothing, given the fragments of a new frame that it can decode, in
  -- any order and with any repetition, so long as each comes at least once: it delivers exactly that
  -- frame, once, except that the representation epoch is the default, 1.
  pub delivered :
      (s : FrameReassembler) (js : List ℕ)
      → s.current ≡ none
      → s.last_completed_frame_id < frame.frame_id
      → (s.keyframe_required && not frame.keyframe) ≡ false
      → All (λ j. j < fragment_total frame) js
      → ((i : ℕ) → i < fragment_total frame → Occurs i js)
      → received s (map (piece frame) js) ≡ rebuilt frame ∷ []
  delivered s [] idle new decodable b covers =
      absurd (covers 0 (omega (arith, (validate_frame-FrameShape frame v).nonempty)))
  delivered s (j ∷ js) idle new decodable b covers =
      rw (receive-first frame v s j b.0 idle new decodable) (
        received-Assembling (piece frame j) (begin s (piece frame j)) (j ∷ js) b
          (begun-Assembling frame v s j b.0 idle new decodable)
          λ i free. covers i (
            omega (
              arith,
              lt_of_get_elem? (begin s (piece frame j)).fragments i free,
              length-replicate {A = Option (List ℕ)} (fragment_total frame % 2 ^ 16) none,
            )))
