-- ===== src/Desktop/Reassembly/Assembly.antt =====
-- FrameReassembler::receive while one frame is being assembled.
use lan_pilot.Common.{
  ℕ, true, false, none, some, Bool, List, length, ◌≡◌, get_elem?, ◌∷◌, ok, refl, suc, ◌∙◌, ◌<◌, ap,
  [], ◌^◌, arith, sym, zero, ◌%◌, set, differ, ◌+◌, ltb, ◌&&◌, not, subst, replicate,
}
use lan_pilot.Desktop.Fragment.{
  VideoFrame, validate_frame, VideoFragment, fragments_from, fragment_at, fragment_total,
}
use lan_pilot.Desktop.Reassembly.{
  FrameReassembler, is_inconsistent, receive, receive_valid, consume, store, place, settle,
  complete, leave, begin, start,
}
use lan_pilot.Desktop.Fragment.Split.{
  chunks, FrameShape, length-fragments_from, get_elem?-fragments_from, validate_frame-FrameShape,
  concat-parts, validate-fragment_at,
}
use lan_pilot.Desktop.Reassembly.Slots.{
  Partial, total, filled, held, length-concat, Partial-set, filled-set, held-set, held_le,
  held-full, join_parts-full, Partial-empty, filled-empty, held-empty,
}

-- The frame as a receiver has it: the epoch is not sent.
abbrev pub rebuilt : VideoFrame → VideoFrame
rebuilt frame = record frame { representation_epoch = 1 }

abbrev pub piece : VideoFrame → ℕ → VideoFragment
piece frame j = fragment_at frame (fragment_total frame) j

abbrev pub parts : VideoFrame → List (List ℕ)
parts frame = chunks (fragments_from frame (fragment_total frame) 0 (fragment_total frame))

-- `current_` agrees with the frame in all that the consistency check compares.
pub record Describes (frame : VideoFrame) (c : VideoFragment) : Type 0 where
  pub frame_id : c.frame_id ≡ frame.frame_id
  pub captured_at_us : c.captured_at_us ≡ frame.captured_at_us
  pub width : c.width ≡ frame.width
  pub height : c.height ≡ frame.height
  pub codec : c.codec ≡ frame.codec
  pub keyframe : c.keyframe ≡ frame.keyframe
  pub fragment_count : c.fragment_count ≡ fragment_total frame
  pub total_size : c.total_size ≡ length frame.encoded

-- The frame is being assembled: the slots hold some of its chunks, not all, and are counted.
pub record Assembling (frame : VideoFrame) (c : VideoFragment) (s : FrameReassembler) : Type 0 where
  pub current : s.current ≡ some c
  pub describes : Describes frame c
  pub slots : Partial (parts frame) s.fragments
  pub counted : s.received_count ≡ filled s.fragments
  pub weighed : s.received_bytes ≡ held s.fragments
  pub missing : filled s.fragments < fragment_total frame
  pub ahead : s.last_completed_frame_id < frame.frame_id

differ_self : (b : Bool) → differ b b ≡ false
differ_self true = refl
differ_self false = refl

length-chunks : (fs : List VideoFragment) → length (chunks fs) ≡ length fs
length-chunks [] = refl
length-chunks (f ∷ fs) = ap suc (length-chunks fs)

get_elem?-chunks :
    (fs : List VideoFragment) (j : ℕ) {f : VideoFragment}
    → get_elem? fs j ≡ some f
    → get_elem? (chunks fs) j ≡ some f.payload
get_elem?-chunks [] j e = absurd (cc)
get_elem?-chunks (g ∷ fs) zero e = cc
get_elem?-chunks (g ∷ fs) (suc j) e = get_elem?-chunks fs j e

module _ (frame : VideoFrame) (v : validate_frame frame ≡ ok tt) where
  shape : FrameShape frame
  shape = validate_frame-FrameShape frame v

  total_bound : fragment_total frame < 2 ^ 16
  total_bound = omega (arith, shape.bounded)

  pub length-parts : length (parts frame) ≡ fragment_total frame
  length-parts =
      length-chunks (fragments_from frame (fragment_total frame) 0 (fragment_total frame))
      ∙ length-fragments_from frame (fragment_total frame) 0 (fragment_total frame)

  total-parts : total (parts frame) ≡ length frame.encoded
  total-parts = sym (length-concat (parts frame)) ∙ ap length (concat-parts frame v)

  get_elem?-parts :
      (j : ℕ) → j < fragment_total frame → get_elem? (parts frame) j ≡ some (piece frame j).payload
  get_elem?-parts j h = get_elem?-chunks _ j (
      get_elem?-fragments_from frame (fragment_total frame) 0 (fragment_total frame) j h
      ∙ ap (λ k. some (piece frame k)) (omega arith))

  consistent :
      (c : VideoFragment) (j : ℕ) → Describes frame c → is_inconsistent c (piece frame j) ≡ false
  consistent c j d = ground (arith, differ_self frame.keyframe, total_bound, shape.bounded)

  -- While the frame is assembled, a fragment of it goes to its slot.
  pub receive-piece :
      (c : VideoFragment) (s : FrameReassembler) (j : ℕ)
      → Assembling frame c s
      → j < fragment_total frame
      → receive s (piece frame j) ≡ store s c (piece frame j) (get_elem? s.fragments j)
  unfolding receive receive_valid consume
  receive-piece c s j a h =
      let index : j % 2 ^ 16 ≡ j = omega (arith, total_bound) in
      ground (
        arith,
        validate-fragment_at frame j v h,
        consistent c j a.describes,
        a.current,
        a.ahead,
        a.describes.frame_id,
        ap (get_elem? s.fragments) index,
      )

  -- A repeated fragment changes nothing.
  pub store-taken :
      (c : VideoFragment) (s : FrameReassembler) (j : ℕ) (d : List ℕ)
      → Assembling frame c s
      → store s c (piece frame j) (some (some d)) ≡ (s, ok none)
  unfolding store place settle
  store-taken c s j d a = ground (arith, a.counted, a.missing, a.describes.fragment_count)

  pub placed : FrameReassembler → ℕ → FrameReassembler
  placed s j = record s {
    fragments = set s.fragments j (some (piece frame j).payload);
    received_count = (s.received_count + 1) % 2 ^ 16;
    received_bytes = (s.received_bytes + length (piece frame j).payload) % 2 ^ 64;
  }

  pub fragments-placed :
      (s : FrameReassembler) (j : ℕ)
      → (placed s j).fragments ≡ set s.fragments j (some (piece frame j).payload)
  unfolding placed
  fragments-placed s j = refl

  -- What a new fragment does to the slots.
  module _ (c : VideoFragment) (s : FrameReassembler) (j : ℕ) (a : Assembling frame c s)
      (h : j < fragment_total frame) (free : get_elem? s.fragments j ≡ some none) where
    pub slots-placed : Partial (parts frame) (placed s j).fragments
    unfolding placed
    slots-placed = Partial-set _ (parts frame) s.fragments j a.slots (get_elem?-parts j h)

    filled-placed : filled (placed s j).fragments ≡ suc (filled s.fragments)
    unfolding placed
    filled-placed = filled-set _ s.fragments j free

    counted-placed : (placed s j).received_count ≡ filled (placed s j).fragments
    unfolding placed
    counted-placed = omega (arith, filled-placed, a.counted, a.missing, total_bound)

    weighed-placed : (placed s j).received_bytes ≡ held (placed s j).fragments
    unfolding placed
    weighed-placed = omega (
      arith,
      held-set (piece frame j).payload s.fragments j free,
      a.weighed,
      held_le (parts frame) (placed s j).fragments slots-placed,
      total-parts,
      shape.bounded,
    )

    weight_fits :
        ltb c.total_size ((s.received_bytes + length (piece frame j).payload) % 2 ^ 64) ≡ false
    unfolding placed
    weight_fits = ground (
      arith,
      weighed-placed,
      held_le (parts frame) (placed s j).fragments slots-placed,
      total-parts,
      a.describes.total_size,
    )

    place-free : place s c (piece frame j) none ≡ (placed s j, ok tt)
    unfolding place placed
    place-free =
        let index : j % 2 ^ 16 ≡ j = omega (arith, total_bound) in rw weight_fits (rw index)

    pub store-free : store s c (piece frame j) (some none) ≡ settle (placed s j, ok tt) c
    unfolding store
    store-free = ap (λ p. settle p c) place-free

    -- A chunk is still missing.
    pub settle-more :
        suc (filled s.fragments) < fragment_total frame
        → (settle (placed s j, ok tt) c ≡ (placed s j, ok none)) × Assembling frame c (placed s j)
    unfolding settle
    settle-more m = (
      ground (arith, counted-placed, filled-placed, a.describes.fragment_count),
      record {
        current = unfold placed in a.current;
        describes = a.describes;
        slots = slots-placed;
        counted = counted-placed;
        weighed = weighed-placed;
        missing = omega (arith, filled-placed);
        ahead = unfold placed in a.ahead;
      },
    )

    -- It was the last one.
    pub settle-last :
        suc (filled s.fragments) ≡ fragment_total frame
        → ((settle (placed s j, ok tt) c).1 ≡ ok (some (rebuilt frame)))
          × ((settle (placed s j, ok tt) c).0.last_completed_frame_id ≡ frame.frame_id)
    unfolding settle complete
    settle-last e =
        let full : filled (placed s j).fragments ≡ length (parts frame) =
          omega (arith, filled-placed, length-parts) in
        ground (
          arith,
          counted-placed,
          filled-placed,
          a.describes.fragment_count,
          a.describes.total_size,
          weighed-placed,
          held-full (parts frame) (placed s j).fragments slots-placed full,
          total-parts,
          join_parts-full (parts frame) (placed s j).fragments slots-placed full,
          concat-parts frame v,
        )

  -- A frame that can begin: none is being assembled, and it is new and decodable.
  module _ (s : FrameReassembler) (j : ℕ) (h : j < fragment_total frame) (idle : s.current ≡ none)
      (new : s.last_completed_frame_id < frame.frame_id)
      (decodable : (s.keyframe_required && not frame.keyframe) ≡ false) where
    pub begun-Assembling : Assembling frame (piece frame j) (begin s (piece frame j))
    begun-Assembling = record {
      current = refl;
      describes = ground (arith, total_bound, shape.bounded);
      slots =
          subst (λ n. Partial (parts frame) (replicate n none)) (sym slots_eq)
            (Partial-empty (parts frame));
      counted = sym (filled-empty (fragment_total frame % 2 ^ 16));
      weighed = sym (held-empty (fragment_total frame % 2 ^ 16));
      missing = omega (arith, filled-empty (fragment_total frame % 2 ^ 16));
      ahead = new;
    }
      where
        slots_eq : fragment_total frame % 2 ^ 16 ≡ length (parts frame)
        slots_eq = omega (arith, total_bound, length-parts)

    -- Its first fragment begins the assembly.
    pub receive-first :
        receive s (piece frame j) ≡ receive (begin s (piece frame j)) (piece frame j)
    unfolding receive receive_valid leave start consume
    receive-first = ground (arith, validate-fragment_at frame j v h, idle, new, decodable)
