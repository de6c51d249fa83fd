-- ===== src/Desktop/Fragment/Split.antt =====
-- The fragments that fragment_frame makes of an encoded frame.
use lan_pilot.Common.{
  ℕ, List, ◌<◌, ◌≡◌, length, map, get_elem?, ok, ◌≤◌, suc, ◌+◌, arith, ap, some, ◌*◌, zero, ◌∙◌,
  refl, drop, length-take, min, sym, drop_all, ◌-◌, length-drop, ◌++◌, take, drop-drop, drop-min,
  take-append-drop,
}
use lan_pilot.Desktop.Fragment.{
  VideoFrame, validate_frame, validate_fragment, fragments_from, VideoFragment, fragment_total,
  fragment_at,
}
use lan_pilot.Desktop.Limits.{maximum_encoded_frame_size, maximum_video_payload}
use lan_pilot.Desktop.Reassembly.Slots.{concat}

abbrev pub chunks : List VideoFragment → List (List ℕ)
chunks = map λ f. f.payload

-- The chunks from `index` on join to the bytes from there on.
concat-chunks :
    (frame : VideoFrame) (count index rounds : ℕ)
    → length frame.encoded ≤ (index + rounds) * maximum_video_payload
    → concat (chunks (fragments_from frame count index rounds))
      ≡ drop (index * maximum_video_payload) frame.encoded
unfolding fragments_from
concat-chunks frame count index zero h =
    sym (drop_all (index * maximum_video_payload) frame.encoded (omega arith))
concat-chunks frame count index (suc rounds) h =
    let offset = index * maximum_video_payload in
    let rest = drop offset frame.encoded in
    let size = min maximum_video_payload (length frame.encoded - offset) in
    let e : size ≡ min maximum_video_payload (length rest) =
      omega (arith, length-drop offset frame.encoded) in
    ap (◌++◌ (take size rest)) (
      concat-chunks frame count (index + 1) rounds (omega arith)
      ∙ drop-drop offset maximum_video_payload ((index + 1) * maximum_video_payload) frame.encoded
          (omega arith)
      ∙ sym (drop-min maximum_video_payload rest)
      ∙ ap (λ n. drop n rest) (sym e))
    ∙ take-append-drop size rest

-- The fragment that a round makes, for the later rounds too.
pub get_elem?-fragments_from :
    (frame : VideoFrame) (count index rounds j : ℕ)
    → j < rounds
    → get_elem? (fragments_from frame count index rounds) j
      ≡ some (fragment_at frame count (index + j))
unfolding fragments_from
get_elem?-fragments_from frame count index zero j h = absurd (omega arith)
get_elem?-fragments_from frame count index (suc rounds) zero h =
    ap (λ k. some (fragment_at frame count k)) (omega arith)
get_elem?-fragments_from frame count index (suc rounds) (suc j) h =
    get_elem?-fragments_from frame count (index + 1) rounds j (omega arith)
    ∙ ap (λ k. some (fragment_at frame count k)) (omega arith)

pub length-fragments_from :
    (frame : VideoFrame) (count index rounds : ℕ)
    → length (fragments_from frame count index rounds) ≡ rounds
unfolding fragments_from
length-fragments_from frame count index zero = refl
length-fragments_from frame count index (suc rounds) =
    ap suc (length-fragments_from frame count (index + 1) rounds)

-- What a frame that passes the validation satisfies.
pub record FrameShape (frame : VideoFrame) : Type 0 where
  pub nonempty : 0 < length frame.encoded
  pub bounded : length frame.encoded ≤ maximum_encoded_frame_size
  pub named : 0 < frame.frame_id

pub validate_frame-FrameShape :
    (frame : VideoFrame) → validate_frame frame ≡ ok tt → FrameShape frame
unfolding validate_frame
validate_frame-FrameShape frame v = ground arith

-- Joining the payloads of a frame's fragments gives the encoded frame.
pub concat-parts :
    (frame : VideoFrame)
    → validate_frame frame ≡ ok tt
    → concat (chunks (fragments_from frame (fragment_total frame) 0 (fragment_total frame)))
      ≡ frame.encoded
concat-parts frame v =
    concat-chunks frame (fragment_total frame) 0 (fragment_total frame) (omega arith)

-- Every fragment of a frame is valid, and so is accepted by a receiver.
pub validate-fragment_at :
    (frame : VideoFrame) (j : ℕ)
    → validate_frame frame ≡ ok tt
    → j < fragment_total frame
    → validate_fragment (fragment_at frame (fragment_total frame) j) ≡ ok tt
unfolding validate_fragment validate_frame
validate-fragment_at frame j v h =
    let offset = j * maximum_video_payload in
    ground (
      arith,
      length-take (min maximum_video_payload (length frame.encoded - offset))
          (drop offset frame.encoded),
      length-drop offset frame.encoded,
    )
