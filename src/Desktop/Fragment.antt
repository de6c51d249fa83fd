-- ===== src/Desktop/Fragment.antt =====
-- Video frames and the datagram fragments that fragment_frame of desktop/src/desktop.cpp cuts them
-- into.
pub mod Split
use lan_pilot.Common.{
  ℕ, true, false, none, List, length, Result, Option, Bool, ◌%◌, ◌+◌, some, ltb, ◌++◌, ◌⨾◌, ◌^◌,
  take, replicate, ok, [], ◌!=◌, if◌then◌else◌, err, ◌&&◌, logic_error, leb, min, throw_if,
  invalid_argument, suc, ◌||◌, ◌-◌, ◌*◌, ◌∷◌, set, not, ◌/◌, drop, get_elem?, ◌==◌, zero,
  length_error, differ,
}
use lan_pilot.Desktop.Limits.{
  validate_dimensions, maximum_encoded_frame_size, maximum_video_payload,
}

pub record VideoFrame : Type 0 where
  pub frame_id : ℕ
  pub representation_epoch : ℕ
  pub captured_at_us : ℕ
  pub width : ℕ
  pub height : ℕ
  pub codec : ℕ
  pub keyframe : Bool
  pub encoded : List ℕ

pub record VideoFragment : Type 0 where
  pub frame_id : ℕ
  pub captured_at_us : ℕ
  pub width : ℕ
  pub height : ℕ
  pub codec : ℕ
  pub keyframe : Bool
  pub fragment_index : ℕ
  pub fragment_count : ℕ
  pub total_size : ℕ
  pub payload : List ℕ

-- `VideoCodec::h264`
abbrev pub h264 : ℕ
h264 = 1

abbrev pub maximum_count : ℕ
maximum_count = (maximum_encoded_frame_size + maximum_video_payload - 1) / maximum_video_payload

unfoldable pub validate_fragment : VideoFragment → Result (Unit {0})
unfolding validate_dimensions
validate_fragment f =
    validate_dimensions f.width f.height
    ⨾ throw_if
        (f.frame_id == 0
          || f.captured_at_us == 0
          || f.codec != h264
          || f.fragment_count == 0
          || leb f.fragment_count f.fragment_index
          || f.total_size == 0
          || ltb maximum_encoded_frame_size f.total_size
          || length f.payload == 0
          || ltb maximum_video_payload (length f.payload))
        invalid_argument
    ⨾ throw_if (ltb maximum_count f.fragment_count || ltb f.total_size (length f.payload))
        invalid_argument

-- The bytes from `offset` on, at most one payload of them.
abbrev pub slice : List ℕ → ℕ → List ℕ
slice encoded offset =
    take (min maximum_video_payload (length encoded - offset)) (drop offset encoded)

-- Round `index` of the loop. The casts to std::uint16_t and std::uint32_t keep the values, which
-- were bounded before the loop.
abbrev pub fragment_at : VideoFrame → ℕ → ℕ → VideoFragment
fragment_at frame count index = record {
  frame_id = frame.frame_id;
  captured_at_us = frame.captured_at_us;
  width = frame.width;
  height = frame.height;
  codec = frame.codec;
  keyframe = frame.keyframe;
  fragment_index = index % 2 ^ 16;
  fragment_count = count % 2 ^ 16;
  total_size = length frame.encoded % 2 ^ 32;
  payload = slice frame.encoded (index * maximum_video_payload);
}

-- The rounds from `index` on, of which there are `rounds`.
unfoldable pub fragments_from : VideoFrame → ℕ → ℕ → ℕ → List VideoFragment
fragments_from frame count index zero = []
fragments_from frame count index (suc rounds) =
    fragment_at frame count index ∷ fragments_from frame count (index + 1) rounds

abbrev pub fragment_total : VideoFrame → ℕ
fragment_total frame = (length frame.encoded + maximum_video_payload - 1) / maximum_video_payload

unfoldable pub validate_frame : VideoFrame → Result (Unit {0})
unfolding validate_dimensions
validate_frame frame =
    validate_dimensions frame.width frame.height
    ⨾ throw_if
        (frame.frame_id == 0
          || frame.captured_at_us == 0
          || frame.codec != h264
          || length frame.encoded == 0
          || ltb maximum_encoded_frame_size (length frame.encoded))
        invalid_argument
    ⨾ throw_if (ltb (2 ^ 16 - 1) (fragment_total frame)) length_error

unfoldable pub fragment_frame : VideoFrame → Result (List VideoFragment)
unfolding fragments_from
fragment_frame frame =
    validate_frame frame ⨾ ok (fragments_from frame (fragment_total frame) 0 (fragment_total frame))
