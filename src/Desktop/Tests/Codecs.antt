-- ===== src/Desktop/Tests/Codecs.antt =====
-- Runs of the codecs.
use lan_pilot.Common.{ℕ, true, false, [], ◌∷◌, refl, ok, List, ◌≡◌}
use lan_pilot.Desktop.Wire.{put_u8, put_u16, put_u32, put_u64}
use lan_pilot.Desktop.InputEvents.{InputEvent, encode_input_event, validate_input_event}
use lan_pilot.Desktop.Updates.{
  encode_visual_raw_rect, encode_visual_full_snapshot_chunk, VisualRawRect, encode_frame_commit_ack,
  VisualFullSnapshotChunk, FrameCommitAck, validate_snapshot_chunk, validate_raw_rect,
}
use lan_pilot.Desktop.Headers.{
  ReverseControlHeader, VisualMessageHeader, encode_reverse_control_header,
  encode_visual_message_header, validate_visual_header, validate_reverse_control_header,
}
use lan_pilot.Desktop.Previews.{
  EncodedPreviewFrameHeader, encode_preview_frame_header, encode_encoded_preview_frame_header,
  PreviewFrameHeader, validate_preview_header, validate_encoded_preview_header,
}
use lan_pilot.Desktop.Fragment.{VideoFragment, validate_fragment}
use lan_pilot.Desktop.Datagram.{encode_video_fragment}
use lan_pilot.Desktop.Utf8.{valid_utf8}
use lan_pilot.Desktop.Limits.{validate_dimensions}

abbrev preview_header : PreviewFrameHeader
preview_header = record {
  frame_id = 7;
  captured_at_us = 9;
  width = 2;
  height = 3;
  payload_size = 24;
}

abbrev preview_header_wire : List ℕ
preview_header_wire =
    82 ∷ 87 ∷ 80 ∷ 49 ∷ 0 ∷ 1 ∷ 0 ∷ 0 ∷ 0 ∷ 0 ∷ 0 ∷ 0 ∷ 0 ∷ 0 ∷ 0 ∷ 7 ∷ 0 ∷ 0 ∷ 0 ∷ 0 ∷ 0 ∷ 0 ∷ 0
    ∷ 9 ∷ 0 ∷ 0 ∷ 0 ∷ 2 ∷ 0 ∷ 0 ∷ 0 ∷ 3 ∷ 0 ∷ 0 ∷ 0 ∷ 24 ∷ []

abbrev encoded_header : EncodedPreviewFrameHeader
encoded_header = record {
  frame_id = 7;
  captured_at_us = 9;
  width = 2;
  height = 3;
  payload_size = 24;
  keyframe = true;
}

abbrev encoded_header_wire : List ℕ
encoded_header_wire =
    82 ∷ 87 ∷ 72 ∷ 49 ∷ 0 ∷ 1 ∷ 0 ∷ 1 ∷ 0 ∷ 0 ∷ 0 ∷ 0 ∷ 0 ∷ 0 ∷ 0 ∷ 7 ∷ 0 ∷ 0 ∷ 0 ∷ 0 ∷ 0 ∷ 0 ∷ 0
    ∷ 9 ∷ 0 ∷ 0 ∷ 0 ∷ 2 ∷ 0 ∷ 0 ∷ 0 ∷ 3 ∷ 0 ∷ 0 ∷ 0 ∷ 24 ∷ []

abbrev visual_header : VisualMessageHeader
visual_header = record {
  type = 1;
  flags = 1;
  payload_size = 100;
  session_generation = 4;
  representation_epoch = 2;
  visual_sequence = 1;
  frame_id = 7;
  captured_at_us = 9;
}

abbrev visual_header_wire : List ℕ
visual_header_wire =
    82 ∷ 87 ∷ 86 ∷ 50 ∷ 0 ∷ 3 ∷ 1 ∷ 1 ∷ 0 ∷ 56 ∷ 0 ∷ 0 ∷ 0 ∷ 0 ∷ 0 ∷ 100 ∷ 0 ∷ 0 ∷ 0 ∷ 0 ∷ 0 ∷ 0 ∷ 0
    ∷ 4 ∷ 0 ∷ 0 ∷ 0 ∷ 0 ∷ 0 ∷ 0 ∷ 0 ∷ 2 ∷ 0 ∷ 0 ∷ 0 ∷ 0 ∷ 0 ∷ 0 ∷ 0 ∷ 1 ∷ 0 ∷ 0 ∷ 0 ∷ 0 ∷ 0 ∷ 0 ∷ 0
    ∷ 7 ∷ 0 ∷ 0 ∷ 0 ∷ 0 ∷ 0 ∷ 0 ∷ 0 ∷ 9 ∷ []

abbrev control_header : ReverseControlHeader
control_header = record {
  type = 1;
  flags = 0;
  payload_size = 40;
  input_epoch = 1;
  sequence = 5;
  occurred_at_us = 9;
}

abbrev control_header_wire : List ℕ
control_header_wire =
    82 ∷ 87 ∷ 67 ∷ 49 ∷ 0 ∷ 2 ∷ 1 ∷ 0 ∷ 0 ∷ 0 ∷ 0 ∷ 40 ∷ 0 ∷ 0 ∷ 0 ∷ 0 ∷ 0 ∷ 0 ∷ 0 ∷ 1 ∷ 0 ∷ 0 ∷ 0
    ∷ 0 ∷ 0 ∷ 0 ∷ 0 ∷ 5 ∷ 0 ∷ 0 ∷ 0 ∷ 0 ∷ 0 ∷ 0 ∷ 0 ∷ 9 ∷ 0 ∷ 0 ∷ 0 ∷ 0 ∷ []

abbrev snapshot_chunk : VisualFullSnapshotChunk
snapshot_chunk = record {
  surface_width = 2;
  surface_height = 1;
  row_stride = 8;
  pixel_format = 1;
  total_bytes = 8;
  chunk_offset = 4;
  chunk = 1 ∷ 2 ∷ 3 ∷ 4 ∷ [];
}

abbrev snapshot_chunk_wire : List ℕ
snapshot_chunk_wire =
    0 ∷ 0 ∷ 0 ∷ 2 ∷ 0 ∷ 0 ∷ 0 ∷ 1 ∷ 0 ∷ 0 ∷ 0 ∷ 8 ∷ 0 ∷ 0 ∷ 0 ∷ 1 ∷ 0 ∷ 0 ∷ 0 ∷ 8 ∷ 0 ∷ 0 ∷ 0 ∷ 4
    ∷ 0 ∷ 0 ∷ 0 ∷ 4 ∷ 1 ∷ 2 ∷ 3 ∷ 4 ∷ []

abbrev raw_rect : VisualRawRect
raw_rect = record {
  base_frame_id = 3;
  surface_width = 4;
  surface_height = 4;
  x = 1;
  y = 2;
  width = 1;
  height = 1;
  row_stride = 4;
  pixel_format = 1;
  bgra = 1 ∷ 2 ∷ 3 ∷ 4 ∷ [];
}

abbrev raw_rect_wire : List ℕ
raw_rect_wire =
    0 ∷ 0 ∷ 0 ∷ 0 ∷ 0 ∷ 0 ∷ 0 ∷ 3 ∷ 0 ∷ 0 ∷ 0 ∷ 4 ∷ 0 ∷ 0 ∷ 0 ∷ 4 ∷ 0 ∷ 0 ∷ 0 ∷ 1 ∷ 0 ∷ 0 ∷ 0 ∷ 2
    ∷ 0 ∷ 0 ∷ 0 ∷ 1 ∷ 0 ∷ 0 ∷ 0 ∷ 1 ∷ 0 ∷ 0 ∷ 0 ∷ 4 ∷ 0 ∷ 0 ∷ 0 ∷ 1 ∷ 1 ∷ 2 ∷ 3 ∷ 4 ∷ []

abbrev commit_ack : FrameCommitAck
commit_ack = record {
  session_generation = 1;
  representation_epoch = 2;
  frame_id = 3;
  canonical_sha256 =
      1 ∷ 2 ∷ 3 ∷ 4 ∷ 5 ∷ 6 ∷ 7 ∷ 8 ∷ 9 ∷ 10 ∷ 11 ∷ 12 ∷ 13 ∷ 14 ∷ 15 ∷ 16 ∷ 17 ∷ 18 ∷ 19 ∷ 20 ∷ 21
      ∷ 22 ∷ 23 ∷ 24 ∷ 25 ∷ 26 ∷ 27 ∷ 28 ∷ 29 ∷ 30 ∷ 31 ∷ 32 ∷ [];
}

abbrev commit_ack_wire : List ℕ
commit_ack_wire =
    0 ∷ 0 ∷ 0 ∷ 0 ∷ 0 ∷ 0 ∷ 0 ∷ 1 ∷ 0 ∷ 0 ∷ 0 ∷ 0 ∷ 0 ∷ 0 ∷ 0 ∷ 2 ∷ 0 ∷ 0 ∷ 0 ∷ 0 ∷ 0 ∷ 0 ∷ 0 ∷ 3
    ∷ 1 ∷ 2 ∷ 3 ∷ 4 ∷ 5 ∷ 6 ∷ 7 ∷ 8 ∷ 9 ∷ 10 ∷ 11 ∷ 12 ∷ 13 ∷ 14 ∷ 15 ∷ 16 ∷ 17 ∷ 18 ∷ 19 ∷ 20 ∷ 21
    ∷ 22 ∷ 23 ∷ 24 ∷ 25 ∷ 26 ∷ 27 ∷ 28 ∷ 29 ∷ 30 ∷ 31 ∷ 32 ∷ []

abbrev typed : InputEvent
typed = record {
  kind = 2;
  sequence = 5;
  occurred_at_us = 9;
  value_a = 0;
  value_b = 0;
  pressed = false;
  text = 195 ∷ 169 ∷ 33 ∷ [];
}

abbrev typed_wire : List ℕ
typed_wire =
    82 ∷ 87 ∷ 73 ∷ 49 ∷ 1 ∷ 2 ∷ 0 ∷ 0 ∷ 0 ∷ 0 ∷ 0 ∷ 0 ∷ 0 ∷ 0 ∷ 0 ∷ 5 ∷ 0 ∷ 0 ∷ 0 ∷ 0 ∷ 0 ∷ 0 ∷ 0
    ∷ 9 ∷ 0 ∷ 0 ∷ 0 ∷ 0 ∷ 0 ∷ 0 ∷ 0 ∷ 0 ∷ 0 ∷ 0 ∷ 0 ∷ 3 ∷ 195 ∷ 169 ∷ 33 ∷ []

abbrev fragment : VideoFragment
fragment = record {
  frame_id = 7;
  captured_at_us = 9;
  width = 64;
  height = 48;
  codec = 1;
  keyframe = true;
  fragment_index = 0;
  fragment_count = 1;
  total_size = 3;
  payload = 1 ∷ 2 ∷ 3 ∷ [];
}

abbrev fragment_wire : List ℕ
fragment_wire =
    82 ∷ 87 ∷ 86 ∷ 49 ∷ 0 ∷ 1 ∷ 1 ∷ 1 ∷ 0 ∷ 0 ∷ 0 ∷ 0 ∷ 0 ∷ 0 ∷ 0 ∷ 7 ∷ 0 ∷ 0 ∷ 0 ∷ 0 ∷ 0 ∷ 0 ∷ 0
    ∷ 9 ∷ 0 ∷ 0 ∷ 0 ∷ 64 ∷ 0 ∷ 0 ∷ 0 ∷ 48 ∷ 0 ∷ 0 ∷ 0 ∷ 1 ∷ 0 ∷ 0 ∷ 0 ∷ 3 ∷ 0 ∷ 3 ∷ 1 ∷ 2 ∷ 3 ∷ []

preview_header_encoded : encode_preview_frame_header preview_header ≡ ok preview_header_wire
unfolding encode_preview_frame_header validate_preview_header validate_dimensions put_u8 put_u16
    put_u32 put_u64
preview_header_encoded = refl

encoded_header_encoded : encode_encoded_preview_frame_header encoded_header ≡ ok encoded_header_wire
unfolding encode_encoded_preview_frame_header validate_encoded_preview_header validate_dimensions
    put_u8 put_u16 put_u32 put_u64
encoded_header_encoded = refl

visual_header_encoded : encode_visual_message_header visual_header ≡ ok visual_header_wire
unfolding encode_visual_message_header validate_visual_header put_u8 put_u16 put_u32 put_u64
visual_header_encoded = refl

control_header_encoded : encode_reverse_control_header control_header ≡ ok control_header_wire
unfolding encode_reverse_control_header validate_reverse_control_header put_u8 put_u16 put_u32
    put_u64
control_header_encoded = refl

snapshot_chunk_encoded : encode_visual_full_snapshot_chunk snapshot_chunk ≡ ok snapshot_chunk_wire
unfolding encode_visual_full_snapshot_chunk validate_snapshot_chunk put_u8 put_u16 put_u32 put_u64
snapshot_chunk_encoded = refl

raw_rect_encoded : encode_visual_raw_rect raw_rect ≡ ok raw_rect_wire
unfolding encode_visual_raw_rect validate_raw_rect put_u8 put_u16 put_u32 put_u64
raw_rect_encoded = refl

commit_ack_encoded : encode_frame_commit_ack commit_ack ≡ ok commit_ack_wire
unfolding encode_frame_commit_ack put_u8 put_u16 put_u32 put_u64
commit_ack_encoded = refl

typed_encoded : encode_input_event typed ≡ ok typed_wire
unfolding encode_input_event validate_input_event valid_utf8 put_u8 put_u16 put_u32 put_u64
typed_encoded = refl

fragment_encoded : encode_video_fragment fragment ≡ ok fragment_wire
unfolding encode_video_fragment validate_fragment put_u8 put_u16 put_u32 put_u64
fragment_encoded = refl
