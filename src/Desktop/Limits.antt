-- ===== src/Desktop/Limits.antt =====
-- The limits of desktop/include/rwn/desktop/desktop.hpp and the magics of desktop/src/desktop.cpp.
use lan_pilot.Common.{
  ℕ, ◌-◌, ◌*◌, List, [], ◌∷◌, ◌||◌, ltb, ◌==◌, Result, throw_if, invalid_argument,
}

abbrev pub maximum_media_datagram_size : ℕ
maximum_media_datagram_size = 1200

abbrev pub maximum_encoded_frame_size : ℕ
maximum_encoded_frame_size = 8 * 1024 * 1024

abbrev pub maximum_input_text_size : ℕ
maximum_input_text_size = 64 * 1024

abbrev pub maximum_clipboard_text_size : ℕ
maximum_clipboard_text_size = 1024 * 1024

abbrev pub maximum_reverse_control_payload : ℕ
maximum_reverse_control_payload = 64 * 1024

abbrev pub maximum_snapshot_total_bytes : ℕ
maximum_snapshot_total_bytes = 32 * 1024 * 1024

abbrev pub maximum_snapshot_wire_chunk_bytes : ℕ
maximum_snapshot_wire_chunk_bytes = 64 * 1024

abbrev pub maximum_raw_rect_protocol_bytes : ℕ
maximum_raw_rect_protocol_bytes = 1920 * 1080 * 4

abbrev pub maximum_raw_rect_transaction_count : ℕ
maximum_raw_rect_transaction_count = 256

abbrev pub maximum_preview_width : ℕ
maximum_preview_width = 1920

abbrev pub maximum_preview_height : ℕ
maximum_preview_height = 1080

abbrev pub maximum_preview_frame_size : ℕ
maximum_preview_frame_size = maximum_preview_width * maximum_preview_height * 4

abbrev pub video_header_size : ℕ
video_header_size = 42

abbrev pub maximum_video_payload : ℕ
maximum_video_payload = maximum_media_datagram_size - video_header_size

-- "RWV1", "RWI1", "RWC1", "RWK1", "RWP1", "RWH1", "RWV2", "RWC1".
abbrev pub video_magic : List ℕ
video_magic = b'R' ∷ b'W' ∷ b'V' ∷ b'1' ∷ []

abbrev pub input_magic : List ℕ
input_magic = b'R' ∷ b'W' ∷ b'I' ∷ b'1' ∷ []

abbrev pub clipboard_magic : List ℕ
clipboard_magic = b'R' ∷ b'W' ∷ b'C' ∷ b'1' ∷ []

abbrev pub keyframe_magic : List ℕ
keyframe_magic = b'R' ∷ b'W' ∷ b'K' ∷ b'1' ∷ []

abbrev pub preview_magic : List ℕ
preview_magic = b'R' ∷ b'W' ∷ b'P' ∷ b'1' ∷ []

abbrev pub encoded_preview_magic : List ℕ
encoded_preview_magic = b'R' ∷ b'W' ∷ b'H' ∷ b'1' ∷ []

abbrev pub visual_message_magic : List ℕ
visual_message_magic = b'R' ∷ b'W' ∷ b'V' ∷ b'2' ∷ []

abbrev pub reverse_control_magic : List ℕ
reverse_control_magic = b'R' ∷ b'W' ∷ b'C' ∷ b'1' ∷ []

unfoldable pub validate_dimensions : ℕ → ℕ → Result (Unit {0})
validate_dimensions width height =
    throw_if (width == 0 || height == 0 || ltb 7680 width || ltb 4320 height) invalid_argument
