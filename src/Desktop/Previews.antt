-- ===== src/Desktop/Previews.antt =====
-- The two preview headers of desktop/src/desktop.cpp.
pub mod RoundTrip
use lan_pilot.Common.{
  true, false, ℕ, Bool, List, Result, ◌%◌, ◌⨾◌, throw_if, if◌then◌else◌, ltb, ◌++◌, length, ◌==◌,
  ◌!=◌, ◌||◌, logic_error, invalid_argument, ◌+◌, ◌/◌, ok, [], ◌*◌, true,
}
use lan_pilot.Desktop.VisualMessageType
use lan_pilot.Desktop.ReverseControlType
use lan_pilot.Desktop.Wire.{
  ◌>>=◌, ◌>>◌, Reader, require_magic, u16, refuse_if, put_u16, put_u64, put_u8, u8, put_u32, u64,
  parse, u32, end, lift, done, checked_size, flag,
}
use lan_pilot.Desktop.Limits.{
  visual_message_magic, preview_magic, reverse_control_magic, encoded_preview_magic,
  maximum_encoded_frame_size, maximum_preview_width, maximum_reverse_control_payload,
  maximum_preview_height, maximum_preview_frame_size,
}

pub record PreviewFrameHeader : Type 0 where
  pub frame_id : ℕ
  pub captured_at_us : ℕ
  pub width : ℕ
  pub height : ℕ
  pub payload_size : ℕ

unfoldable pub validate_preview_header : PreviewFrameHeader → Result (Unit {0})
validate_preview_header h =
    throw_if
      (h.frame_id == 0
        || h.captured_at_us == 0
        || h.width == 0
        || h.height == 0
        || ltb maximum_preview_width h.width
        || ltb maximum_preview_height h.height)
      invalid_argument
    ⨾ throw_if
        (ltb maximum_preview_frame_size (h.width * h.height * 4)
          || h.payload_size != h.width * h.height * 4)
        invalid_argument

abbrev pub preview_frame_header_bytes : PreviewFrameHeader → List ℕ
preview_frame_header_bytes h =
    preview_magic
    ++ (put_u16 1
        ++ (put_u16 0
            ++ (put_u64 h.frame_id
                ++ (put_u64 h.captured_at_us
                    ++ (put_u32 h.width ++ (put_u32 h.height ++ (put_u32 h.payload_size ++ [])))))))

unfoldable pub encode_preview_frame_header : PreviewFrameHeader → Result (List ℕ)
encode_preview_frame_header h =
    validate_preview_header h ⨾ checked_size 36 (preview_frame_header_bytes h)

read_preview_frame_header : Reader PreviewFrameHeader
read_preview_frame_header = do
  require_magic preview_magic
  version ← u16
  refuse_if (version != 1) invalid_argument
  reserved ← u16
  refuse_if (reserved != 0) invalid_argument
  frame_id ← u64
  captured_at_us ← u64
  width ← u32
  height ← u32
  payload_size ← u32
  end
  let header : PreviewFrameHeader = record {
    frame_id = frame_id;
    captured_at_us = captured_at_us;
    width = width;
    height = height;
    payload_size = payload_size;
  }
  lift (validate_preview_header header)
  done header

unfoldable pub decode_preview_frame_header : List ℕ → Result PreviewFrameHeader
unfolding read_preview_frame_header
decode_preview_frame_header bs =
    throw_if (length bs != 36) invalid_argument ⨾ parse read_preview_frame_header bs

pub record EncodedPreviewFrameHeader : Type 0 where
  pub frame_id : ℕ
  pub captured_at_us : ℕ
  pub width : ℕ
  pub height : ℕ
  pub payload_size : ℕ
  pub keyframe : Bool

unfoldable pub validate_encoded_preview_header : EncodedPreviewFrameHeader → Result (Unit {0})
validate_encoded_preview_header h =
    throw_if
      (h.frame_id == 0
        || h.captured_at_us == 0
        || h.width == 0
        || h.height == 0
        || ltb maximum_preview_width h.width
        || ltb maximum_preview_height h.height
        || h.payload_size == 0
        || ltb maximum_encoded_frame_size h.payload_size)
      invalid_argument

abbrev pub encoded_preview_frame_header_bytes : EncodedPreviewFrameHeader → List ℕ
encoded_preview_frame_header_bytes h =
    encoded_preview_magic
    ++ (put_u16 1
        ++ (put_u16 (flag h.keyframe)
            ++ (put_u64 h.frame_id
                ++ (put_u64 h.captured_at_us
                    ++ (put_u32 h.width ++ (put_u32 h.height ++ (put_u32 h.payload_size ++ [])))))))

unfoldable pub encode_encoded_preview_frame_header : EncodedPreviewFrameHeader → Result (List ℕ)
encode_encoded_preview_frame_header h =
    validate_encoded_preview_header h ⨾ checked_size 36 (encoded_preview_frame_header_bytes h)

-- `flags & 0xfffe` and `flags & 1` of a 16-bit number.
read_encoded_preview_frame_header : Reader EncodedPreviewFrameHeader
read_encoded_preview_frame_header = do
  require_magic encoded_preview_magic
  version ← u16
  refuse_if (version != 1) invalid_argument
  flags ← u16
  refuse_if (flags / 2 != 0) invalid_argument
  frame_id ← u64
  captured_at_us ← u64
  width ← u32
  height ← u32
  payload_size ← u32
  end
  let header : EncodedPreviewFrameHeader = record {
    frame_id = frame_id;
    captured_at_us = captured_at_us;
    width = width;
    height = height;
    payload_size = payload_size;
    keyframe = flags % 2 != 0;
  }
  lift (validate_encoded_preview_header header)
  done header

unfoldable pub decode_encoded_preview_frame_header : List ℕ → Result EncodedPreviewFrameHeader
unfolding read_encoded_preview_frame_header
decode_encoded_preview_frame_header bs =
    throw_if (length bs != 36) invalid_argument ⨾ parse read_encoded_preview_frame_header bs
