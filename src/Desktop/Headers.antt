-- ===== src/Desktop/Headers.antt =====
-- The visual message and reverse control headers of desktop/src/desktop.cpp. An enum class with a
-- fixed underlying type holds any number of that type after a static_cast, so `type` is a number;
-- its named values are in VisualMessageType and ReverseControlType.
pub mod RoundTrip
use lan_pilot.Common.{
  true, false, ℕ, Bool, List, Result, ◌%◌, ◌⨾◌, throw_if, if◌then◌else◌, ltb, ◌++◌, length, ◌==◌,
  ◌!=◌, ◌||◌, logic_error, invalid_argument, ◌+◌, ◌/◌, ok, [], ◌*◌, true,
}
use lan_pilot.Desktop.VisualMessageType
use lan_pilot.Desktop.ReverseControlType
use lan_pilot.Desktop.Wire.{
  ◌>>=◌, ◌>>◌, Reader, require_magic, u16, refuse_if, put_u16, put_u64, put_u8, u8, put_u32, u64,
  parse, u32, end, lift, done, checked_size,
}
use lan_pilot.Desktop.Limits.{
  visual_message_magic, preview_magic, reverse_control_magic, encoded_preview_magic,
  maximum_encoded_frame_size, maximum_preview_width, maximum_reverse_control_payload,
  maximum_preview_height, maximum_preview_frame_size,
}

pub record VisualMessageHeader : Type 0 where
  pub type : ℕ
  pub flags : ℕ
  pub payload_size : ℕ
  pub session_generation : ℕ
  pub representation_epoch : ℕ
  pub visual_sequence : ℕ
  pub frame_id : ℕ
  pub captured_at_us : ℕ

-- `(flags & visual_flag_frame_final) == 0`, the flag being bit 0.
abbrev pub lacks_frame_final : ℕ → Bool
lacks_frame_final flags = flags % 2 == 0

-- The checks on the payload size that depend on the message type.
validate_visual_kind : VisualMessageHeader → Result (Unit {0})
validate_visual_kind h =
    if h.type == VisualMessageType.h264_access_unit
    then throw_if
        (h.frame_id == 0
          || lacks_frame_final h.flags
          || ltb h.payload_size 9
          || ltb (maximum_encoded_frame_size + 8) h.payload_size)
        invalid_argument
    else if h.type == VisualMessageType.cursor_position
    then throw_if (h.flags != 0 || h.payload_size != 20) invalid_argument
    else if h.type == VisualMessageType.cursor_shape
    then throw_if (h.flags != 0 || ltb h.payload_size 20 || ltb (20 + 256 * 256 * 4) h.payload_size)
        invalid_argument
    else throw_if (ltb (maximum_preview_frame_size + 64) h.payload_size) invalid_argument

-- `flags & ~known_flags`, the known flags being bits 0 and 1.
unfoldable pub validate_visual_header : VisualMessageHeader → Result (Unit {0})
unfolding validate_visual_kind
validate_visual_header h =
    throw_if
      (ltb h.type VisualMessageType.h264_access_unit
        || ltb VisualMessageType.state_reset h.type
        || h.session_generation == 0
        || h.representation_epoch == 0
        || h.visual_sequence == 0
        || h.captured_at_us == 0)
      invalid_argument
    ⨾ throw_if (h.flags / 4 != 0) invalid_argument
    ⨾ validate_visual_kind h

abbrev pub visual_message_header_bytes : VisualMessageHeader → List ℕ
visual_message_header_bytes h =
    visual_message_magic
    ++ (put_u16 3
        ++ (put_u8 h.type
            ++ (put_u8 h.flags
                ++ (put_u16 56
                    ++ (put_u16 0
                        ++ (put_u32 h.payload_size
                            ++ (put_u64 h.session_generation
                                ++ (put_u64 h.representation_epoch
                                    ++ (put_u64 h.visual_sequence
                                        ++ (put_u64 h.frame_id
                                            ++ (put_u64 h.captured_at_us ++ [])))))))))))

unfoldable pub encode_visual_message_header : VisualMessageHeader → Result (List ℕ)
encode_visual_message_header h =
    validate_visual_header h ⨾ checked_size 56 (visual_message_header_bytes h)

read_visual_message_header : Reader VisualMessageHeader
read_visual_message_header = do
  require_magic visual_message_magic
  version ← u16
  refuse_if (version != 3) invalid_argument
  type ← u8
  flags ← u8
  header_size ← u16
  refuse_if (header_size != 56) invalid_argument
  reserved ← u16
  refuse_if (reserved != 0) invalid_argument
  payload_size ← u32
  session_generation ← u64
  representation_epoch ← u64
  visual_sequence ← u64
  frame_id ← u64
  captured_at_us ← u64
  end
  let header : VisualMessageHeader = record {
    type = type;
    flags = flags;
    payload_size = payload_size;
    session_generation = session_generation;
    representation_epoch = representation_epoch;
    visual_sequence = visual_sequence;
    frame_id = frame_id;
    captured_at_us = captured_at_us;
  }
  lift (validate_visual_header header)
  done header

unfoldable pub decode_visual_message_header : List ℕ → Result VisualMessageHeader
unfolding read_visual_message_header
decode_visual_message_header bs =
    throw_if (length bs != 56) invalid_argument ⨾ parse read_visual_message_header bs

pub record ReverseControlHeader : Type 0 where
  pub type : ℕ
  pub flags : ℕ
  pub payload_size : ℕ
  pub input_epoch : ℕ
  pub sequence : ℕ
  pub occurred_at_us : ℕ

unfoldable pub validate_reverse_control_header : ReverseControlHeader → Result (Unit {0})
validate_reverse_control_header h =
    throw_if
      (ltb h.type ReverseControlType.input_event
        || ltb ReverseControlType.ping h.type
        || h.flags != 0
        || h.input_epoch == 0
        || h.sequence == 0
        || h.occurred_at_us == 0
        || ltb maximum_reverse_control_payload h.payload_size)
      invalid_argument

abbrev pub reverse_control_header_bytes : ReverseControlHeader → List ℕ
reverse_control_header_bytes h =
    reverse_control_magic
    ++ (put_u16 2
        ++ (put_u8 h.type
            ++ (put_u8 h.flags
                ++ (put_u32 h.payload_size
                    ++ (put_u64 h.input_epoch
                        ++ (put_u64 h.sequence
                            ++ (put_u64 h.occurred_at_us ++ (put_u32 0 ++ []))))))))

unfoldable pub encode_reverse_control_header : ReverseControlHeader → Result (List ℕ)
encode_reverse_control_header h =
    validate_reverse_control_header h ⨾ checked_size 40 (reverse_control_header_bytes h)

read_reverse_control_header : Reader ReverseControlHeader
read_reverse_control_header = do
  require_magic reverse_control_magic
  version ← u16
  refuse_if (version != 2) invalid_argument
  type ← u8
  flags ← u8
  payload_size ← u32
  input_epoch ← u64
  sequence ← u64
  occurred_at_us ← u64
  reserved ← u32
  refuse_if (reserved != 0) invalid_argument
  end
  let header : ReverseControlHeader = record {
    type = type;
    flags = flags;
    payload_size = payload_size;
    input_epoch = input_epoch;
    sequence = sequence;
    occurred_at_us = occurred_at_us;
  }
  lift (validate_reverse_control_header header)
  done header

unfoldable pub decode_reverse_control_header : List ℕ → Result ReverseControlHeader
unfolding read_reverse_control_header
decode_reverse_control_header bs =
    throw_if (length bs != 40) invalid_argument ⨾ parse read_reverse_control_header bs
