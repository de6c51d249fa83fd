-- ===== src/Desktop/Updates.antt =====
-- The payloads of full-snapshot, raw-rectangle, commit and reset messages of
-- desktop/src/desktop.cpp. `CanonicalPixelFormat` and `VisualStateResetReason` are enum classes over
-- std::uint32_t and are numbers here; a SHA-256 digest is a list of 32 bytes.
pub mod SnapshotCodec
pub mod RectCodec
pub mod CommitCodec
use lan_pilot.Common.{
  ℕ, Result, List, ◌*◌, ◌⨾◌, Bool, throw_if, ok, ltb, ◌++◌, ◌==◌, length, ◌!=◌, ◌%◌, ◌||◌,
  invalid_argument, ◌&&◌, discard, ◌^◌, ◌-◌, [], leb, length_error, ◌+◌, bytes_eq,
}
use lan_pilot.Desktop.Wire.{
  ◌>>=◌, ◌>>◌, Reader, put_u32, u64, u32, put_u64, done, lift, bytes, end, parse,
}
use lan_pilot.Desktop.Limits.{
  validate_dimensions, maximum_snapshot_total_bytes, maximum_raw_rect_protocol_bytes,
  maximum_snapshot_wire_chunk_bytes,
}

-- `CanonicalPixelFormat::bgra8_premultiplied_srgb`
abbrev pub bgra8_premultiplied_srgb : ℕ
bgra8_premultiplied_srgb = 1

unfoldable pub checked_u32 : ℕ → Result (Unit {0})
checked_u32 value = throw_if (ltb (2 ^ 32 - 1) value) length_error

pub record VisualFullSnapshotChunk : Type 0 where
  pub surface_width : ℕ
  pub surface_height : ℕ
  pub row_stride : ℕ
  pub pixel_format : ℕ
  pub total_bytes : ℕ
  pub chunk_offset : ℕ
  pub chunk : List ℕ

unfoldable pub validate_snapshot_chunk : VisualFullSnapshotChunk → Result (Unit {0})
unfolding validate_dimensions checked_u32
validate_snapshot_chunk c =
    validate_dimensions c.surface_width c.surface_height
    ⨾ throw_if
        (c.pixel_format != bgra8_premultiplied_srgb
          || c.row_stride != c.surface_width * 4
          || c.surface_width * 4 * c.surface_height == 0
          || ltb maximum_snapshot_total_bytes (c.surface_width * 4 * c.surface_height)
          || c.total_bytes != c.surface_width * 4 * c.surface_height
          || length c.chunk == 0
          || ltb maximum_snapshot_wire_chunk_bytes (length c.chunk)
          || ltb c.total_bytes c.chunk_offset
          || ltb (c.total_bytes - c.chunk_offset) (length c.chunk))
        invalid_argument
    ⨾ checked_u32 (length c.chunk)

abbrev pub snapshot_chunk_bytes : VisualFullSnapshotChunk → List ℕ
snapshot_chunk_bytes c =
    put_u32 c.surface_width
    ++ (put_u32 c.surface_height
        ++ (put_u32 c.row_stride
            ++ (put_u32 c.pixel_format
                ++ (put_u32 c.total_bytes
                    ++ (put_u32 c.chunk_offset ++ (put_u32 (length c.chunk) ++ (c.chunk ++ [])))))))

unfoldable pub encode_visual_full_snapshot_chunk : VisualFullSnapshotChunk → Result (List ℕ)
encode_visual_full_snapshot_chunk c = validate_snapshot_chunk c ⨾ ok (snapshot_chunk_bytes c)

read_visual_full_snapshot_chunk : Reader VisualFullSnapshotChunk
unfolding encode_visual_full_snapshot_chunk
read_visual_full_snapshot_chunk = do
  surface_width ← u32
  surface_height ← u32
  row_stride ← u32
  pixel_format ← u32
  total_bytes ← u32
  chunk_offset ← u32
  chunk_size ← u32
  chunk ← bytes chunk_size
  end
  let result : VisualFullSnapshotChunk = record {
    surface_width = surface_width;
    surface_height = surface_height;
    row_stride = row_stride;
    pixel_format = pixel_format;
    total_bytes = total_bytes;
    chunk_offset = chunk_offset;
    chunk = chunk;
  }
  lift (discard (encode_visual_full_snapshot_chunk result))
  done result

unfoldable pub decode_visual_full_snapshot_chunk : List ℕ → Result VisualFullSnapshotChunk
unfolding read_visual_full_snapshot_chunk
decode_visual_full_snapshot_chunk payload =
    throw_if
      (ltb (length payload) 29 || ltb (28 + maximum_snapshot_wire_chunk_bytes) (length payload))
      invalid_argument
    ⨾ parse read_visual_full_snapshot_chunk payload

pub record VisualRawRect : Type 0 where
  pub base_frame_id : ℕ
  pub surface_width : ℕ
  pub surface_height : ℕ
  pub x : ℕ
  pub y : ℕ
  pub width : ℕ
  pub height : ℕ
  pub row_stride : ℕ
  pub pixel_format : ℕ
  pub bgra : List ℕ

-- `packed_stride` and `expected_size` are std::uint64_t.
unfoldable pub validate_raw_rect : VisualRawRect → Result (Unit {0})
unfolding validate_dimensions
validate_raw_rect r =
    let packed_stride = r.width * 4 in
    let expected_size = packed_stride * r.height % 2 ^ 64 in
    validate_dimensions r.surface_width r.surface_height
    ⨾ throw_if
        (r.pixel_format != bgra8_premultiplied_srgb
          || r.width == 0
          || r.height == 0
          || leb r.surface_width r.x
          || leb r.surface_height r.y
          || ltb (r.surface_width - r.x) r.width
          || ltb (r.surface_height - r.y) r.height
          || r.row_stride != packed_stride
          || expected_size == 0
          || ltb maximum_raw_rect_protocol_bytes expected_size
          || length r.bgra != expected_size
          || r.base_frame_id == 0)
        invalid_argument

abbrev pub raw_rect_bytes : VisualRawRect → List ℕ
raw_rect_bytes r =
    put_u64 r.base_frame_id
    ++ (put_u32 r.surface_width
        ++ (put_u32 r.surface_height
            ++ (put_u32 r.x
                ++ (put_u32 r.y
                    ++ (put_u32 r.width
                        ++ (put_u32 r.height
                            ++ (put_u32 r.row_stride
                                ++ (put_u32 r.pixel_format ++ (r.bgra ++ [])))))))))

unfoldable pub encode_visual_raw_rect : VisualRawRect → Result (List ℕ)
encode_visual_raw_rect r = validate_raw_rect r ⨾ ok (raw_rect_bytes r)

-- The argument is `payload.size()`.
read_visual_raw_rect : ℕ → Reader VisualRawRect
unfolding encode_visual_raw_rect
read_visual_raw_rect size = do
  base_frame_id ← u64
  surface_width ← u32
  surface_height ← u32
  x ← u32
  y ← u32
  width ← u32
  height ← u32
  row_stride ← u32
  pixel_format ← u32
  bgra ← bytes (size - 40)
  let rect : VisualRawRect = record {
    base_frame_id = base_frame_id;
    surface_width = surface_width;
    surface_height = surface_height;
    x = x;
    y = y;
    width = width;
    height = height;
    row_stride = row_stride;
    pixel_format = pixel_format;
    bgra = bgra;
  }
  lift (discard (encode_visual_raw_rect rect))
  done rect

unfoldable pub decode_visual_raw_rect : List ℕ → Result VisualRawRect
unfolding read_visual_raw_rect
decode_visual_raw_rect payload =
    throw_if
      (ltb (length payload) 44 || ltb (40 + maximum_raw_rect_protocol_bytes) (length payload))
      invalid_argument
    ⨾ parse (read_visual_raw_rect (length payload)) payload

pub record VisualFrameCommit : Type 0 where
  pub base_frame_id : ℕ

unfoldable pub encode_visual_frame_commit : VisualFrameCommit → List ℕ
encode_visual_frame_commit commit = put_u64 commit.base_frame_id

read_visual_frame_commit : Reader VisualFrameCommit
read_visual_frame_commit = do
  base_frame_id ← u64
  let commit : VisualFrameCommit = record { base_frame_id = base_frame_id }
  done commit

unfoldable pub decode_visual_frame_commit : List ℕ → Result VisualFrameCommit
unfolding read_visual_frame_commit
decode_visual_frame_commit payload =
    throw_if (length payload != 8) invalid_argument ⨾ parse read_visual_frame_commit payload

pub record VisualStateReset : Type 0 where
  pub reason : ℕ

-- The reasons run from `representation_transition`, 1, to `snapshot_required`, 4.
unfoldable pub encode_visual_state_reset : VisualStateReset → Result (List ℕ)
encode_visual_state_reset reset =
    throw_if (ltb reset.reason 1 || ltb 4 reset.reason) invalid_argument ⨾ ok (put_u32 reset.reason)

read_visual_state_reset : Reader VisualStateReset
unfolding encode_visual_state_reset
read_visual_state_reset = do
  reason ← u32
  let reset : VisualStateReset = record { reason = reason }
  lift (discard (encode_visual_state_reset reset))
  done reset

unfoldable pub decode_visual_state_reset : List ℕ → Result VisualStateReset
unfolding read_visual_state_reset
decode_visual_state_reset payload =
    throw_if (length payload != 4) invalid_argument ⨾ parse read_visual_state_reset payload

pub record FrameCommitAck : Type 0 where
  pub session_generation : ℕ
  pub representation_epoch : ℕ
  pub frame_id : ℕ
  pub canonical_sha256 : List ℕ

unfoldable pub encode_frame_commit_ack : FrameCommitAck → Result (List ℕ)
encode_frame_commit_ack ack =
    throw_if (ack.session_generation == 0 || ack.representation_epoch == 0 || ack.frame_id == 0)
      invalid_argument
    ⨾ ok (
        put_u64 ack.session_generation
        ++ (put_u64 ack.representation_epoch
            ++ (put_u64 ack.frame_id ++ (ack.canonical_sha256 ++ []))))

read_frame_commit_ack : Reader FrameCommitAck
unfolding encode_frame_commit_ack
read_frame_commit_ack = do
  session_generation ← u64
  representation_epoch ← u64
  frame_id ← u64
  canonical_sha256 ← bytes 32
  let ack : FrameCommitAck = record {
    session_generation = session_generation;
    representation_epoch = representation_epoch;
    frame_id = frame_id;
    canonical_sha256 = canonical_sha256;
  }
  lift (discard (encode_frame_commit_ack ack))
  done ack

unfoldable pub decode_frame_commit_ack : List ℕ → Result FrameCommitAck
unfolding read_frame_commit_ack
decode_frame_commit_ack payload =
    throw_if (length payload != 56) invalid_argument ⨾ parse read_frame_commit_ack payload

unfoldable pub frame_commit_ack_matches : FrameCommitAck → ℕ → ℕ → ℕ → List ℕ → Bool
frame_commit_ack_matches ack session_generation representation_epoch frame_id canonical_sha256 =
    session_generation != 0
    && representation_epoch != 0
    && frame_id != 0
    && ack.session_generation == session_generation
    && ack.representation_epoch == representation_epoch
    && ack.frame_id == frame_id
    && bytes_eq ack.canonical_sha256 canonical_sha256
