-- ===== src/Desktop/Datagram.antt =====
-- A video fragment as a datagram: encode_video_fragment and decode_video_fragment of
-- desktop/src/desktop.cpp.
pub mod Codec
use lan_pilot.Common.{
  ℕ, zero, suc, ok, err, true, false, none, some, [], ◌∷◌, if◌then◌else◌, Result, List, throw_if,
  ◌⨾◌, ltb, ◌++◌, ◌!=◌, length, length_error, invalid_argument, ◌/◌, ◌%◌,
}
use lan_pilot.Desktop.Wire.{
  ◌>>=◌, ◌>>◌, Reader, put_u64, require_magic, u16, put_u16, refuse_if, put_u8, flag, u8, put_u32,
  parse, u64, u32, bytes, end, lift, done,
}
use lan_pilot.Desktop.Fragment.{VideoFragment, validate_fragment}
use lan_pilot.Desktop.Limits.{video_magic, maximum_media_datagram_size}

abbrev pub video_fragment_bytes : VideoFragment → List ℕ
video_fragment_bytes f =
    video_magic
    ++ (put_u16 1
        ++ (put_u8 f.codec
            ++ (put_u8 (flag f.keyframe)
                ++ (put_u64 f.frame_id
                    ++ (put_u64 f.captured_at_us
                        ++ (put_u32 f.width
                            ++ (put_u32 f.height
                                ++ (put_u16 f.fragment_index
                                    ++ (put_u16 f.fragment_count
                                        ++ (put_u32 f.total_size
                                            ++ (put_u16 (length f.payload)
                                                ++ (f.payload ++ []))))))))))))

unfoldable pub encode_video_fragment : VideoFragment → Result (List ℕ)
encode_video_fragment f =
    validate_fragment f
    ⨾ throw_if (ltb maximum_media_datagram_size (length (video_fragment_bytes f))) length_error
    ⨾ ok (video_fragment_bytes f)

read_video_fragment : Reader VideoFragment
read_video_fragment = do
  require_magic video_magic
  version ← u16
  refuse_if (version != 1) invalid_argument
  codec ← u8
  flags ← u8
  refuse_if (flags / 2 != 0) invalid_argument
  frame_id ← u64
  captured_at_us ← u64
  width ← u32
  height ← u32
  fragment_index ← u16
  fragment_count ← u16
  total_size ← u32
  payload_size ← u16
  payload ← bytes payload_size
  end
  let fragment : VideoFragment = record {
    frame_id = frame_id;
    captured_at_us = captured_at_us;
    width = width;
    height = height;
    codec = codec;
    keyframe = flags % 2 != 0;
    fragment_index = fragment_index;
    fragment_count = fragment_count;
    total_size = total_size;
    payload = payload;
  }
  lift (validate_fragment fragment)
  done fragment

unfoldable pub decode_video_fragment : List ℕ → Result VideoFragment
unfolding read_video_fragment
decode_video_fragment bs =
    throw_if (ltb maximum_media_datagram_size (length bs)) length_error
    ⨾ parse read_video_fragment bs
