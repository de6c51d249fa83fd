-- ===== src/Audio/Packet.antt =====
-- The frames and packets of audio/src/audio.cpp. Its Reader and its append functions are the Reader
-- and the Writer of desktop/src/desktop.cpp again, with the same exception on a short input. A sample
-- is its bit pattern.
pub mod Codec
use lan_pilot.Common.{
  ℕ, zero, suc, ok, err, true, false, none, some, [], ◌∷◌, if◌then◌else◌, Bool, Result, List, ◌++◌,
  ◌!=◌, ◌⨾◌, throw_if, ◌||◌, ◌==◌, ltb, ◌&&◌, invalid_argument, length, ◌*◌, length_error,
}
use lan_pilot.Desktop.Wire.{
  ◌>>=◌, ◌>>◌, Reader, put_u64, require_magic, u16, put_u16, refuse_if, put_u32, u64, u32, parse,
  bytes, end, lift, done,
}

abbrev pub opus_sample_rate : ℕ
opus_sample_rate = 48000

abbrev pub opus_channels : ℕ
opus_channels = 2

abbrev pub opus_frame_samples : ℕ
opus_frame_samples = 960

abbrev pub maximum_opus_packet_size : ℕ
maximum_opus_packet_size = 1275

abbrev pub maximum_audio_datagram_size : ℕ
maximum_audio_datagram_size = 1400

abbrev pub audio_magic : List ℕ
audio_magic = b'R' ∷ b'W' ∷ b'A' ∷ b'1' ∷ []

pub record PcmFrame : Type 0 where
  pub sample_rate : ℕ
  pub channels : ℕ
  pub samples_per_channel : ℕ
  pub interleaved_samples : List ℕ

pub record AudioPacket : Type 0 where
  pub sequence : ℕ
  pub captured_at_us : ℕ
  pub sample_rate : ℕ
  pub channels : ℕ
  pub samples_per_channel : ℕ
  pub opus : List ℕ

-- The first tests of both validations.
abbrev pub refuses_format : ℕ → ℕ → ℕ → Bool
refuses_format sample_rate channels samples_per_channel =
    sample_rate != opus_sample_rate
    || channels != 1 && channels != opus_channels
    || samples_per_channel != 120
      && samples_per_channel != 240
      && samples_per_channel != 480
      && samples_per_channel != opus_frame_samples
      && samples_per_channel != 1920
      && samples_per_channel != 2880

unfoldable pub validate_packet : AudioPacket → Result (Unit {0})
validate_packet p =
    throw_if
      (p.sequence == 0
        || p.captured_at_us == 0
        || refuses_format p.sample_rate p.channels p.samples_per_channel
        || length p.opus == 0
        || ltb maximum_opus_packet_size (length p.opus))
      invalid_argument

unfoldable pub validate_pcm_frame : PcmFrame → Result (Unit {0})
validate_pcm_frame f =
    throw_if
      (refuses_format f.sample_rate f.channels f.samples_per_channel
        || length f.interleaved_samples != f.channels * f.samples_per_channel)
      invalid_argument

abbrev pub packet_bytes : AudioPacket → List ℕ
packet_bytes p =
    audio_magic
    ++ (put_u16 1
        ++ (put_u16 0
            ++ (put_u64 p.sequence
                ++ (put_u64 p.captured_at_us
                    ++ (put_u32 p.sample_rate
                        ++ (put_u16 p.channels
                            ++ (put_u16 p.samples_per_channel
                                ++ (put_u16 (length p.opus) ++ (p.opus ++ [])))))))))

unfoldable pub encode_packet : AudioPacket → Result (List ℕ)
encode_packet p =
    validate_packet p
    ⨾ throw_if (ltb maximum_audio_datagram_size (length (packet_bytes p))) length_error
    ⨾ ok (packet_bytes p)

-- The header's test is one condition in the code, which stops at the first part that fails.
read_packet : Reader AudioPacket
read_packet = do
  require_magic audio_magic
  version ← u16
  refuse_if (version != 1) invalid_argument
  flags ← u16
  refuse_if (flags != 0) invalid_argument
  sequence ← u64
  captured_at_us ← u64
  sample_rate ← u32
  channels ← u16
  samples_per_channel ← u16
  payload_size ← u16
  refuse_if (payload_size == 0 || ltb maximum_opus_packet_size payload_size) length_error
  payload ← bytes payload_size
  end
  let packet : AudioPacket = record {
    sequence = sequence;
    captured_at_us = captured_at_us;
    sample_rate = sample_rate;
    channels = channels;
    samples_per_channel = samples_per_channel;
    opus = payload;
  }
  lift (validate_packet packet)
  done packet

unfoldable pub decode_packet : List ℕ → Result AudioPacket
unfolding read_packet
decode_packet bs =
    throw_if (ltb maximum_audio_datagram_size (length bs)) length_error ⨾ parse read_packet bs
