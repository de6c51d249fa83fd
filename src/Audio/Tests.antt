-- ===== src/Audio/Tests.antt =====
-- Runs of the audio path.
use lan_pilot.Common.{
  ℕ, ok, true, false, none, some, [], ◌∷◌, refl, replicate, List, arith, ◌+◌, Result, ◌≡◌, find_key,
  ◌*◌, All, ◌↔◌, put_key, remove_key,
}
use lan_pilot.Core.Capability
use lan_pilot.Desktop.Wire.{IsBytes, put_u16, put_u32, put_u64}
use lan_pilot.Audio.Jitter.{
  AudioJitterBuffer, pop, push, no_telemetry, new_buffer, push_valid, pop_at, PlayoutPacket,
}
use lan_pilot.Audio.Jitter.Playout.{
  push_call, pop_call, Numbered, play_run, PlayCall, played, IsSound, played-Numbered,
}
use lan_pilot.Audio.Jitter.Delivery.{play, JitterCall, accepted_played, jitter_run}
use lan_pilot.Audio.Channel.{
  send, OpusCodec, AudioReceiver, playout, send_packet, check_send, new_sender, outgoing,
}
use lan_pilot.Audio.Packet.{
  packet_bytes, PcmFrame, encode_packet, AudioPacket, validate_pcm_frame, validate_packet,
  decode_packet,
}
use lan_pilot.Core.Authorization.{AuthorizationResult, permits}
use lan_pilot.Audio.Packet.Codec.{PacketFits, audio_packet_codec}
use lan_pilot.Audio.Channel.Delivered.{playout-valid, sent_received}

abbrev packet : ℕ → AudioPacket
packet n = record {
  sequence = n;
  captured_at_us = 7;
  sample_rate = 48000;
  channels = 2;
  samples_per_channel = 960;
  opus = n ∷ 255 ∷ [];
}

abbrev packet_three : PacketFits (packet 3)
packet_three = record {
  sequence = omega arith;
  captured_at_us = omega arith;
  sample_rate = omega arith;
  channels = omega arith;
  samples_per_channel = omega arith;
}

three-IsBytes : IsBytes (packet_bytes (packet 3))
unfolding put_u16 put_u32 put_u64
three-IsBytes = omega arith

audio_packet_codec_example :
    (encode_packet (packet 3) ≡ ok (packet_bytes (packet 3)))
    ↔ (decode_packet (packet_bytes (packet 3)) ≡ ok (packet 3))
audio_packet_codec_example =
    audio_packet_codec (packet 3) (packet_bytes (packet 3)) packet_three three-IsBytes

abbrev buffer : AudioJitterBuffer
buffer = record {
  target_packets = 2;
  maximum_packets = 4;
  packets = [];
  expected_sequence = none;
  counts = no_telemetry;
}

buffer_made : new_buffer 2 4 ≡ ok buffer
unfolding new_buffer
buffer_made = refl

abbrev calls : List PlayCall
calls =
    push_call (packet 5)
    ∷ pop_call false
    ∷ push_call (packet 3)
    ∷ pop_call false
    ∷ pop_call false
    ∷ pop_call false
    ∷ []

abbrev sequences : List PlayoutPacket → List ℕ
sequences [] = []
sequences (o ∷ os) = o.sequence ∷ sequences os

-- The first pop waits for a second packet; number 4 is concealed.
three_played : sequences (played calls buffer) ≡ 3 ∷ 4 ∷ 5 ∷ []
unfolding push push_valid pop pop_at validate_packet find_key put_key remove_key
three_played = refl

played-Numbered_example :
    ((n : ℕ) × Numbered n (played calls buffer))
    × All (IsSound (λ p. p.captured_at_us ≡ 7)) (played calls buffer)
played-Numbered_example =
    played-Numbered (λ p. p.captured_at_us ≡ 7) 2 4 buffer_made calls (refl, (refl, tt))

abbrev before : List JitterCall
before = play (push_call (packet 3)) ∷ play (push_call (packet 4)) ∷ play (pop_call false) ∷ []

abbrev next_buffer : AudioJitterBuffer
next_buffer = record {
  target_packets = 2;
  maximum_packets = 4;
  packets = (4, packet 4) ∷ (6, packet 6) ∷ [];
  expected_sequence = some 4;
  counts = record {
    accepted = 3;
    duplicates = 0;
    late = 0;
    overflow = 0;
    plc_frames = 0;
    depth = 2;
  };
}

four_expected : (jitter_run before buffer).expected_sequence ≡ some 4
unfolding push push_valid pop pop_at validate_packet find_key put_key remove_key
four_expected = refl

six_pushed : push (packet 6) (jitter_run before buffer) ≡ ok (next_buffer, true)
unfolding push push_valid pop pop_at validate_packet find_key put_key remove_key
six_pushed = refl

abbrev after : List PlayCall
after = pop_call false ∷ push_call (packet 7) ∷ pop_call true ∷ []

accepted_played_example :
    (pop false (play_run after next_buffer)).1
    ≡ some (record { sequence = 6; packet_loss_concealment = false; packet = some (packet 6) })
accepted_played_example =
    accepted_played 2 4 buffer_made before 4 (packet 6) four_expected six_pushed (omega arith) after
      refl false

-- A codec that counts its calls and codes a frame as one byte.
abbrev codec : OpusCodec ℕ
codec = record {
  encode = λ n f. (n + 1, ok (f.channels ∷ []));
  decode = λ n p. (
    n + 1,
    ok (record {
      sample_rate = p.sample_rate;
      channels = p.channels;
      samples_per_channel = p.samples_per_channel;
      interleaved_samples = replicate (p.channels * p.samples_per_channel) 0;
    }),
  );
  conceal_loss = λ n samples. (
    n + 1,
    ok (record {
      sample_rate = 48000;
      channels = 1;
      samples_per_channel = samples;
      interleaved_samples = replicate samples 0;
    }),
  );
}

abbrev viewing : AuthorizationResult
viewing = record {
  principal_matched = true;
  workspace_allowed = true;
  granted = Capability.desktop_view ∷ [];
  denied = [];
}

abbrev frame : PcmFrame
frame = record {
  sample_rate = 48000;
  channels = 1;
  samples_per_channel = 120;
  interleaved_samples = replicate 120 0;
}

abbrev transport : List ℕ → Result (Unit {0})
transport wire = ok tt

sent_once : (send codec transport frame 7 (new_sender 0 viewing)).1 ≡ ok tt
unfolding send send_packet check_send encode_packet validate_packet validate_pcm_frame permits
    put_u16 put_u32 put_u64
sent_once = refl

sent_received_example :
    (opus wire : List ℕ) × (permits viewing Capability.desktop_view ≡ true)
    × (validate_pcm_frame frame ≡ ok tt)
    × ((codec.encode 0 frame).1 ≡ ok opus)
    × ((send codec transport frame 7 (new_sender 0 viewing)).0.sent ≡ wire ∷ [])
    × ((send codec transport frame 7 (new_sender 0 viewing)).0.next_sequence ≡ 2)
    × (decode_packet wire ≡ ok (outgoing frame 7 1 opus))
sent_received_example =
    sent_received codec transport frame 7 (new_sender 0 viewing) (omega arith) (omega arith)
      sent_once

abbrev receiver : AudioReceiver ℕ
receiver = record {
  codec_state = 0;
  authorization = viewing;
  jitter = record buffer { expected_sequence = some 9 };
}

abbrev concealed : PcmFrame
concealed = record {
  sample_rate = 48000;
  channels = 1;
  samples_per_channel = 960;
  interleaved_samples = replicate 960 0;
}

concealed_given : (playout codec true receiver).1 ≡ ok (some concealed)
unfolding playout pop pop_at find_key validate_pcm_frame permits
concealed_given = refl

playout-valid_example :
    (permits receiver.authorization Capability.desktop_view ≡ true)
    × (validate_pcm_frame concealed ≡ ok tt)
playout-valid_example = playout-valid codec true receiver concealed concealed_given
