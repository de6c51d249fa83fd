-- ===== src/Audio/Channel.antt =====
-- AudioSender, AudioReceiver and the relays of audio/src/audio.cpp. The codec, the transport and the
-- backends are interfaces that this code only calls: a codec has a state of its own, and each call
-- may throw.
pub mod Delivered
use lan_pilot.Common.{
  ℕ, zero, suc, ok, err, true, false, none, some, [], ◌∷◌, if◌then◌else◌, Bool, Option, Result,
  List, ◌⨾◌, not, throw_if, ◌==◌, invalid_argument, logic_error, ◌++◌,
}
use lan_pilot.Core.Capability
use lan_pilot.Audio.Jitter.{pop, AudioJitterBuffer, PlayoutPacket, next64, push}
use lan_pilot.Core.Authorization.{AuthorizationResult, permits}
use lan_pilot.Audio.Packet.{
  PcmFrame, AudioPacket, validate_pcm_frame, opus_frame_samples, encode_packet, decode_packet,
}

pub record OpusCodec (C : Type 0) : Type 0 where
  pub encode : C → PcmFrame → C × Result (List ℕ)
  pub decode : C → AudioPacket → C × Result PcmFrame
  pub conceal_loss : C → ℕ → C × Result PcmFrame

-- The datagrams that the transport has taken stand in the sender.
pub record AudioSender (C : Type 0) : Type 0 where
  pub codec_state : C
  pub authorization : AuthorizationResult
  pub next_sequence : ℕ
  pub sent : List (List ℕ)

pub record AudioReceiver (C : Type 0) : Type 0 where
  pub codec_state : C
  pub authorization : AuthorizationResult
  pub jitter : AudioJitterBuffer

abbrev pub new_sender : {C : Type 0} → C → AuthorizationResult → AudioSender C
new_sender c authorization = record {
  codec_state = c;
  authorization = authorization;
  next_sequence = 1;
  sent = [];
}

abbrev pub outgoing : PcmFrame → ℕ → ℕ → List ℕ → AudioPacket
outgoing frame captured_at_us sequence opus = record {
  sequence = sequence;
  captured_at_us = captured_at_us;
  sample_rate = frame.sample_rate;
  channels = frame.channels;
  samples_per_channel = frame.samples_per_channel;
  opus = opus;
}

-- What `send` asks for before it encodes.
unfoldable pub check_send : AuthorizationResult → PcmFrame → ℕ → Result (Unit {0})
check_send authorization frame captured_at_us =
    throw_if (not (permits authorization Capability.desktop_view)) logic_error
    ⨾ validate_pcm_frame frame
    ⨾ throw_if (captured_at_us == 0) invalid_argument

module _ {C : Type 0} (codec : OpusCodec C) where
  -- The packet is encoded and handed to the transport.
  unfoldable pub send_packet :
      (List ℕ → Result (Unit {0})) → AudioPacket → AudioSender C → AudioSender C × Result (Unit {0})
  send_packet transport packet s = elim (encode_packet packet) [
    | err e ↦ (s, err e)
    | ok wire ↦ elim (transport wire) [
      | err e ↦ (s, err e)
      | ok _ ↦ (record s { sent = s.sent ++ wire ∷ [] }, ok tt)
    ]
  ]

  unfoldable pub send :
      (List ℕ → Result (Unit {0}))
      → PcmFrame
      → ℕ
      → AudioSender C
      → AudioSender C × Result (Unit {0})
  unfolding check_send send_packet
  send transport frame captured_at_us s =
      let (c, encoded) = codec.encode s.codec_state frame in
      elim (check_send s.authorization frame captured_at_us) [
        | err e ↦ (s, err e)
        | ok _ ↦ elim encoded [
          | err e ↦ (record s { codec_state = c }, err e)
          | ok opus ↦
              send_packet transport (outgoing frame captured_at_us s.next_sequence opus)
                (record s { codec_state = c; next_sequence = next64 s.next_sequence })
        ]
      ]

  unfoldable pub receive : List ℕ → AudioReceiver C → AudioReceiver C × Result Bool
  receive datagram r =
      let taken =
        throw_if (not (permits r.authorization Capability.desktop_view)) logic_error
        ⨾ elim (decode_packet datagram) [ ok p ↦ push p r.jitter | err e ↦ err e ] in
      elim taken [
        | ok (jitter, accepted) ↦ (record r { jitter = jitter }, ok accepted)
        | err e ↦ (r, err e)
      ]

  abbrev pub checked_frame : Result PcmFrame → Result (Option PcmFrame)
  checked_frame (ok frame) = validate_pcm_frame frame ⨾ ok (some frame)
  checked_frame (err e) = err e

  -- What the codec makes of what the jitter buffer gives.
  abbrev pub render : Option PlayoutPacket → C → C × Result (Option PcmFrame)
  render none c = (c, ok none)
  render (some o) c = elim o.packet [
    | none ↦
        let (next, concealed) = codec.conceal_loss c opus_frame_samples in
        (next, checked_frame concealed)
    | some p ↦ let (next, decoded) = codec.decode c p in (next, checked_frame decoded)
  ]

  unfoldable pub playout : Bool → AudioReceiver C → AudioReceiver C × Result (Option PcmFrame)
  playout deadline_expired r =
      let (jitter, next) = pop deadline_expired r.jitter in
      let (c, frame) = render next r.codec_state in
      if not (permits r.authorization Capability.desktop_view)
      then (r, err logic_error)
      else (record r { codec_state = c; jitter = jitter }, frame)

  -- A captured frame, where there is one, is sent.
  unfoldable pub pump_capture :
      (List ℕ → Result (Unit {0}))
      → Option (PcmFrame × ℕ)
      → AudioSender C
      → AudioSender C × Result Bool
  unfolding send
  pump_capture transport none s = (s, ok false)
  pump_capture transport (some (frame, captured_at_us)) s =
      let checked = validate_pcm_frame frame ⨾ throw_if (captured_at_us == 0) invalid_argument in
      let (next, result) = send transport frame captured_at_us s in
      elim checked [
        | err e ↦ (s, err e)
        | ok _ ↦ elim result [ ok _ ↦ (next, ok true) | err e ↦ (next, err e) ]
      ]

  -- A frame, where there is one, is played.
  unfoldable pub pump_playback :
      (PcmFrame → Result (Unit {0})) → Bool → AudioReceiver C → AudioReceiver C × Result Bool
  unfolding playout
  pump_playback playback deadline_expired r =
      let (next, frame) = playout deadline_expired r in
      elim frame [
        | err e ↦ (next, err e)
        | ok none ↦ (next, ok false)
        | ok (some f) ↦ (next, playback f ⨾ ok true)
      ]
