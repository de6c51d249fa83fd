-- ===== src/Audio/Channel/Delivered.antt =====
-- A frame from AudioSender to AudioReceiver of audio/src/audio.cpp.
use lan_pilot.Common.{
  ℕ, ok, err, true, none, some, [], ◌∷◌, List, Result, ◌≡◌, Bool, ◌<◌, ◌^◌, arith, Result-cases,
  inr, ◌++◌, inl, Outcome-cases, Option, Bool-cases, subst, Option-cases,
}
use lan_pilot.Core.Capability
use lan_pilot.Audio.Packet.{
  validate_pcm_frame, PcmFrame, encode_packet, decode_packet, opus_frame_samples,
}
use lan_pilot.Audio.Channel.{
  OpusCodec, send, playout, check_send, send_packet, AudioSender, AudioReceiver, outgoing,
  checked_frame, render,
}
use lan_pilot.Core.Authorization.{AuthorizationResult, permits}
use lan_pilot.Audio.Jitter.{next64, PlayoutPacket, pop}
use lan_pilot.Audio.Packet.Codec.{PacketFits, decode-encode_packet}

frame_format :
    (f : PcmFrame)
    → validate_pcm_frame f ≡ ok tt
    → (f.sample_rate < 2 ^ 32) × (f.channels < 2 ^ 16) × (f.samples_per_channel < 2 ^ 16)
unfolding validate_pcm_frame
frame_format f h = (ground arith, ground arith, ground arith)

check_send-ok :
    (authorization : AuthorizationResult) (frame : PcmFrame) (captured_at_us : ℕ)
    → check_send authorization frame captured_at_us ≡ ok tt
    → (permits authorization Capability.desktop_view ≡ true) × (validate_pcm_frame frame ≡ ok tt)
unfolding check_send
check_send-ok authorization frame captured_at_us h =
    (ground arith, ground (arith, Result-cases (validate_pcm_frame frame)))

module _ {C : Type 0} (codec : OpusCodec C) where
  -- Three steps: the codec's bytes, the packet's bytes, the transport.
  abbrev Sent :
      (List ℕ → Result (Unit {0})) → PcmFrame → ℕ → AudioSender C → List ℕ → List ℕ → Type 0
  Sent transport frame captured_at_us s opus wire =
      ((codec.encode s.codec_state frame).1 ≡ ok opus)
      × (encode_packet (outgoing frame captured_at_us s.next_sequence opus) ≡ ok wire)
      × ((send codec transport frame captured_at_us s).0.sent ≡ s.sent ++ wire ∷ [])
      × ((send codec transport frame captured_at_us s).0.next_sequence ≡ next64 s.next_sequence)

  send-Sent :
      (transport : List ℕ → Result (Unit {0})) (frame : PcmFrame) (captured_at_us : ℕ)
      (s : AudioSender C)
      → (send codec transport frame captured_at_us s).1 ≡ ok tt
      → (check_send s.authorization frame captured_at_us ≡ ok tt)
        × (opus wire : List ℕ) × Sent transport frame captured_at_us s opus wire
  unfolding send send_packet
  send-Sent transport frame captured_at_us s h =
      elim (Result-cases (check_send s.authorization frame captured_at_us)) [
        | inr (x, c) ↦ absurd (ground (arith, c, h))
        | inl c ↦ elim (Outcome-cases ((codec.encode s.codec_state frame).1)) [
          | inr (x, e) ↦ absurd (ground (arith, c, e, h))
          | inl (opus, e) ↦
              let packet = outgoing frame captured_at_us s.next_sequence opus in
              elim (Outcome-cases (encode_packet packet)) [
                | inr (x, p) ↦ absurd (ground (arith, c, e, p, h))
                | inl (wire, p) ↦ elim (Outcome-cases (transport wire)) [
                  | inr (x, t) ↦ absurd (ground (arith, c, e, p, t, h))
                  | inl (y, t) ↦ (
                    c,
                    opus,
                    wire,
                    (e, p, ground (arith, c, e, p, t), ground (arith, c, e, p, t)),
                  )
                ]
              ]
        ]
      ]

  -- A frame that is sent without an exception was valid and sent with the capability to view; the
  -- transport has taken exactly one datagram more; and that datagram decodes to the packet with the
  -- codec's bytes, the frame's format and time, and the number of the sender's counter, which moves
  -- on by one.
  pub sent_received :
      (transport : List ℕ → Result (Unit {0})) (frame : PcmFrame) (captured_at_us : ℕ)
      (s : AudioSender C)
      → s.next_sequence < 2 ^ 64
      → captured_at_us < 2 ^ 64
      → (send codec transport frame captured_at_us s).1 ≡ ok tt
      → (opus wire : List ℕ) × (permits s.authorization Capability.desktop_view ≡ true)
        × (validate_pcm_frame frame ≡ ok tt)
        × ((codec.encode s.codec_state frame).1 ≡ ok opus)
        × ((send codec transport frame captured_at_us s).0.sent ≡ s.sent ++ wire ∷ [])
        × ((send codec transport frame captured_at_us s).0.next_sequence ≡ next64 s.next_sequence)
        × (decode_packet wire ≡ ok (outgoing frame captured_at_us s.next_sequence opus))
  sent_received transport frame captured_at_us s u v h =
      let (c, opus, wire, (e, p, q, n)) = send-Sent transport frame captured_at_us s h in
      let (g, f) = check_send-ok s.authorization frame captured_at_us c in
      let (a, b, d) = frame_format frame f in
      let packet = outgoing frame captured_at_us s.next_sequence opus in
      let fits : PacketFits packet = record {
        sequence = u;
        captured_at_us = v;
        sample_rate = a;
        channels = b;
        samples_per_channel = d;
      } in
      (opus, wire, g, f, e, q, n, decode-encode_packet packet fits p)

  checked_frame-valid :
      (m : Result PcmFrame) (frame : PcmFrame)
      → checked_frame codec m ≡ ok (some frame)
      → validate_pcm_frame frame ≡ ok tt
  checked_frame-valid (err e) frame h = absurd (ground arith)
  checked_frame-valid (ok f) frame h = elim (Result-cases (validate_pcm_frame f)) [
    | inl v ↦
        let q : f ≡ frame = ground (arith, v, h) in
        subst (λ (x : PcmFrame). validate_pcm_frame x ≡ ok tt) q v
    | inr (x, v) ↦ absurd (ground (arith, v, h))
  ]

  render-valid :
      (o : Option PlayoutPacket) (c : C) (frame : PcmFrame)
      → (render codec o c).1 ≡ ok (some frame)
      → validate_pcm_frame frame ≡ ok tt
  render-valid none c frame h = absurd (ground arith)
  render-valid (some o) c frame h = elim (Option-cases o.packet) [
    | inl e ↦
        checked_frame-valid (codec.conceal_loss c opus_frame_samples).1 frame (ground (arith, e, h))
    | inr (p, e) ↦ checked_frame-valid (codec.decode c p).1 frame (ground (arith, e, h))
  ]

  -- A frame is given for playout only with the capability to view, and only if it is valid, whatever
  -- the codec makes of the packet or the loss.
  pub playout-valid :
      (deadline_expired : Bool) (r : AudioReceiver C) (frame : PcmFrame)
      → (playout codec deadline_expired r).1 ≡ ok (some frame)
      → (permits r.authorization Capability.desktop_view ≡ true)
        × (validate_pcm_frame frame ≡ ok tt)
  unfolding playout
  playout-valid deadline_expired r frame h =
      elim (Bool-cases (permits r.authorization Capability.desktop_view)) [
        | inr e ↦ absurd (ground (arith, e, h))
        | inl e ↦ (
          e,
          render-valid (pop deadline_expired r.jitter).1 r.codec_state frame (ground (arith, e, h)),
        )
      ]
