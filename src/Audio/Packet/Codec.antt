-- ===== src/Audio/Packet/Codec.antt =====
-- encode_packet against decode_packet of audio/src/audio.cpp.
use lan_pilot.Common.{
  ℕ, ok, false, [], refl, ◌<◌, List, ◌^◌, ◌≡◌, ltb, ◌⨾◌, length, ◌↔◌, Result-cases, ◌≤◌, ◌+◌, inl,
  arith, ◌∙◌, length_error, inr, length-append, subst, sym, ap,
}
use lan_pilot.Audio.Packet.{
  AudioPacket, read_packet, decode_packet, encode_packet, validate_packet, packet_bytes,
  maximum_audio_datagram_size,
}
use lan_pilot.Desktop.Wire.{put_u16, put_u32, IsBytes, put_u64, drop_rest}
use lan_pilot.Desktop.Wire.Codec.{codec_iff}
use lan_pilot.Desktop.Wire.Laws.{
  magic_step, u16_step, pass_step, u64_step, u32_step, bytes_step, end_step, lift_step, done_step,
}
use lan_pilot.Desktop.Wire.Inverse.{
  magic_then, u16_then, pass_then, u64_then, u32_then, bytes_then, end_then, lift_then, done_then,
}

-- The ranges of the field types.
pub record PacketFits (p : AudioPacket) : Type 0 where
  pub sequence : p.sequence < 2 ^ 64
  pub captured_at_us : p.captured_at_us < 2 ^ 64
  pub sample_rate : p.sample_rate < 2 ^ 32
  pub channels : p.channels < 2 ^ 16
  pub samples_per_channel : p.samples_per_channel < 2 ^ 16

opus_size :
    (p : AudioPacket) → validate_packet p ≡ ok tt → (length p.opus ≤ 1275) × (0 < length p.opus)
unfolding validate_packet
opus_size p v = (ground arith, ground arith)

length-packet_bytes : (p : AudioPacket) → length (packet_bytes p) ≡ 34 + length p.opus
unfolding put_u16 put_u32 put_u64
length-packet_bytes p = omega (arith, length-append p.opus [])

fits_datagram :
    (p : AudioPacket)
    → validate_packet p ≡ ok tt
    → ltb maximum_audio_datagram_size (length (packet_bytes p)) ≡ false
fits_datagram p v = ground (arith, opus_size p v, length-packet_bytes p)

pub encode_packet_lem :
    (p : AudioPacket) → encode_packet p ≡ (validate_packet p ⨾ ok (packet_bytes p))
unfolding encode_packet
encode_packet_lem p = elim (Result-cases (validate_packet p)) [
  | inl v ↦ rw (v, fits_datagram p v) refl
  | inr (x, v) ↦ rw v refl
]

packet_read :
    (p : AudioPacket)
    → PacketFits p
    → validate_packet p ≡ ok tt
    → read_packet (packet_bytes p) ≡ ok (p, [])
unfolding read_packet
packet_read p t v =
    magic_step _ _ _
    ∙ u16_step _ 1 _ (omega arith)
    ∙ pass_step _ _ _ _ refl
    ∙ u16_step _ 0 _ (omega arith)
    ∙ pass_step _ _ _ _ refl
    ∙ u64_step _ _ _ t.sequence
    ∙ u64_step _ _ _ t.captured_at_us
    ∙ u32_step _ _ _ t.sample_rate
    ∙ u16_step _ _ _ t.channels
    ∙ u16_step _ _ _ t.samples_per_channel
    ∙ u16_step _ _ _ (omega (arith, opus_size p v))
    ∙ pass_step _ _ _ _ (ground (arith, opus_size p v))
    ∙ bytes_step _ _ _ _ refl
    ∙ end_step _
    ∙ lift_step _ _ _ v
    ∙ done_step _ _

packet_written :
    (p : AudioPacket) (bs rest : List ℕ)
    → IsBytes bs
    → read_packet bs ≡ ok (p, rest)
    → (validate_packet p ≡ ok tt) × (bs ≡ packet_bytes p)
unfolding read_packet
packet_written p bs rest hb k = magic_then _ _ _ hb k λ r0 e0 b0 k0.
    u16_then _ _ b0 k0 λ v1 r1 l1 e1 b1 k1. pass_then _ _ _ _ k1 λ t1 m1.
      u16_then _ _ b1 m1 λ v2 r2 l2 e2 b2 k2. pass_then _ _ _ _ k2 λ t2 m2.
        u64_then _ _ b2 m2 λ v3 r3 l3 e3 b3 k3. u64_then _ _ b3 k3 λ v4 r4 l4 e4 b4 k4.
          u32_then _ _ b4 k4 λ v5 r5 l5 e5 b5 k5. u16_then _ _ b5 k5 λ v6 r6 l6 e6 b6 k6.
            u16_then _ _ b6 k6 λ v7 r7 l7 e7 b7 k7. u16_then _ _ b7 k7 λ v8 r8 l8 e8 b8 k8.
              pass_then _ _ _ _ k8 λ t8 m8. bytes_then _ _ _ b8 m8 λ v9 r9 l9 c9 e9 b9 k9.
                end_then _ _ k9 λ e10 k10.
                  lift_then _ _ _ k10 λ w11 k11. let y = done_then _ _ k11 in ground (arith, y)

-- For a packet whose fields fit their types, encoding gives a byte string exactly when decoding that
-- byte string gives the packet.
pub audio_packet_codec :
    (p : AudioPacket) (bs : List ℕ)
    → PacketFits p
    → IsBytes bs
    → (encode_packet p ≡ ok bs) ↔ (decode_packet bs ≡ ok p)
unfolding decode_packet
audio_packet_codec p bs t hb = rw (encode_packet_lem p) (
    codec_iff (validate_packet p) (λ b. ltb maximum_audio_datagram_size (length b)) length_error
      (packet_bytes p) (λ _. read_packet) p bs (fits_datagram p) (λ v. ([], packet_read p t v))
      (λ rest _ q. packet_written p bs rest hb q))

-- Decoding what was encoded needs no bytes to be bounded.
pub decode-encode_packet :
    (p : AudioPacket) {bs : List ℕ}
    → PacketFits p
    → encode_packet p ≡ ok bs
    → decode_packet bs ≡ ok p
unfolding decode_packet
decode-encode_packet p {bs} t h = elim (Result-cases (validate_packet p)) [
  | inl v ↦
      let e : bs ≡ packet_bytes p = ground (arith, v, h, encode_packet_lem p) in
      subst (λ (x : List ℕ). decode_packet x ≡ ok p) (sym e)
        (rw (fits_datagram p v) (ap drop_rest (packet_read p t v)))
  | inr (x, v) ↦ absurd (ground (arith, v, h, encode_packet_lem p))
]
