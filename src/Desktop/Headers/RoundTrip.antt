-- ===== src/Desktop/Headers/RoundTrip.antt =====
-- The encoders of the visual message and reverse control headers of desktop/src/desktop.cpp against
-- their decoders.
use lan_pilot.Common.{
  ℕ, ◌<◌, ◌^◌, List, ◌≡◌, ◌!=◌, arith, ok, refl, ◌↔◌, [], ◌∙◌, length, invalid_argument,
}
use lan_pilot.Desktop.Wire.{put_u8, put_u16, IsBytes, put_u32, put_u64}
use lan_pilot.Desktop.Wire.Laws.{
  u8_step, magic_step, u16_step, pass_step, u64_step, u32_step, end_step, lift_step, done_step,
}
use lan_pilot.Desktop.Headers.{
  encode_reverse_control_header, VisualMessageHeader, encode_visual_message_header,
  ReverseControlHeader, decode_reverse_control_header, decode_visual_message_header,
  read_visual_message_header, read_reverse_control_header, validate_visual_header,
  validate_reverse_control_header, reverse_control_header_bytes, visual_message_header_bytes,
}
use lan_pilot.Desktop.Wire.Inverse.{
  magic_then, u16_then, pass_then, u64_then, u8_then, u32_then, end_then, lift_then, done_then,
}
use lan_pilot.Desktop.Wire.Codec.{codec_iff}

-- The ranges of the field types.
pub record VisualMessageHeaderFits (h : VisualMessageHeader) : Type 0 where
  pub type : h.type < 2 ^ 8
  pub flags : h.flags < 2 ^ 8
  pub payload_size : h.payload_size < 2 ^ 32
  pub session_generation : h.session_generation < 2 ^ 64
  pub representation_epoch : h.representation_epoch < 2 ^ 64
  pub visual_sequence : h.visual_sequence < 2 ^ 64
  pub frame_id : h.frame_id < 2 ^ 64
  pub captured_at_us : h.captured_at_us < 2 ^ 64

visual_message_header_read :
    (h : VisualMessageHeader)
    → VisualMessageHeaderFits h
    → validate_visual_header h ≡ ok tt
    → read_visual_message_header (visual_message_header_bytes h) ≡ ok (h, [])
unfolding read_visual_message_header
visual_message_header_read h f v =
    magic_step _ _ _
    ∙ u16_step _ 3 _ (omega arith)
    ∙ pass_step _ _ _ _ refl
    ∙ u8_step _ _ _ f.type
    ∙ u8_step _ _ _ f.flags
    ∙ u16_step _ 56 _ (omega arith)
    ∙ pass_step _ _ _ _ refl
    ∙ u16_step _ 0 _ (omega arith)
    ∙ pass_step _ _ _ _ refl
    ∙ u32_step _ _ _ f.payload_size
    ∙ u64_step _ _ _ f.session_generation
    ∙ u64_step _ _ _ f.representation_epoch
    ∙ u64_step _ _ _ f.visual_sequence
    ∙ u64_step _ _ _ f.frame_id
    ∙ u64_step _ _ _ f.captured_at_us
    ∙ end_step _
    ∙ lift_step _ _ _ (v)
    ∙ done_step _ _

visual_message_header_written :
    (h : VisualMessageHeader) (bs rest : List ℕ)
    → IsBytes bs
    → read_visual_message_header bs ≡ ok (h, rest)
    → (validate_visual_header h ≡ ok tt) × (bs ≡ visual_message_header_bytes h)
unfolding read_visual_message_header
visual_message_header_written h bs rest hb k = magic_then _ _ _ hb k λ r0 e0 b0 k0.
    u16_then _ _ b0 k0 λ v1 r1 l1 e1 b1 k1. pass_then _ _ _ _ k1 λ t1 m1.
      u8_then _ _ b1 m1 λ v2 r2 l2 e2 b2 k2. u8_then _ _ b2 k2 λ v3 r3 l3 e3 b3 k3.
        u16_then _ _ b3 k3 λ v4 r4 l4 e4 b4 k4. pass_then _ _ _ _ k4 λ t4 m4.
          u16_then _ _ b4 m4 λ v5 r5 l5 e5 b5 k5. pass_then _ _ _ _ k5 λ t5 m5.
            u32_then _ _ b5 m5 λ v6 r6 l6 e6 b6 k6. u64_then _ _ b6 k6 λ v7 r7 l7 e7 b7 k7.
              u64_then _ _ b7 k7 λ v8 r8 l8 e8 b8 k8. u64_then _ _ b8 k8 λ v9 r9 l9 e9 b9 k9.
                u64_then _ _ b9 k9 λ v10 r10 l10 e10 b10 k10.
                  u64_then _ _ b10 k10 λ v11 r11 l11 e11 b11 k11.
                    end_then _ _ k11
                      λ e12 k12. lift_then _ _ _ k12 λ w13 k13. ground (arith, done_then _ _ k13)

-- For a header whose fields fit their types, encoding gives a byte string exactly when decoding
-- that byte string gives the header.
pub visual_message_header_codec :
    (h : VisualMessageHeader) (bs : List ℕ)
    → VisualMessageHeaderFits h
    → IsBytes bs
    → (encode_visual_message_header h ≡ ok bs) ↔ (decode_visual_message_header bs ≡ ok h)
unfolding encode_visual_message_header decode_visual_message_header put_u8 put_u16 put_u32 put_u64
visual_message_header_codec h bs f hb =
    codec_iff (validate_visual_header h) (λ b. length b != 56) invalid_argument
      (visual_message_header_bytes h) (λ _. read_visual_message_header) h bs (λ _. refl)
      (λ v. ([], visual_message_header_read h f v))
      (λ rest _ q. visual_message_header_written h bs rest hb q)

-- The ranges of the field types.
pub record ReverseControlHeaderFits (h : ReverseControlHeader) : Type 0 where
  pub type : h.type < 2 ^ 8
  pub flags : h.flags < 2 ^ 8
  pub payload_size : h.payload_size < 2 ^ 32
  pub input_epoch : h.input_epoch < 2 ^ 64
  pub sequence : h.sequence < 2 ^ 64
  pub occurred_at_us : h.occurred_at_us < 2 ^ 64

reverse_control_header_read :
    (h : ReverseControlHeader)
    → ReverseControlHeaderFits h
    → validate_reverse_control_header h ≡ ok tt
    → read_reverse_control_header (reverse_control_header_bytes h) ≡ ok (h, [])
unfolding read_reverse_control_header
reverse_control_header_read h f v =
    magic_step _ _ _
    ∙ u16_step _ 2 _ (omega arith)
    ∙ pass_step _ _ _ _ refl
    ∙ u8_step _ _ _ f.type
    ∙ u8_step _ _ _ f.flags
    ∙ u32_step _ _ _ f.payload_size
    ∙ u64_step _ _ _ f.input_epoch
    ∙ u64_step _ _ _ f.sequence
    ∙ u64_step _ _ _ f.occurred_at_us
    ∙ u32_step _ 0 _ (omega arith)
    ∙ pass_step _ _ _ _ refl
    ∙ end_step _
    ∙ lift_step _ _ _ (v)
    ∙ done_step _ _

reverse_control_header_written :
    (h : ReverseControlHeader) (bs rest : List ℕ)
    → IsBytes bs
    → read_reverse_control_header bs ≡ ok (h, rest)
    → (validate_reverse_control_header h ≡ ok tt) × (bs ≡ reverse_control_header_bytes h)
unfolding read_reverse_control_header
reverse_control_header_written h bs rest hb k = magic_then _ _ _ hb k λ r0 e0 b0 k0.
    u16_then _ _ b0 k0 λ v1 r1 l1 e1 b1 k1. pass_then _ _ _ _ k1 λ t1 m1.
      u8_then _ _ b1 m1 λ v2 r2 l2 e2 b2 k2. u8_then _ _ b2 k2 λ v3 r3 l3 e3 b3 k3.
        u32_then _ _ b3 k3 λ v4 r4 l4 e4 b4 k4. u64_then _ _ b4 k4 λ v5 r5 l5 e5 b5 k5.
          u64_then _ _ b5 k5 λ v6 r6 l6 e6 b6 k6. u64_then _ _ b6 k6 λ v7 r7 l7 e7 b7 k7.
            u32_then _ _ b7 k7 λ v8 r8 l8 e8 b8 k8. pass_then _ _ _ _ k8 λ t8 m8.
              end_then _ _ m8
                λ e9 k9. lift_then _ _ _ k9 λ w10 k10. ground (arith, done_then _ _ k10)

-- For a header whose fields fit their types, encoding gives a byte string exactly when decoding
-- that byte string gives the header.
pub reverse_control_header_codec :
    (h : ReverseControlHeader) (bs : List ℕ)
    → ReverseControlHeaderFits h
    → IsBytes bs
    → (encode_reverse_control_header h ≡ ok bs) ↔ (decode_reverse_control_header bs ≡ ok h)
unfolding encode_reverse_control_header decode_reverse_control_header put_u8 put_u16 put_u32 put_u64
reverse_control_header_codec h bs f hb =
    codec_iff (validate_reverse_control_header h) (λ b. length b != 40) invalid_argument
      (reverse_control_header_bytes h) (λ _. read_reverse_control_header) h bs (λ _. refl)
      (λ v. ([], reverse_control_header_read h f v))
      (λ rest _ q. reverse_control_header_written h bs rest hb q)
