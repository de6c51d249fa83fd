-- ===== src/Desktop/Previews/RoundTrip.antt =====
-- The encoders of the preview headers of desktop/src/desktop.cpp against their decoders.
use lan_pilot.Common.{
  ℕ, ◌<◌, ◌^◌, List, ◌≡◌, ◌!=◌, arith, ok, refl, ◌↔◌, [], ◌∙◌, length, invalid_argument, ap,
}
use lan_pilot.Desktop.Wire.{put_u8, put_u16, IsBytes, put_u32, put_u64}
use lan_pilot.Desktop.Wire.Laws.{
  magic_step, u16_step, pass_step, u64_step, u32_step, end_step, lift_step, done_step, flag_lt,
  flag-high, flag-low,
}
use lan_pilot.Desktop.Previews.{
  encode_encoded_preview_frame_header, encode_preview_frame_header, PreviewFrameHeader,
  EncodedPreviewFrameHeader, decode_encoded_preview_frame_header, read_encoded_preview_frame_header,
  read_preview_frame_header, decode_preview_frame_header, validate_encoded_preview_header,
  validate_preview_header, encoded_preview_frame_header_bytes, preview_frame_header_bytes,
}
use lan_pilot.Desktop.Wire.Inverse.{
  magic_then, u16_then, pass_then, u64_then, u32_then, end_then, lift_then, done_then,
}
use lan_pilot.Desktop.Wire.Codec.{codec_iff}

-- The ranges of the field types.
pub record PreviewFrameHeaderFits (h : PreviewFrameHeader) : Type 0 where
  pub frame_id : h.frame_id < 2 ^ 64
  pub captured_at_us : h.captured_at_us < 2 ^ 64
  pub width : h.width < 2 ^ 32
  pub height : h.height < 2 ^ 32
  pub payload_size : h.payload_size < 2 ^ 32

preview_frame_header_read :
    (h : PreviewFrameHeader)
    → PreviewFrameHeaderFits h
    → validate_preview_header h ≡ ok tt
    → read_preview_frame_header (preview_frame_header_bytes h) ≡ ok (h, [])
unfolding read_preview_frame_header
preview_frame_header_read h f v =
    magic_step _ _ _
    ∙ u16_step _ 1 _ (omega arith)
    ∙ pass_step _ _ _ _ refl
    ∙ u16_step _ 0 _ (omega arith)
    ∙ pass_step _ _ _ _ refl
    ∙ u64_step _ _ _ f.frame_id
    ∙ u64_step _ _ _ f.captured_at_us
    ∙ u32_step _ _ _ f.width
    ∙ u32_step _ _ _ f.height
    ∙ u32_step _ _ _ f.payload_size
    ∙ end_step _
    ∙ lift_step _ _ _ (v)
    ∙ done_step _ _

preview_frame_header_written :
    (h : PreviewFrameHeader) (bs rest : List ℕ)
    → IsBytes bs
    → read_preview_frame_header bs ≡ ok (h, rest)
    → (validate_preview_header h ≡ ok tt) × (bs ≡ preview_frame_header_bytes h)
unfolding read_preview_frame_header
preview_frame_header_written h bs rest hb k = magic_then _ _ _ hb k λ r0 e0 b0 k0.
    u16_then _ _ b0 k0 λ v1 r1 l1 e1 b1 k1. pass_then _ _ _ _ k1 λ t1 m1.
      u16_then _ _ b1 m1 λ v2 r2 l2 e2 b2 k2. pass_then _ _ _ _ k2 λ t2 m2.
        u64_then _ _ b2 m2 λ v3 r3 l3 e3 b3 k3. u64_then _ _ b3 k3 λ v4 r4 l4 e4 b4 k4.
          u32_then _ _ b4 k4 λ v5 r5 l5 e5 b5 k5. u32_then _ _ b5 k5 λ v6 r6 l6 e6 b6 k6.
            u32_then _ _ b6 k6 λ v7 r7 l7 e7 b7 k7.
              end_then _ _ k7 λ e8 k8. lift_then _ _ _ k8 λ w9 k9. ground (arith, done_then _ _ k9)

-- For a header whose fields fit their types, encoding gives a byte string exactly when decoding
-- that byte string gives the header.
pub preview_frame_header_codec :
    (h : PreviewFrameHeader) (bs : List ℕ)
    → PreviewFrameHeaderFits h
    → IsBytes bs
    → (encode_preview_frame_header h ≡ ok bs) ↔ (decode_preview_frame_header bs ≡ ok h)
unfolding encode_preview_frame_header decode_preview_frame_header put_u8 put_u16 put_u32 put_u64
preview_frame_header_codec h bs f hb =
    codec_iff (validate_preview_header h) (λ b. length b != 36) invalid_argument
      (preview_frame_header_bytes h) (λ _. read_preview_frame_header) h bs (λ _. refl)
      (λ v. ([], preview_frame_header_read h f v))
      (λ rest _ q. preview_frame_header_written h bs rest hb q)

-- The ranges of the field types.
pub record EncodedPreviewFrameHeaderFits (h : EncodedPreviewFrameHeader) : Type 0 where
  pub frame_id : h.frame_id < 2 ^ 64
  pub captured_at_us : h.captured_at_us < 2 ^ 64
  pub width : h.width < 2 ^ 32
  pub height : h.height < 2 ^ 32
  pub payload_size : h.payload_size < 2 ^ 32

encoded_preview_frame_header_read :
    (h : EncodedPreviewFrameHeader)
    → EncodedPreviewFrameHeaderFits h
    → validate_encoded_preview_header h ≡ ok tt
    → read_encoded_preview_frame_header (encoded_preview_frame_header_bytes h) ≡ ok (h, [])
unfolding read_encoded_preview_frame_header
encoded_preview_frame_header_read h f v =
    magic_step _ _ _
    ∙ u16_step _ 1 _ (omega arith)
    ∙ pass_step _ _ _ _ refl
    ∙ u16_step _ _ _ (flag_lt h.keyframe)
    ∙ pass_step _ _ _ _ (flag-high h.keyframe)
    ∙ u64_step _ _ _ f.frame_id
    ∙ u64_step _ _ _ f.captured_at_us
    ∙ u32_step _ _ _ f.width
    ∙ u32_step _ _ _ f.height
    ∙ u32_step _ _ _ f.payload_size
    ∙ end_step _
    ∙ lift_step _ _ _ (rw (flag-low h.keyframe) v)
    ∙ done_step _ _
    ∙ ap (λ b. ok (record h { keyframe = b }, [])) (flag-low h.keyframe)

encoded_preview_frame_header_written :
    (h : EncodedPreviewFrameHeader) (bs rest : List ℕ)
    → IsBytes bs
    → read_encoded_preview_frame_header bs ≡ ok (h, rest)
    → (validate_encoded_preview_header h ≡ ok tt) × (bs ≡ encoded_preview_frame_header_bytes h)
unfolding read_encoded_preview_frame_header
encoded_preview_frame_header_written h bs rest hb k = magic_then _ _ _ hb k λ r0 e0 b0 k0.
    u16_then _ _ b0 k0 λ v1 r1 l1 e1 b1 k1. pass_then _ _ _ _ k1 λ t1 m1.
      u16_then _ _ b1 m1 λ v2 r2 l2 e2 b2 k2. pass_then _ _ _ _ k2 λ t3 m3.
        u64_then _ _ b2 m3 λ v4 r4 l4 e4 b4 k4. u64_then _ _ b4 k4 λ v5 r5 l5 e5 b5 k5.
          u32_then _ _ b5 k5 λ v6 r6 l6 e6 b6 k6. u32_then _ _ b6 k6 λ v7 r7 l7 e7 b7 k7.
            u32_then _ _ b7 k7 λ v8 r8 l8 e8 b8 k8.
              end_then _ _ k8
                λ e9 k9. lift_then _ _ _ k9 λ w10 k10. ground (arith, done_then _ _ k10)

-- For a header whose fields fit their types, encoding gives a byte string exactly when decoding
-- that byte string gives the header.
pub encoded_preview_frame_header_codec :
    (h : EncodedPreviewFrameHeader) (bs : List ℕ)
    → EncodedPreviewFrameHeaderFits h
    → IsBytes bs
    → (encode_encoded_preview_frame_header h ≡ ok bs)
      ↔ (decode_encoded_preview_frame_header bs ≡ ok h)
unfolding encode_encoded_preview_frame_header decode_encoded_preview_frame_header put_u8 put_u16
    put_u32 put_u64
encoded_preview_frame_header_codec h bs f hb =
    codec_iff (validate_encoded_preview_header h) (λ b. length b != 36) invalid_argument
      (encoded_preview_frame_header_bytes h) (λ _. read_encoded_preview_frame_header) h bs
      (λ _. refl) (λ v. ([], encoded_preview_frame_header_read h f v))
      (λ rest _ q. encoded_preview_frame_header_written h bs rest hb q)
