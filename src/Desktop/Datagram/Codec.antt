-- ===== src/Desktop/Datagram/Codec.antt =====
-- encode_video_fragment against decode_video_fragment of desktop/src/desktop.cpp, and the size of a
-- datagram.
use lan_pilot.Common.{
  ℕ, ok, false, [], refl, List, ◌≡◌, ◌<◌, ltb, length, ◌⨾◌, ◌^◌, ◌↔◌, Result-cases, ◌≤◌, ◌+◌, ◌∙◌,
  arith, length_error, inl, inr, length-append, ap,
}
use lan_pilot.Desktop.Wire.{put_u64, IsBytes, put_u8, put_u16, put_u32}
use lan_pilot.Desktop.Fragment.{
  VideoFragment, validate_fragment, VideoFrame, validate_frame, fragment_total, fragment_at,
}
use lan_pilot.Desktop.Datagram.{
  encode_video_fragment, decode_video_fragment, read_video_fragment, video_fragment_bytes,
}
use lan_pilot.Desktop.Wire.Codec.{codec_iff}
use lan_pilot.Desktop.Wire.Inverse.{
  magic_then, u16_then, pass_then, u8_then, u64_then, u32_then, bytes_then, end_then, lift_then,
  done_then,
}
use lan_pilot.Desktop.Wire.Laws.{
  magic_step, u16_step, pass_step, u8_step, flag_lt, flag-high, u64_step, u32_step, bytes_step,
  end_step, lift_step, flag-low, done_step,
}
use lan_pilot.Desktop.Limits.{maximum_media_datagram_size, maximum_video_payload}
use lan_pilot.Desktop.Fragment.Split.{validate-fragment_at}

-- The ranges of the field types.
pub record FragmentFits (f : VideoFragment) : Type 0 where
  pub frame_id : f.frame_id < 2 ^ 64
  pub captured_at_us : f.captured_at_us < 2 ^ 64
  pub width : f.width < 2 ^ 32
  pub height : f.height < 2 ^ 32
  pub codec : f.codec < 2 ^ 8
  pub fragment_index : f.fragment_index < 2 ^ 16
  pub fragment_count : f.fragment_count < 2 ^ 16
  pub total_size : f.total_size < 2 ^ 32

payload_small :
    (f : VideoFragment) → validate_fragment f ≡ ok tt → length f.payload ≤ maximum_video_payload
unfolding validate_fragment
payload_small f v = ground arith

length-video_fragment_bytes :
    (f : VideoFragment) → length (video_fragment_bytes f) ≡ 42 + length f.payload
unfolding put_u8 put_u16 put_u32 put_u64
length-video_fragment_bytes f = omega (arith, length-append f.payload [])

fits_datagram :
    (f : VideoFragment)
    → validate_fragment f ≡ ok tt
    → ltb maximum_media_datagram_size (length (video_fragment_bytes f)) ≡ false
fits_datagram f v = ground (arith, payload_small f v, length-video_fragment_bytes f)

encode_lem :
    (f : VideoFragment)
    → encode_video_fragment f ≡ (validate_fragment f ⨾ ok (video_fragment_bytes f))
unfolding encode_video_fragment
encode_lem f = elim (Result-cases (validate_fragment f)) [
  | inl v ↦ rw (v, fits_datagram f v) refl
  | inr (x, v) ↦ rw v refl
]

video_fragment_read :
    (f : VideoFragment)
    → FragmentFits f
    → validate_fragment f ≡ ok tt
    → read_video_fragment (video_fragment_bytes f) ≡ ok (f, [])
unfolding read_video_fragment
video_fragment_read f t v =
    magic_step _ _ _
    ∙ u16_step _ 1 _ (omega arith)
    ∙ pass_step _ _ _ _ refl
    ∙ u8_step _ _ _ t.codec
    ∙ u8_step _ _ _ (ground (arith, flag_lt f.keyframe))
    ∙ pass_step _ _ _ _ (flag-high f.keyframe)
    ∙ u64_step _ _ _ t.frame_id
    ∙ u64_step _ _ _ t.captured_at_us
    ∙ u32_step _ _ _ t.width
    ∙ u32_step _ _ _ t.height
    ∙ u16_step _ _ _ t.fragment_index
    ∙ u16_step _ _ _ t.fragment_count
    ∙ u32_step _ _ _ t.total_size
    ∙ u16_step _ _ _ (omega (arith, payload_small f v))
    ∙ bytes_step _ _ _ _ refl
    ∙ end_step _
    ∙ lift_step _ _ _ (rw (flag-low f.keyframe) v)
    ∙ done_step _ _
    ∙ ap (λ b. ok (record f { keyframe = b }, [])) (flag-low f.keyframe)

video_fragment_written :
    (f : VideoFragment) (bs rest : List ℕ)
    → IsBytes bs
    → read_video_fragment bs ≡ ok (f, rest)
    → (validate_fragment f ≡ ok tt) × (bs ≡ video_fragment_bytes f)
unfolding read_video_fragment
video_fragment_written f bs rest hb k = magic_then _ _ _ hb k λ r0 e0 b0 k0.
    u16_then _ _ b0 k0 λ v1 r1 l1 e1 b1 k1. pass_then _ _ _ _ k1 λ t1 m1.
      u8_then _ _ b1 m1 λ v2 r2 l2 e2 b2 k2. u8_then _ _ b2 k2 λ v3 r3 l3 e3 b3 k3.
        pass_then _ _ _ _ k3 λ t3 m3. u64_then _ _ b3 m3 λ v4 r4 l4 e4 b4 k4.
          u64_then _ _ b4 k4 λ v5 r5 l5 e5 b5 k5. u32_then _ _ b5 k5 λ v6 r6 l6 e6 b6 k6.
            u32_then _ _ b6 k6 λ v7 r7 l7 e7 b7 k7. u16_then _ _ b7 k7 λ v8 r8 l8 e8 b8 k8.
              u16_then _ _ b8 k8 λ v9 r9 l9 e9 b9 k9. u32_then _ _ b9 k9 λ v10 r10 l10 e10 b10 k10.
                u16_then _ _ b10 k10 λ v11 r11 l11 e11 b11 k11.
                  bytes_then _ _ _ b11 k11 λ v12 r12 l12 c12 e12 b12 k12.
                    end_then _ _ k12 λ e13 k13.
                      lift_then _ _ _ k13 λ w14 k14. let y = done_then _ _ k14 in ground (arith, y)

-- For a fragment whose fields fit their types, encoding gives a byte string exactly when decoding
-- that byte string gives the fragment.
pub video_fragment_codec :
    (f : VideoFragment) (bs : List ℕ)
    → FragmentFits f
    → IsBytes bs
    → (encode_video_fragment f ≡ ok bs) ↔ (decode_video_fragment bs ≡ ok f)
unfolding decode_video_fragment
video_fragment_codec f bs t hb = rw (encode_lem f) (
    codec_iff (validate_fragment f) (λ b. ltb maximum_media_datagram_size (length b)) length_error
      (video_fragment_bytes f) (λ _. read_video_fragment) f bs (fits_datagram f)
      (λ v. ([], video_fragment_read f t v)) (λ rest _ q. video_fragment_written f bs rest hb q))

-- Every fragment that fragment_frame makes of a frame it accepts is encoded, never refused, and its
-- datagram is at most 1200 bytes.
pub fragment_datagram :
    (frame : VideoFrame) (j : ℕ)
    → validate_frame frame ≡ ok tt
    → j < fragment_total frame
    → (bs : List ℕ) × (encode_video_fragment (fragment_at frame (fragment_total frame) j) ≡ ok bs)
      × (length bs ≤ maximum_media_datagram_size)
fragment_datagram frame j v h =
    let f = fragment_at frame (fragment_total frame) j in
    let valid = validate-fragment_at frame j v h in
    (
      video_fragment_bytes f,
      encode_lem f ∙ rw valid refl,
      omega (arith, payload_small f valid, length-video_fragment_bytes f),
    )
