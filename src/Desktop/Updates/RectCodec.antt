-- ===== src/Desktop/Updates/RectCodec.antt =====
-- The encoder of the raw rectangle of desktop/src/desktop.cpp against its decoder.
use lan_pilot.Common.{
  ℕ, ◌<◌, ◌≡◌, ◌+◌, List, ◌≤◌, length, ◌^◌, ok, ltb, arith, ◌-◌, [], ◌||◌, length-append, ◌↔◌,
  false, invalid_argument, ◌∙◌, refl, nil_of_length, discard-ok, ap, discard-eq-ok,
}
use lan_pilot.Desktop.Wire.{put_u32, put_u64, IsBytes}
use lan_pilot.Desktop.Wire.Laws.{u64_step, u32_step, bytes_step, lift_step, sizes, done_step}
use lan_pilot.Desktop.Updates.{
  encode_visual_raw_rect, validate_raw_rect, VisualRawRect, read_visual_raw_rect,
  decode_visual_raw_rect, raw_rect_bytes,
}
use lan_pilot.Desktop.Limits.{maximum_raw_rect_protocol_bytes}
use lan_pilot.Desktop.Wire.Inverse.{u64_then, u32_then, bytes_then, lift_then, done_then}
use lan_pilot.Desktop.Wire.Codec.{codec_iff}

-- The ranges of the field types.
pub record RectFits (h : VisualRawRect) : Type 0 where
  pub base_frame_id : h.base_frame_id < 2 ^ 64
  pub surface_width : h.surface_width < 2 ^ 32
  pub surface_height : h.surface_height < 2 ^ 32
  pub x : h.x < 2 ^ 32
  pub y : h.y < 2 ^ 32
  pub width : h.width < 2 ^ 32
  pub height : h.height < 2 ^ 32
  pub row_stride : h.row_stride < 2 ^ 32
  pub pixel_format : h.pixel_format < 2 ^ 32

-- What a rectangle that passes the validation satisfies: it lies in its surface, and its pixels are
-- packed.
pub record RectShape (r : VisualRawRect) : Type 0 where
  pub right : r.x + r.width ≤ r.surface_width
  pub bottom : r.y + r.height ≤ r.surface_height
  pub wide : 0 < r.width
  pub high : 0 < r.height
  pub some_pixels : 4 ≤ length r.bgra
  pub few_pixels : length r.bgra ≤ maximum_raw_rect_protocol_bytes
  pub based : 0 < r.base_frame_id
  pub surface_width : r.surface_width ≤ 7680
  pub surface_height : r.surface_height ≤ 4320

pub validate_raw_rect-RectShape : (r : VisualRawRect) → validate_raw_rect r ≡ ok tt → RectShape r
unfolding validate_raw_rect
validate_raw_rect-RectShape r v = ground arith

length-raw_rect_bytes : (r : VisualRawRect) → length (raw_rect_bytes r) ≡ 40 + length r.bgra
unfolding put_u32 put_u64
length-raw_rect_bytes r = omega (arith, length-append r.bgra [])

raw_rect_read :
    (r : VisualRawRect)
    → RectFits r
    → validate_raw_rect r ≡ ok tt
    → (size : ℕ) → size - 40 ≡ length r.bgra
    → read_visual_raw_rect size (raw_rect_bytes r) ≡ ok (r, [])
unfolding read_visual_raw_rect
raw_rect_read r f v size size_eq =
    u64_step _ _ _ f.base_frame_id
    ∙ u32_step _ _ _ f.surface_width
    ∙ u32_step _ _ _ f.surface_height
    ∙ u32_step _ _ _ f.x
    ∙ u32_step _ _ _ f.y
    ∙ u32_step _ _ _ f.width
    ∙ u32_step _ _ _ f.height
    ∙ u32_step _ _ _ f.row_stride
    ∙ u32_step _ _ _ f.pixel_format
    ∙ bytes_step _ _ _ _ (size_eq)
    ∙ lift_step _ _ _ (discard-ok _ _ v)
    ∙ done_step _ _

raw_rect_written :
    (r : VisualRawRect) (bs rest : List ℕ) (size : ℕ)
    → 40 ≤ size
    → length bs ≡ size
    → IsBytes bs
    → read_visual_raw_rect size bs ≡ ok (r, rest)
    → (validate_raw_rect r ≡ ok tt) × (bs ≡ raw_rect_bytes r)
unfolding read_visual_raw_rect
raw_rect_written r bs rest size hs hl hb k = u64_then _ _ hb k λ v0 r0 l0 e0 b0 k0.
    u32_then _ _ b0 k0 λ v1 r1 l1 e1 b1 k1. u32_then _ _ b1 k1 λ v2 r2 l2 e2 b2 k2.
      u32_then _ _ b2 k2 λ v3 r3 l3 e3 b3 k3. u32_then _ _ b3 k3 λ v4 r4 l4 e4 b4 k4.
        u32_then _ _ b4 k4 λ v5 r5 l5 e5 b5 k5. u32_then _ _ b5 k5 λ v6 r6 l6 e6 b6 k6.
          u32_then _ _ b6 k6 λ v7 r7 l7 e7 b7 k7. u32_then _ _ b7 k7 λ v8 r8 l8 e8 b8 k8.
            bytes_then _ _ _ b8 k8 λ v9 r9 l9 c9 e9 b9 k9. lift_then _ _ _ k9 λ w10 k10.
              let z = nil_of_length r9 (
                omega (
                  arith,
                  sizes,
                  ap length e0,
                  ap length e1,
                  ap length e2,
                  ap length e3,
                  ap length e4,
                  ap length e5,
                  ap length e6,
                  ap length e7,
                  ap length e8,
                  ap length e9,
                )) in
              let d = discard-eq-ok _ _ w10 in ground (arith, done_then _ _ k10, d, z)

raw_rect_sized :
    (r : VisualRawRect)
    → validate_raw_rect r ≡ ok tt
    → (ltb (length (raw_rect_bytes r)) 44
        || ltb (40 + maximum_raw_rect_protocol_bytes) (length (raw_rect_bytes r)))
      ≡ false
raw_rect_sized r v =
    let s = validate_raw_rect-RectShape r v in
    ground (arith, length-raw_rect_bytes r, s.some_pixels, s.few_pixels)

-- For a rectangle whose fields fit their types, encoding gives a byte string exactly when decoding
-- that byte string gives the rectangle.
pub raw_rect_codec :
    (r : VisualRawRect) (bs : List ℕ)
    → RectFits r
    → IsBytes bs
    → (encode_visual_raw_rect r ≡ ok bs) ↔ (decode_visual_raw_rect bs ≡ ok r)
unfolding encode_visual_raw_rect decode_visual_raw_rect
raw_rect_codec r bs f hb =
    codec_iff (validate_raw_rect r)
      (λ b. ltb (length b) 44 || ltb (40 + maximum_raw_rect_protocol_bytes) (length b))
      invalid_argument (raw_rect_bytes r) (λ b. read_visual_raw_rect (length b)) r bs
      (raw_rect_sized r)
      (λ v. (
        [],
        raw_rect_read r f v (length (raw_rect_bytes r)) (omega (arith, length-raw_rect_bytes r)),
      ))
      (λ rest g q. raw_rect_written r bs rest (length bs) (ground arith) refl hb q)
