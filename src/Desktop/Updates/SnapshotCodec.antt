-- ===== src/Desktop/Updates/SnapshotCodec.antt =====
-- The encoder of the full-snapshot chunk of desktop/src/desktop.cpp against its decoder.
use lan_pilot.Common.{
  ℕ, ◌<◌, ◌≡◌, List, length, ok, ◌^◌, ltb, arith, ◌≤◌, ◌↔◌, ◌||◌, [], ◌+◌, false, ◌∙◌, ◌*◌,
  invalid_argument, length-append, discard-eq-ok, discard-ok, refl,
}
use lan_pilot.Desktop.Wire.{put_u32, IsBytes}
use lan_pilot.Desktop.Wire.Laws.{u32_step, bytes_step, end_step, lift_step, done_step}
use lan_pilot.Desktop.Updates.{
  VisualFullSnapshotChunk, validate_snapshot_chunk, encode_visual_full_snapshot_chunk,
  read_visual_full_snapshot_chunk, decode_visual_full_snapshot_chunk, snapshot_chunk_bytes,
}
use lan_pilot.Desktop.Wire.Inverse.{u32_then, bytes_then, end_then, lift_then, done_then}
use lan_pilot.Desktop.Limits.{maximum_snapshot_wire_chunk_bytes}
use lan_pilot.Desktop.Wire.Codec.{codec_iff}

-- The ranges of the field types.
pub record ChunkFits (h : VisualFullSnapshotChunk) : Type 0 where
  pub surface_width : h.surface_width < 2 ^ 32
  pub surface_height : h.surface_height < 2 ^ 32
  pub row_stride : h.row_stride < 2 ^ 32
  pub pixel_format : h.pixel_format < 2 ^ 32
  pub total_bytes : h.total_bytes < 2 ^ 32
  pub chunk_offset : h.chunk_offset < 2 ^ 32

-- What a chunk that passes the validation satisfies.
pub record ChunkShape (c : VisualFullSnapshotChunk) : Type 0 where
  pub nonempty : 0 < length c.chunk
  pub small : length c.chunk ≤ maximum_snapshot_wire_chunk_bytes
  pub inside : c.chunk_offset + length c.chunk ≤ c.total_bytes
  pub whole : c.total_bytes ≡ c.surface_width * 4 * c.surface_height
  pub stride : c.row_stride ≡ c.surface_width * 4

pub validate_snapshot_chunk-ChunkShape :
    (c : VisualFullSnapshotChunk) → validate_snapshot_chunk c ≡ ok tt → ChunkShape c
unfolding validate_snapshot_chunk
validate_snapshot_chunk-ChunkShape c v = ground arith

snapshot_chunk_read :
    (c : VisualFullSnapshotChunk)
    → ChunkFits c
    → validate_snapshot_chunk c ≡ ok tt
    → read_visual_full_snapshot_chunk (snapshot_chunk_bytes c) ≡ ok (c, [])
unfolding read_visual_full_snapshot_chunk
snapshot_chunk_read c f v =
    u32_step _ _ _ f.surface_width
    ∙ u32_step _ _ _ f.surface_height
    ∙ u32_step _ _ _ f.row_stride
    ∙ u32_step _ _ _ f.pixel_format
    ∙ u32_step _ _ _ f.total_bytes
    ∙ u32_step _ _ _ f.chunk_offset
    ∙ u32_step _ _ _ (omega (arith, (validate_snapshot_chunk-ChunkShape c v).small))
    ∙ bytes_step _ _ _ _ (refl)
    ∙ end_step _
    ∙ lift_step _ _ _ (discard-ok _ _ v)
    ∙ done_step _ _

snapshot_chunk_written :
    (c : VisualFullSnapshotChunk) (bs rest : List ℕ)
    → IsBytes bs
    → read_visual_full_snapshot_chunk bs ≡ ok (c, rest)
    → (validate_snapshot_chunk c ≡ ok tt) × (bs ≡ snapshot_chunk_bytes c)
unfolding read_visual_full_snapshot_chunk
snapshot_chunk_written c bs rest hb k = u32_then _ _ hb k λ v0 r0 l0 e0 b0 k0.
    u32_then _ _ b0 k0 λ v1 r1 l1 e1 b1 k1. u32_then _ _ b1 k1 λ v2 r2 l2 e2 b2 k2.
      u32_then _ _ b2 k2 λ v3 r3 l3 e3 b3 k3. u32_then _ _ b3 k3 λ v4 r4 l4 e4 b4 k4.
        u32_then _ _ b4 k4 λ v5 r5 l5 e5 b5 k5. u32_then _ _ b5 k5 λ v6 r6 l6 e6 b6 k6.
          bytes_then _ _ _ b6 k6 λ v7 r7 l7 c7 e7 b7 k7. end_then _ _ k7 λ e8 k8.
            lift_then _ _ _ k8 λ w9 k9.
              let y = done_then _ _ k9 in let z = discard-eq-ok _ _ w9 in ground (arith, y, z)

snapshot_chunk_sized :
    (c : VisualFullSnapshotChunk)
    → validate_snapshot_chunk c ≡ ok tt
    → (ltb (length (snapshot_chunk_bytes c)) 29
        || ltb (28 + maximum_snapshot_wire_chunk_bytes) (length (snapshot_chunk_bytes c)))
      ≡ false
unfolding put_u32
snapshot_chunk_sized c v =
    let s = validate_snapshot_chunk-ChunkShape c v in
    ground (arith, length-append c.chunk [], s.nonempty, s.small)

-- For a chunk whose fields fit their types, encoding gives a byte string exactly when decoding
-- that byte string gives the chunk.
pub snapshot_chunk_codec :
    (c : VisualFullSnapshotChunk) (bs : List ℕ)
    → ChunkFits c
    → IsBytes bs
    → (encode_visual_full_snapshot_chunk c ≡ ok bs) ↔ (decode_visual_full_snapshot_chunk bs ≡ ok c)
unfolding encode_visual_full_snapshot_chunk decode_visual_full_snapshot_chunk
snapshot_chunk_codec c bs f hb =
    codec_iff (validate_snapshot_chunk c)
      (λ b. ltb (length b) 29 || ltb (28 + maximum_snapshot_wire_chunk_bytes) (length b))
      invalid_argument (snapshot_chunk_bytes c) (λ _. read_visual_full_snapshot_chunk) c bs
      (snapshot_chunk_sized c) (λ v. ([], snapshot_chunk_read c f v))
      (λ rest _ q. snapshot_chunk_written c bs rest hb q)
