-- ===== src/Desktop/Updates/CommitCodec.antt =====
-- The encoder of the commit acknowledgement of desktop/src/desktop.cpp against its decoder.
use lan_pilot.Common.{
  ℕ, ok, [], length, ◌≡◌, List, Result, ◌<◌, ◌^◌, ◌+◌, ◌++◌, ◌↔◌, throw_if, ◌==◌, arith, ◌!=◌, ◌∙◌,
  length-append, invalid_argument, ◌||◌, sym, nil_of_length, discard-ok, ap, discard-eq-ok,
}
use lan_pilot.Desktop.Wire.{put_u64, IsBytes}
use lan_pilot.Desktop.Updates.{
  FrameCommitAck, encode_frame_commit_ack, decode_frame_commit_ack, read_frame_commit_ack,
}
use lan_pilot.Desktop.Wire.Codec.{codec_iff}
use lan_pilot.Desktop.Wire.Inverse.{u64_then, bytes_then, lift_then, done_then}
use lan_pilot.Desktop.Wire.Laws.{u64_step, bytes_step, sizes, lift_step, done_step}

-- The ranges of the field types.
pub record AckFits (h : FrameCommitAck) : Type 0 where
  pub session_generation : h.session_generation < 2 ^ 64
  pub representation_epoch : h.representation_epoch < 2 ^ 64
  pub frame_id : h.frame_id < 2 ^ 64
  pub digest : length h.canonical_sha256 ≡ 32

abbrev ack_check : FrameCommitAck → Result (Unit {0})
ack_check ack =
    throw_if (ack.session_generation == 0 || ack.representation_epoch == 0 || ack.frame_id == 0)
      invalid_argument

abbrev ack_bytes : FrameCommitAck → List ℕ
ack_bytes ack =
    put_u64 ack.session_generation
    ++ (put_u64 ack.representation_epoch ++ (put_u64 ack.frame_id ++ (ack.canonical_sha256 ++ [])))

ack_read :
    (h : FrameCommitAck)
    → AckFits h
    → ack_check h ≡ ok tt
    → read_frame_commit_ack (ack_bytes h) ≡ ok (h, [])
unfolding read_frame_commit_ack
ack_read h f v =
    u64_step _ _ _ f.session_generation
    ∙ u64_step _ _ _ f.representation_epoch
    ∙ u64_step _ _ _ f.frame_id
    ∙ bytes_step _ _ _ _ (sym f.digest)
    ∙ lift_step _ _ _ (discard-ok _ _ v)
    ∙ done_step _ _

ack_written :
    (h : FrameCommitAck) (bs rest : List ℕ)
    → length bs ≡ 56
    → IsBytes bs
    → read_frame_commit_ack bs ≡ ok (h, rest)
    → (ack_check h ≡ ok tt) × (bs ≡ ack_bytes h)
unfolding read_frame_commit_ack
ack_written h bs rest hl hb k = u64_then _ _ hb k λ v0 r0 l0 e0 b0 k0.
    u64_then _ _ b0 k0 λ v1 r1 l1 e1 b1 k1. u64_then _ _ b1 k1 λ v2 r2 l2 e2 b2 k2.
      bytes_then _ _ _ b2 k2 λ v3 r3 l3 c3 e3 b3 k3. lift_then _ _ _ k3 λ w4 k4.
        let z =
          nil_of_length r3
            (omega (arith, sizes, ap length e0, ap length e1, ap length e2, ap length e3)) in
        let d = discard-eq-ok _ _ w4 in ground (arith, done_then _ _ k4, d, z)

length-ack_bytes : (h : FrameCommitAck) → length (ack_bytes h) ≡ 24 + length h.canonical_sha256
unfolding put_u64
length-ack_bytes h = omega (arith, length-append h.canonical_sha256 [])

-- For an acknowledgement whose fields fit their types, encoding gives a byte string exactly when
-- decoding that byte string gives the acknowledgement.
pub frame_commit_ack_codec :
    (h : FrameCommitAck) (bs : List ℕ)
    → AckFits h
    → IsBytes bs
    → (encode_frame_commit_ack h ≡ ok bs) ↔ (decode_frame_commit_ack bs ≡ ok h)
unfolding encode_frame_commit_ack decode_frame_commit_ack
frame_commit_ack_codec h bs f hb =
    codec_iff (ack_check h) (λ b. length b != 56) invalid_argument (ack_bytes h)
      (λ _. read_frame_commit_ack) h bs (λ _. ground (arith, length-ack_bytes h, f.digest))
      (λ v. ([], ack_read h f v)) (λ rest g q. ack_written h bs rest (ground arith) hb q)
