-- ===== src/Desktop/Tests/Streams.antt =====
-- Runs of fragments, datagrams, snapshots, rectangles and texts.
use lan_pilot.Common.{
  ℕ, zero, suc, true, false, ok, inl, inr, [], ◌∷◌, refl, List, ◌<◌, replicate, ◌≡◌, arith, ◌↔◌,
  map, All,
}
use lan_pilot.Desktop.VisualMessageType
use lan_pilot.Desktop.Headers.{VisualMessageHeader}
use lan_pilot.Desktop.Fragment.{VideoFrame, validate_frame}
use lan_pilot.Desktop.Reassembly.{fresh}
use lan_pilot.Desktop.Snapshot.Transfer.{Carries, assemble, snapshot_transfer}
use lan_pilot.Desktop.Snapshot.Plan.{Tiles, IsPlan, begin_plan-IsPlan, drain, drain_all}
use lan_pilot.Desktop.Snapshot.{
  SnapshotWireDrainPlan, is_complete, begin_plan, SnapshotWireRange, no_plan, assembly_ready,
}
use lan_pilot.Desktop.Pacing.{validate_settings, VideoSettings, NetworkTelemetry}
use lan_pilot.Desktop.Updates.{VisualRawRect, VisualFullSnapshotChunk}
use lan_pilot.Desktop.Reassembly.Delivery.{received, Occurs, delivered}
use lan_pilot.Desktop.Utf8.{valid_utf8}
use lan_pilot.Desktop.Reassembly.Assembly.{piece, rebuilt}
use lan_pilot.Desktop.Utf8.Scalars.{Scalar, utf8_text, valid_utf8_iff}

-- A frame of two fragments.
abbrev frame : VideoFrame
frame = record {
  frame_id = 5;
  representation_epoch = 3;
  captured_at_us = 9;
  width = 64;
  height = 48;
  codec = 1;
  keyframe = true;
  encoded = replicate 1160 7;
}

frame_valid : validate_frame frame ≡ ok tt
unfolding validate_frame
frame_valid = refl

-- The second fragment, the first, and the second again.
abbrev order : List ℕ
order = 1 ∷ 0 ∷ 1 ∷ []

order-Occurs : (i : ℕ) → i < 2 → Occurs i order
order-Occurs zero h = inr (inl refl)
order-Occurs (suc zero) h = inl refl
order-Occurs (suc (suc i)) h = absurd (omega arith)

delivered_example : received fresh (map (piece frame) order) ≡ rebuilt frame ∷ []
delivered_example =
    delivered frame frame_valid fresh order refl (omega arith) refl
      (omega arith, (omega arith, (omega arith, tt))) order-Occurs

-- A surface of two by three pixels in rows of eight bytes.
abbrev plan : SnapshotWireDrainPlan
plan = (begin_plan no_plan 4 24 8 16 16).0

plan_begins : (begin_plan no_plan 4 24 8 16 16).1 ≡ true
unfolding begin_plan
plan_begins = refl

drain_all_example :
    (is_complete (drain 24 plan).0 ≡ true) × Tiles 24 plan.chunk_bytes 0 (drain 24 plan).1 24
drain_all_example = drain_all 4 24 8 16 16 24 (omega arith) plan_begins (omega arith)

plan-IsPlan : IsPlan plan
plan-IsPlan = (begin_plan-IsPlan no_plan 4 24 8 16 16 refl (omega arith) plan_begins).0

abbrev header : VisualMessageHeader
header = record {
  type = VisualMessageType.full_snapshot;
  flags = 0;
  payload_size = 44;
  session_generation = 1;
  representation_epoch = 2;
  visual_sequence = 3;
  frame_id = 4;
  captured_at_us = 9;
}

abbrev chunk_at : ℕ → ℕ → VisualFullSnapshotChunk
chunk_at offset size = record {
  surface_width = 2;
  surface_height = 3;
  row_stride = 8;
  pixel_format = 1;
  total_bytes = 24;
  chunk_offset = offset;
  chunk = replicate size 7;
}

abbrev ranges : List SnapshotWireRange
ranges =
    record { offset = 0; size = 16; final = false }
    ∷ record { offset = 16; size = 8; final = true }
    ∷ []

abbrev chunks : List VisualFullSnapshotChunk
chunks = chunk_at 0 16 ∷ chunk_at 16 8 ∷ []

ranges-Tiles : Tiles 24 16 0 ranges 24
ranges-Tiles = ground arith

chunks-Carries : Carries 2 3 24 ranges chunks
chunks-Carries = ground arith

snapshot_transfer_example :
    let (g, good) = assemble header chunks in
    (good ≡ true)
    × (assembly_ready g
          (record header { type = VisualMessageType.frame_commit })
          (record { base_frame_id = 0 })
        ≡ true)
snapshot_transfer_example =
    snapshot_transfer 2 3 24 16 ranges chunks header
      (record header { type = VisualMessageType.frame_commit })
      (record {
        wide = omega arith;
        high = omega arith;
        narrow = omega arith;
        low = omega arith;
        whole = refl;
      })
      (omega arith) ranges-Tiles chunks-Carries refl (omega arith) (omega arith) (omega arith) refl

abbrev rect_at : ℕ → VisualRawRect
rect_at x = record {
  base_frame_id = 3;
  surface_width = 4;
  surface_height = 4;
  x = x;
  y = 2;
  width = 1;
  height = 1;
  row_stride = 4;
  pixel_format = 1;
  bgra = replicate 4 7;
}

abbrev rect_header : VisualMessageHeader
rect_header = record header { type = VisualMessageType.raw_rect }

-- The third covers the first and is refused.
abbrev rects : List (VisualMessageHeader × VisualRawRect)
rects = (rect_header, rect_at 1) ∷ (rect_header, rect_at 2) ∷ (rect_header, rect_at 1) ∷ []

valid_utf8_iff_example :
    (valid_utf8 (195 ∷ 169 ∷ 33 ∷ []) ≡ true)
    ↔ ((cs : List ℕ) × All Scalar cs × ((195 ∷ 169 ∷ 33 ∷ []) ≡ utf8_text cs))
valid_utf8_iff_example = valid_utf8_iff (195 ∷ 169 ∷ 33 ∷ [])

abbrev frame_numbered : ℕ → VideoFrame
frame_numbered n = record frame { frame_id = n }

abbrev numbered : ℕ → VisualMessageHeader
numbered n = record header { visual_sequence = n }

abbrev sent : List VisualMessageHeader
sent = numbered 1 ∷ numbered 3 ∷ numbered 2 ∷ []

abbrev settings : VideoSettings
settings = record {
  width = 1920;
  height = 1080;
  frames_per_second = 60;
  bitrate_kbps = 12000;
  keyframe_interval = 60;
}

abbrev lossy_network : NetworkTelemetry
lossy_network = record { round_trip_ms = 10; loss_basis_points = 300; send_queue_ms = 1 }

settings_valid : validate_settings settings ≡ ok tt
unfolding validate_settings
settings_valid = refl

abbrev lowered : VideoSettings
lowered = record {
  width = 1920;
  height = 1080;
  frames_per_second = 45;
  bitrate_kbps = 9000;
  keyframe_interval = 45;
}
