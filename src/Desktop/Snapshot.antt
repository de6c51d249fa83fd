-- ===== src/Desktop/Snapshot.antt =====
-- A full snapshot on the wire: SnapshotWireDrainPlan cuts it into ranges on the sending side, and
-- FullSnapshotAssemblyGuard admits its chunks on the receiving side.
pub mod Plan
pub mod Transfer
use lan_pilot.Common.{
  ℕ, zero, suc, true, false, none, some, Bool, ◌==◌, List, if◌then◌else◌, ◌||◌, [], ◌&&◌, ◌-◌, not,
  ◌*◌, min, ltb, leb, ◌!=◌, ◌+◌, ◌%◌, length, ◌^◌, ◌/◌, ◌∷◌, max,
}
use lan_pilot.Desktop.VisualMessageType
use lan_pilot.Desktop.Headers.{VisualMessageHeader}
use lan_pilot.Desktop.Updates.{VisualFrameCommit, VisualFullSnapshotChunk, bgra8_premultiplied_srgb}
use lan_pilot.Desktop.Limits.{
  maximum_snapshot_total_bytes, maximum_snapshot_wire_chunk_bytes, maximum_preview_width,
  maximum_preview_height,
}

pub record FullSnapshotAssemblyGuard : Type 0 where
  pub active : Bool
  pub session_generation : ℕ
  pub representation_epoch : ℕ
  pub frame_id : ℕ
  pub width : ℕ
  pub height : ℕ
  pub row_stride : ℕ
  pub total_bytes : ℕ
  pub next_offset : ℕ

-- `cancel` resets to this value.
abbrev pub no_assembly : FullSnapshotAssemblyGuard
no_assembly = record {
  active = false;
  session_generation = 0;
  representation_epoch = 0;
  frame_id = 0;
  width = 0;
  height = 0;
  row_stride = 0;
  total_bytes = 0;
  next_offset = 0;
}

-- The condition of `begin`. `expected_stride` and `expected_total` are std::uint64_t.
unfoldable pub refuses_first :
    FullSnapshotAssemblyGuard → VisualMessageHeader → VisualFullSnapshotChunk → Bool
refuses_first g header first =
    let expected_stride = first.surface_width * 4 in
    let expected_total = expected_stride * first.surface_height % 2 ^ 64 in
    g.active
    || header.type != VisualMessageType.full_snapshot
    || header.session_generation == 0
    || header.representation_epoch == 0
    || header.frame_id == 0
    || first.chunk_offset != 0
    || length first.chunk == 0
    || first.total_bytes == 0
    || ltb first.total_bytes (length first.chunk)
    || first.pixel_format != bgra8_premultiplied_srgb
    || first.surface_width == 0
    || first.surface_height == 0
    || ltb maximum_preview_width first.surface_width
    || ltb maximum_preview_height first.surface_height
    || expected_stride != first.row_stride
    || expected_total != first.total_bytes
    || ltb maximum_snapshot_total_bytes expected_total

unfoldable pub begin_assembly :
    FullSnapshotAssemblyGuard
    → VisualMessageHeader
    → VisualFullSnapshotChunk
    → FullSnapshotAssemblyGuard × Bool
begin_assembly g header first = if refuses_first g header first then (g, false) else (
  record {
    active = true;
    session_generation = header.session_generation;
    representation_epoch = header.representation_epoch;
    frame_id = header.frame_id;
    width = first.surface_width;
    height = first.surface_height;
    row_stride = first.row_stride;
    total_bytes = first.total_bytes;
    next_offset = length first.chunk % 2 ^ 32;
  },
  true,
)

unfoldable pub matches :
    FullSnapshotAssemblyGuard → VisualMessageHeader → VisualFullSnapshotChunk → Bool
matches g header chunk =
    g.active
    && header.type == VisualMessageType.full_snapshot
    && header.session_generation == g.session_generation
    && header.representation_epoch == g.representation_epoch
    && header.frame_id == g.frame_id
    && chunk.surface_width == g.width
    && chunk.surface_height == g.height
    && chunk.row_stride == g.row_stride
    && chunk.total_bytes == g.total_bytes

unfoldable pub accept_chunk :
    FullSnapshotAssemblyGuard
    → VisualMessageHeader
    → VisualFullSnapshotChunk
    → FullSnapshotAssemblyGuard × Bool
accept_chunk g header chunk =
    if not (matches g header chunk)
      || chunk.chunk_offset != g.next_offset
      || length chunk.chunk == 0
      || ltb g.total_bytes g.next_offset
      || ltb (g.total_bytes - g.next_offset) (length chunk.chunk)
    then (g, false)
    else (record g { next_offset = (g.next_offset + length chunk.chunk % 2 ^ 32) % 2 ^ 32 }, true)

unfoldable pub assembly_ready :
    FullSnapshotAssemblyGuard → VisualMessageHeader → VisualFrameCommit → Bool
assembly_ready g header commit =
    g.active
    && header.type == VisualMessageType.frame_commit
    && header.session_generation == g.session_generation
    && header.representation_epoch == g.representation_epoch
    && header.frame_id == g.frame_id
    && commit.base_frame_id == 0
    && g.next_offset == g.total_bytes

pub record SnapshotWireRange : Type 0 where
  pub offset : ℕ
  pub size : ℕ
  pub final : Bool

pub record SnapshotWireDrainPlan : Type 0 where
  pub active : Bool
  pub source_frame_id : ℕ
  pub latest_source_frame_id : ℕ
  pub superseded_sources : ℕ
  pub total_bytes : ℕ
  pub row_stride : ℕ
  pub chunk_bytes : ℕ
  pub burst_limit : ℕ
  pub next_offset : ℕ

-- `cancel` resets to this value.
abbrev pub no_plan : SnapshotWireDrainPlan
no_plan = record {
  active = false;
  source_frame_id = 0;
  latest_source_frame_id = 0;
  superseded_sources = 0;
  total_bytes = 0;
  row_stride = 0;
  chunk_bytes = 0;
  burst_limit = 0;
  next_offset = 0;
}

unfoldable pub begin_plan : SnapshotWireDrainPlan → ℕ → ℕ → ℕ → ℕ → ℕ → SnapshotWireDrainPlan × Bool
begin_plan p source_frame_id total_bytes row_stride chunk_limit burst_limit =
    if p.active
      || source_frame_id == 0
      || total_bytes == 0
      || ltb maximum_snapshot_total_bytes total_bytes
      || row_stride == 0
      || total_bytes % row_stride != 0
      || ltb chunk_limit row_stride
      || ltb maximum_snapshot_wire_chunk_bytes chunk_limit
      || ltb burst_limit row_stride
    then (p, false)
    else let rows_per_chunk = chunk_limit / row_stride in
      if rows_per_chunk == 0
      then (p, false)
      else let chunk_bytes = rows_per_chunk * row_stride % 2 ^ 32 in
        (
          record p {
            source_frame_id = source_frame_id;
            latest_source_frame_id = source_frame_id;
            total_bytes = total_bytes;
            row_stride = row_stride;
            chunk_bytes = chunk_bytes;
            burst_limit = max burst_limit chunk_bytes;
            active = true;
          },
          true,
        )

abbrev pub is_complete : SnapshotWireDrainPlan → Bool
is_complete p = p.active && p.next_offset == p.total_bytes

abbrev pub range_at : ℕ → ℕ → ℕ → SnapshotWireRange
range_at total next size = record { offset = next; size = size; final = size == total - next }

-- The loop of take_burst, with the members that it reads, over `next_offset_`, `burst_bytes` and
-- whether `result` is empty. It returns the ranges that are pushed and the last `next_offset_`.
burst_loop : ℕ → ℕ → ℕ → ℕ → ℕ → ℕ → Bool → List SnapshotWireRange × ℕ
burst_loop zero total chunk burst next bytes empty = ([], next)
burst_loop (suc fuel) total chunk burst next bytes empty =
    let size = min chunk (total - next) in
    let next' = (next + size) % 2 ^ 32 in
    let bytes' = (bytes + size) % 2 ^ 32 in
    let rest = burst_loop fuel total chunk burst next' bytes' false in
    if not (ltb next total)
    then ([], next)
    else if not empty && ltb ((burst + 2 ^ 32 - bytes) % 2 ^ 32) size
    then ([], next)
    else if leb burst bytes'
    then (range_at total next size ∷ [], next')
    else (range_at total next size ∷ rest.0, rest.1)

-- Every round moves `next_offset_` up, so `total_bytes_` rounds are enough.
unfoldable pub take_burst : SnapshotWireDrainPlan → SnapshotWireDrainPlan × List SnapshotWireRange
unfolding burst_loop
take_burst p =
    let done =
      burst_loop p.total_bytes p.total_bytes p.chunk_bytes p.burst_limit p.next_offset 0 true in
    if not p.active || is_complete p then (p, []) else (record p { next_offset = done.1 }, done.0)

unfoldable pub observe_latest_source : SnapshotWireDrainPlan → ℕ → SnapshotWireDrainPlan
observe_latest_source p frame_id =
    if not p.active || leb frame_id p.latest_source_frame_id then p else record p {
      latest_source_frame_id = frame_id;
      superseded_sources = (p.superseded_sources + 1) % 2 ^ 64;
    }
