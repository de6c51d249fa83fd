-- ===== src/Desktop/Snapshot/Transfer.antt =====
-- The drain plan and the assembly guard together: the chunks that carry the ranges of a plan, as the
-- guard receives them.
use lan_pilot.Common.{
  [], ◌∷◌, if◌then◌else◌, ℕ, true, false, List, ◌<◌, ◌≡◌, ◌≤◌, Bool, ◌*◌, ◌^◌, ◌∷◌, ◌+◌, arith,
  length, sym, refl,
}
use lan_pilot.Desktop.VisualMessageType
use lan_pilot.Desktop.Headers.{VisualMessageHeader}
use lan_pilot.Desktop.Snapshot.{
  begin_assembly, accept_chunk, FullSnapshotAssemblyGuard, matches, SnapshotWireRange, no_assembly,
  assembly_ready, refuses_first,
}
use lan_pilot.Desktop.Updates.{VisualFullSnapshotChunk, bgra8_premultiplied_srgb}
use lan_pilot.Desktop.Limits.{
  maximum_snapshot_total_bytes, maximum_preview_width, maximum_preview_height,
}
use lan_pilot.Desktop.Snapshot.Plan.{Tiles}

-- A surface that the guard can assemble.
pub record Surface (w h total : ℕ) : Type 0 where
  pub wide : 0 < w
  pub high : 0 < h
  pub narrow : w ≤ maximum_preview_width
  pub low : h ≤ maximum_preview_height
  pub whole : total ≡ w * 4 * h

-- The chunks carry the ranges, one each, and describe the surface.
abbrev pub Carries : ℕ → ℕ → ℕ → List SnapshotWireRange → List VisualFullSnapshotChunk → Type 0
Carries w h total [] [] = Unit {0}
Carries w h total [] (c ∷ cs) = ⊥
Carries w h total (r ∷ rs) [] = ⊥
Carries w h total (r ∷ rs) (c ∷ cs) =
    (c.chunk_offset ≡ r.offset)
    × (length c.chunk ≡ r.size)
    × (c.surface_width ≡ w)
    × (c.surface_height ≡ h)
    × (c.row_stride ≡ w * 4)
    × (c.total_bytes ≡ total)
    × (c.pixel_format ≡ bgra8_premultiplied_srgb)
    × Carries w h total rs cs

-- The receiver's loop: the first chunk begins the assembly, and a refusal ends it.
pub accept_all :
    FullSnapshotAssemblyGuard
    → VisualMessageHeader
    → List VisualFullSnapshotChunk
    → FullSnapshotAssemblyGuard × Bool
accept_all g header [] = (g, true)
accept_all g header (c ∷ cs) =
    let step = accept_chunk g header c in
    let rest = accept_all step.0 header cs in if step.1 then rest else step

pub assemble : VisualMessageHeader → List VisualFullSnapshotChunk → FullSnapshotAssemblyGuard × Bool
unfolding accept_all
assemble header [] = (no_assembly, false)
assemble header (c ∷ cs) =
    let step = begin_assembly no_assembly header c in
    let rest = accept_all step.0 header cs in if step.1 then rest else step

-- The guard waits for the bytes from `next` on, of this header's frame.
pub record Waits (w h total next : ℕ) (header : VisualMessageHeader) (g : FullSnapshotAssemblyGuard)
    : Type 0 where
  pub active : g.active ≡ true
  pub session_generation : g.session_generation ≡ header.session_generation
  pub representation_epoch : g.representation_epoch ≡ header.representation_epoch
  pub frame_id : g.frame_id ≡ header.frame_id
  pub width : g.width ≡ w
  pub height : g.height ≡ h
  pub row_stride : g.row_stride ≡ w * 4
  pub total_bytes : g.total_bytes ≡ total
  pub next_offset : g.next_offset ≡ next

accept_chunk-Waits :
    (w h total next : ℕ) (header : VisualMessageHeader) (g : FullSnapshotAssemblyGuard)
    (r : SnapshotWireRange) (c : VisualFullSnapshotChunk) (rs : List SnapshotWireRange)
    (cs : List VisualFullSnapshotChunk) (chunk end : ℕ)
    → header.type ≡ VisualMessageType.full_snapshot
    → total < 2 ^ 32
    → Waits w h total next header g
    → Tiles total chunk next (r ∷ rs) end
    → Carries w h total (r ∷ rs) (c ∷ cs)
    → ((accept_chunk g header c).1 ≡ true)
      × Waits w h total (next + r.size) header (accept_chunk g header c).0
unfolding accept_chunk matches
accept_chunk-Waits w h total next header g r c rs cs chunk end ty small a t k = ground arith

accept_all-Waits :
    (w h total next : ℕ) (header : VisualMessageHeader) (g : FullSnapshotAssemblyGuard)
    (rs : List SnapshotWireRange) (cs : List VisualFullSnapshotChunk) (chunk end : ℕ)
    → header.type ≡ VisualMessageType.full_snapshot
    → total < 2 ^ 32
    → Waits w h total next header g
    → Tiles total chunk next rs end
    → Carries w h total rs cs
    → ((accept_all g header cs).1 ≡ true) × Waits w h total end header (accept_all g header cs).0
unfolding accept_all
accept_all-Waits w h total next header g [] [] chunk end ty small a t k = (refl, rw t at a)
accept_all-Waits w h total next header g [] (c ∷ cs) chunk end ty small a t k = absurd k
accept_all-Waits w h total next header g (r ∷ rs) [] chunk end ty small a t k = absurd k
accept_all-Waits w h total next header g (r ∷ rs) (c ∷ cs) chunk end ty small a t k =
    let (good, a') =
      accept_chunk-Waits w h total next header g r c rs cs chunk end ty small a t k in
    rw good (
      accept_all-Waits w h total (next + r.size) header (accept_chunk g header c).0 rs cs chunk end
        ty small a' t.5 k.7)

module _ (w h total : ℕ) (header : VisualMessageHeader) (r : SnapshotWireRange)
    (c : VisualFullSnapshotChunk) (rs : List SnapshotWireRange) (cs : List VisualFullSnapshotChunk)
    (chunk end : ℕ) (ty : header.type ≡ VisualMessageType.full_snapshot)
    (p : 0 < header.session_generation) (q : 0 < header.representation_epoch)
    (z : 0 < header.frame_id) (s : Surface w h total) (small : total ≤ maximum_snapshot_total_bytes)
    (t : Tiles total chunk 0 (r ∷ rs) end) (k : Carries w h total (r ∷ rs) (c ∷ cs)) where
  first_admitted : refuses_first no_assembly header c ≡ false
  unfolding refuses_first
  first_admitted =
      let area : c.surface_width * 4 * c.surface_height ≡ total = rw (k.2, k.3) (sym s.whole) in
      let (offset_eq, size_eq, w_eq, h_eq, stride_eq, total_eq, format_eq, rest) = k in
      let (o, pos, le, inside, f, tiles) = t in ground (arith, area)

  begin_assembly-Waits :
      ((begin_assembly no_assembly header c).1 ≡ true)
      × Waits w h total (0 + r.size) header (begin_assembly no_assembly header c).0
  unfolding begin_assembly
  begin_assembly-Waits = rw first_admitted (
    refl,
    record {
      active = refl;
      session_generation = refl;
      representation_epoch = refl;
      frame_id = refl;
      width = k.2;
      height = k.3;
      row_stride = k.4;
      total_bytes = k.5;
      next_offset = omega (arith, k.1, t.3);
    },
  )

mul_pos : (a b : ℕ) → 0 < a → 0 < b → 0 < a * 4 * b
mul_pos a b h k = grind arith

-- A snapshot of a surface that is drained by any plan and carried chunk by chunk is assembled without
-- a refusal, and the guard is then ready for the commit message of that frame.
pub snapshot_transfer :
    (w h total chunk : ℕ) (rs : List SnapshotWireRange) (cs : List VisualFullSnapshotChunk)
    (header commit : VisualMessageHeader)
    → Surface w h total
    → total ≤ maximum_snapshot_total_bytes
    → Tiles total chunk 0 rs total
    → Carries w h total rs cs
    → header.type ≡ VisualMessageType.full_snapshot
    → 0 < header.session_generation
    → 0 < header.representation_epoch
    → 0 < header.frame_id
    → commit ≡ record header { type = VisualMessageType.frame_commit }
    → let (g, good) = assemble header cs in
      (good ≡ true) × (assembly_ready g commit (record { base_frame_id = 0 }) ≡ true)
unfolding assemble assembly_ready
snapshot_transfer w h total chunk [] cs header commit s small t k ty p q z e =
    absurd (omega (arith, mul_pos w h s.wide s.high, s.whole))
snapshot_transfer w h total chunk (r ∷ rs) [] header commit s small t k ty p q z e = absurd k
snapshot_transfer w h total chunk (r ∷ rs) (c ∷ cs) header commit s small t k ty p q z e =
    let (good, a) =
      begin_assembly-Waits w h total header r c rs cs chunk total ty p q z s small t k in
    let (all, b) =
      accept_all-Waits w h total (0 + r.size) header (begin_assembly no_assembly header c).0 rs cs
        chunk total ty (omega arith) a t.5 k.7 in
    rw good (all, ground (arith, e, b))
