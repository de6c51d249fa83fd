-- ===== src/Desktop/Snapshot/Plan.antt =====
-- The ranges that SnapshotWireDrainPlan::take_burst gives, one burst and all of them.
use native.Mathlib.Nat.{div-mul-le_self}
use lan_pilot.Common.{
  ℕ, zero, suc, true, false, List, ◌≡◌, ◌∷◌, ◌<◌, Bool, ◌≤◌, ◌+◌, ◌^◌, [], arith, ◌==◌, min, ◌-◌,
  ◌%◌, ◌*◌, ◌/◌, ◌++◌, ◌∙◌, refl,
}
use lan_pilot.Desktop.Snapshot.{
  begin_plan, SnapshotWireDrainPlan, burst_loop, SnapshotWireRange, take_burst, no_plan,
  is_complete,
}
use lan_pilot.Desktop.Limits.{maximum_snapshot_total_bytes}

-- The ranges lead from `a` to `b` without a gap, none is empty or larger than a chunk, and exactly
-- the one that ends at `total` is final.
abbrev pub Tiles : ℕ → ℕ → ℕ → List SnapshotWireRange → ℕ → Type 0
Tiles total chunk a [] b = a ≡ b
Tiles total chunk a (r ∷ rs) b =
    (r.offset ≡ a)
    × (0 < r.size)
    × (r.size ≤ chunk)
    × (a + r.size ≤ total)
    × (r.final ≡ (a + r.size == total))
    × Tiles total chunk (a + r.size) rs b

abbrev pub sum_sizes : List SnapshotWireRange → ℕ
sum_sizes [] = 0
sum_sizes (r ∷ rs) = r.size + sum_sizes rs

pub record IsPlan (p : SnapshotWireDrainPlan) : Type 0 where
  pub active : p.active ≡ true
  pub chunky : 0 < p.chunk_bytes
  pub roomy : p.chunk_bytes ≤ p.burst_limit
  pub narrow : p.burst_limit < 2 ^ 32
  pub inside : p.next_offset ≤ p.total_bytes
  pub small : p.total_bytes ≤ maximum_snapshot_total_bytes

mul_pos : (a b : ℕ) → 0 < a → 0 < b → 0 < a * b
mul_pos a b h k = grind arith

-- A plan that begins is a plan.
pub begin_plan-IsPlan :
    (p : SnapshotWireDrainPlan) (source total stride chunk burst : ℕ)
    → p.next_offset ≡ 0
    → burst < 2 ^ 32
    → (begin_plan p source total stride chunk burst).1 ≡ true
    → let q = (begin_plan p source total stride chunk burst).0 in
      IsPlan q × (q.next_offset ≡ 0) × (q.total_bytes ≡ total) × (q.chunk_bytes ≤ chunk)
unfolding begin_plan
begin_plan-IsPlan p source total stride chunk burst z l e =
    ground (arith, div-mul-le_self chunk stride, mul_pos (chunk / stride) stride)

burst_loop-Tiles :
    (fuel total chunk burst next bytes : ℕ) (empty : Bool)
    → 0 < chunk
    → chunk ≤ burst
    → burst < 2 ^ 32
    → next ≤ total
    → total < 2 ^ 31
    → bytes ≤ burst
    → (empty ≡ true → bytes ≡ 0)
    → let (rs, next') = burst_loop fuel total chunk burst next bytes empty in
      Tiles total chunk next rs next' × (next' ≤ total) × (bytes + sum_sizes rs ≤ burst)
unfolding burst_loop
burst_loop-Tiles zero total chunk burst next bytes empty h1 h2 h3 h4 h5 h6 h7 = ground arith
burst_loop-Tiles (suc fuel) total chunk burst next bytes empty h1 h2 h3 h4 h5 h6 h7 =
    let size = min chunk (total - next) in
    ground (
      arith,
      burst_loop-Tiles fuel total chunk burst ((next + size) % 2 ^ 32) ((bytes + size) % 2 ^ 32)
          false h1 h2 h3,
    )

Tiles-le : (total chunk a b : ℕ) (rs : List SnapshotWireRange) → Tiles total chunk a rs b → a ≤ b
Tiles-le total chunk a b [] t = omega arith
Tiles-le total chunk a b (r ∷ rs) (o, p, s, i, f, t) =
    omega (arith, Tiles-le total chunk (a + r.size) b rs t)

pub Tiles-append :
    (total chunk a b c : ℕ) (rs qs : List SnapshotWireRange)
    → Tiles total chunk a rs b
    → Tiles total chunk b qs c
    → Tiles total chunk a (rs ++ qs) c
Tiles-append total chunk a b c [] qs t u = rw t u
Tiles-append total chunk a b c (r ∷ rs) qs (o, p, s, i, f, t) u =
    (o, p, s, i, f, Tiles-append total chunk (a + r.size) b c rs qs t u)

-- The loop ends by its own tests: when it stops short of the end, the next range would pass the
-- burst limit.
burst_loop-full :
    (fuel total chunk burst next bytes : ℕ) (empty : Bool)
    → 0 < chunk
    → chunk ≤ burst
    → burst < 2 ^ 32
    → next ≤ total
    → total < 2 ^ 31
    → bytes ≤ burst
    → (empty ≡ true → bytes ≡ 0)
    → total - next ≤ fuel
    → let (rs, next') = burst_loop fuel total chunk burst next bytes empty in
      next' < total → burst < bytes + sum_sizes rs + min chunk (total - next')
unfolding burst_loop
burst_loop-full zero total chunk burst next bytes empty h1 h2 h3 h4 h5 h6 h7 h8 = ground arith
burst_loop-full (suc fuel) total chunk burst next bytes empty h1 h2 h3 h4 h5 h6 h7 h8 =
    let size = min chunk (total - next) in
    ground (
      arith,
      burst_loop-full fuel total chunk burst ((next + size) % 2 ^ 32) ((bytes + size) % 2 ^ 32)
          false h1 h2 h3,
    )

burst_loop-moves :
    (fuel total chunk burst next : ℕ)
    → 0 < chunk
    → chunk ≤ burst
    → burst < 2 ^ 32
    → next < total
    → total < 2 ^ 31
    → 0 < fuel
    → next < (burst_loop fuel total chunk burst next 0 true).1
unfolding burst_loop
burst_loop-moves zero total chunk burst next h1 h2 h3 h4 h5 h6 = absurd (omega arith)
burst_loop-moves (suc fuel) total chunk burst next h1 h2 h3 h4 h5 h6 =
    let size = min chunk (total - next) in
    let next' = (next + size) % 2 ^ 32 in
    let rest = burst_loop fuel total chunk burst next' ((0 + size) % 2 ^ 32) false in
    ground (
      arith,
      burst_loop-Tiles fuel total chunk burst next' ((0 + size) % 2 ^ 32) false h1 h2 h3,
      Tiles-le total chunk next' rest.1 rest.0,
    )

-- One burst: it starts where the last one ended, stays within the burst limit and is as long as the
-- limit allows, moves on unless the snapshot is complete, and keeps the plan.
pub take_burst_lem :
    (p : SnapshotWireDrainPlan)
    → IsPlan p
    → let (q, rs) = take_burst p in
      IsPlan q
      × (q.total_bytes ≡ p.total_bytes)
      × (q.chunk_bytes ≡ p.chunk_bytes)
      × Tiles p.total_bytes p.chunk_bytes p.next_offset rs q.next_offset
      × (sum_sizes rs ≤ p.burst_limit)
      × (q.next_offset < q.total_bytes
          → p.burst_limit < sum_sizes rs + min p.chunk_bytes (p.total_bytes - q.next_offset))
      × (p.next_offset < p.total_bytes → p.next_offset < q.next_offset)
unfolding take_burst
take_burst_lem p v =
    let total = p.total_bytes in
    ground (
      arith,
      burst_loop-Tiles total total p.chunk_bytes p.burst_limit p.next_offset 0 true v.chunky v.roomy
          v.narrow v.inside,
      burst_loop-full total total p.chunk_bytes p.burst_limit p.next_offset 0 true v.chunky v.roomy
          v.narrow v.inside,
      burst_loop-moves total total p.chunk_bytes p.burst_limit p.next_offset v.chunky v.roomy
          v.narrow,
    )

-- `rounds` bursts in a row.
pub drain : ℕ → SnapshotWireDrainPlan → SnapshotWireDrainPlan × List SnapshotWireRange
drain zero p = (p, [])
drain (suc rounds) p = let (q, rs) = take_burst p in let (q', qs) = drain rounds q in (q', rs ++ qs)

drain_lem :
    (rounds : ℕ) (p : SnapshotWireDrainPlan)
    → IsPlan p
    → let (q, rs) = drain rounds p in
      IsPlan q
      × (q.total_bytes ≡ p.total_bytes)
      × Tiles p.total_bytes p.chunk_bytes p.next_offset rs q.next_offset
      × (p.total_bytes - p.next_offset ≤ rounds → q.next_offset ≡ p.total_bytes)
unfolding drain
drain_lem zero p v = (v, refl, refl, λ h. omega (arith, v.inside))
drain_lem (suc rounds) p v =
    let (w, e, c, t, _, _, moved) = take_burst_lem p v in
    let q = (take_burst p).0 in
    let (w', e', t', all) = drain_lem rounds q w in
    (
      w',
      e' ∙ e,
      Tiles-append p.total_bytes p.chunk_bytes p.next_offset q.next_offset _ (take_burst p).1 _ t
          (rw (e, c) at t'),
      λ h.
          let left : q.total_bytes - q.next_offset ≤ rounds = ground (
            arith,
            moved,
            e,
            w.inside,
            v.inside,
            Tiles-le p.total_bytes p.chunk_bytes p.next_offset q.next_offset (take_burst p).1 t,
          ) in
          all left ∙ e,
    )

-- A plan that has begun is drained by at most as many bursts as it has bytes, and all its ranges in
-- a row lead from the first byte to the last without a gap.
pub drain_all :
    (source total stride chunk burst rounds : ℕ)
    → burst < 2 ^ 32
    → (begin_plan no_plan source total stride chunk burst).1 ≡ true
    → total ≤ rounds
    → let (q, rs) = drain rounds (begin_plan no_plan source total stride chunk burst).0 in
      (is_complete q ≡ true)
      × Tiles total (begin_plan no_plan source total stride chunk burst).0.chunk_bytes 0 rs total
drain_all source total stride chunk burst rounds l e h =
    let p = (begin_plan no_plan source total stride chunk burst).0 in
    let (v, z, t, _) = begin_plan-IsPlan no_plan source total stride chunk burst refl l e in
    let (w, s, tiles, all) = drain_lem rounds p v in
    let full : (drain rounds p).0.next_offset ≡ p.total_bytes = all (omega (arith, t, z, h)) in
    (ground (arith, w.active, s, full), rw (full, z, t) at tiles)
