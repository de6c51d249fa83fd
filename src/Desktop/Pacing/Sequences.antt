-- ===== src/Desktop/Pacing/Sequences.antt =====
-- VisualSequenceTracker::receive on the messages of a generation, and LatestFrameQueue under pushes.
use lan_pilot.Common.{
  ℕ, true, false, some, refl, [], ◌∷◌, if◌then◌else◌, ◌<◌, Bool, List, ◌==◌, ◌≡◌, ◌⊎◌, ◌^◌, All,
  ◌≤◌, ◌+◌, Bool-cases, ◌%◌, arith, length, inl, inr,
}
use lan_pilot.Desktop.Headers.{VisualMessageHeader}
use lan_pilot.Desktop.Fragment.{VideoFrame}
use lan_pilot.Desktop.Pacing.{
  gap, VisualSequenceTracker, VisualSequenceResult, receive_sequence, LatestFrameQueue, push,
  take_frame, empty_queue,
}

abbrev pub is_gap : VisualSequenceResult → Bool
is_gap gap = true
is_gap _ = false

-- The sequence numbers that are not reported as a gap.
abbrev pub let_through : VisualSequenceTracker → List VisualMessageHeader → List ℕ
let_through t [] = []
let_through t (h ∷ hs) =
    let (t', r) = receive_sequence t h in
    let rest = let_through t' hs in if is_gap r then rest else h.visual_sequence ∷ rest

abbrev pub Counts : ℕ → List ℕ → Type 0
Counts n [] = Unit {0}
Counts n (x ∷ xs) = (x ≡ n + 1) × Counts x xs

-- The last sequence number seen in the generation.
abbrev pub last_in : VisualSequenceTracker → ℕ → ℕ
last_in t generation = if t.generation == generation then t.last_sequence else 0

abbrev pub Numbered : ℕ → VisualMessageHeader → Type 0
Numbered generation h =
    (h.session_generation ≡ generation) × (0 < h.visual_sequence) × (h.visual_sequence < 2 ^ 64)

receive_sequence_lem :
    (t : VisualSequenceTracker) (h : VisualMessageHeader) (generation : ℕ)
    → 0 < generation
    → Numbered generation h
    → t.last_sequence < 2 ^ 64
    → let (t', r) = receive_sequence t h in
      (t'.last_sequence < 2 ^ 64)
      × (is_gap r ≡ true → last_in t' generation ≡ last_in t generation)
      × (is_gap r ≡ false
          → (h.visual_sequence ≡ last_in t generation + 1)
            × (last_in t' generation ≡ h.visual_sequence))
unfolding receive_sequence
receive_sequence_lem t h generation z n l = ground arith

-- Of the messages of one session generation, those that the tracker lets through are numbered
-- without a gap or a repetition, from where the generation stands, or from 1 if it is new.
pub let_through-Counts :
    (t : VisualSequenceTracker) (generation : ℕ) (hs : List VisualMessageHeader)
    → 0 < generation
    → t.last_sequence < 2 ^ 64
    → All (Numbered generation) hs
    → Counts (last_in t generation) (let_through t hs)
let_through-Counts t generation [] z l a = tt
let_through-Counts t generation (h ∷ hs) z l a =
    let (t', r) = receive_sequence t h in
    let (l', same, next) = receive_sequence_lem t h generation z a.0 l in
    let rest = let_through-Counts t' generation hs z l' a.1 in
    elim (Bool-cases (is_gap r)) [
      | inl lost ↦ rw lost (rw (same lost) at rest)
      | inr good ↦ let (e, f) = next good in rw good (e, rw f at rest)
    ]

abbrev pub push_all : LatestFrameQueue → List VideoFrame → LatestFrameQueue
push_all q [] = q
push_all q (f ∷ fs) = push_all (push q f) fs

abbrev pub AtMost : ℕ → List VideoFrame → Type 0
AtMost n = All λ f. f.frame_id ≤ n

abbrev pub Among : VideoFrame → List VideoFrame → Type 0
Among f [] = ⊥
Among f (g ∷ gs) = (f ≡ g) ⊎ Among f gs

-- The newest of the frames pushed, the pending one included, and how many frames it stands for.
pub record Keeps (q : LatestFrameQueue) (fs : List VideoFrame) (old kept : VideoFrame)
    : Type 0 where
  pub newest : (old.frame_id ≤ kept.frame_id) × AtMost kept.frame_id fs
  pub pushed : (kept ≡ old) ⊎ Among kept fs
  pub pending : (push_all q fs).pending ≡ some kept
  pub dropped : (push_all q fs).dropped_frames ≡ (q.dropped_frames + length fs) % 2 ^ 64

push-cases :
    (q : LatestFrameQueue) (f old : VideoFrame)
    → q.pending ≡ some old
    → let q' = push q f in
      (q'.dropped_frames ≡ (q.dropped_frames + 1) % 2 ^ 64)
      × (((q'.pending ≡ some old) × (f.frame_id ≤ old.frame_id))
          ⊎ ((q'.pending ≡ some f) × (old.frame_id ≤ f.frame_id)))
unfolding push
push-cases q f old e = ground arith

push_all-Keeps :
    (q : LatestFrameQueue) (fs : List VideoFrame) (old : VideoFrame)
    → q.pending ≡ some old
    → q.dropped_frames < 2 ^ 64
    → (kept : VideoFrame) × Keeps q fs old kept
push_all-Keeps q [] old e l = (
  old,
  record { newest = (omega arith, tt); pushed = inl refl; pending = e; dropped = omega arith },
)
push_all-Keeps q (f ∷ fs) old e l =
    let (d, c) = push-cases q f old e in
    elim c [
      | inl (same, older) ↦
          let (kept, k) = push_all-Keeps (push q f) fs old same (omega (arith, d)) in
          (
            kept,
            record {
              newest = (k.newest.0, (omega (arith, k.newest.0), k.newest.1));
              pushed = elim k.pushed [ inl x ↦ inl x | inr y ↦ inr (inr y) ];
              pending = k.pending;
              dropped = omega (arith, k.dropped, d);
            },
          )
      | inr (new, newer) ↦
          let (kept, k) = push_all-Keeps (push q f) fs f new (omega (arith, d)) in
          (
            kept,
            record {
              newest = (omega (arith, k.newest.0), (k.newest.0, k.newest.1));
              pushed = inr k.pushed;
              pending = k.pending;
              dropped = omega (arith, k.dropped, d);
            },
          )
    ]

-- After a first frame and any others, taking gives one of them that is not older than any, and every
-- other is counted as dropped.
pub take_frame_newest :
    (first : VideoFrame) (fs : List VideoFrame)
    → let q = push_all (push empty_queue first) fs in
      (kept : VideoFrame) × ((take_frame q).1 ≡ some kept)
      × Among kept (first ∷ fs)
      × AtMost kept.frame_id (first ∷ fs)
      × (q.dropped_frames ≡ length fs % 2 ^ 64)
unfolding push take_frame
take_frame_newest first fs =
    let (kept, k) = push_all-Keeps (push empty_queue first) fs first refl (omega arith) in
    (kept, k.pending, k.pushed, (k.newest.0, k.newest.1), omega (arith, k.dropped))
