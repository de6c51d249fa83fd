-- ===== src/Desktop/Framebuffer/History.antt =====
-- Sequences of calls of CanonicalFramebufferState, and its transactions.
use lan_pilot.Common.{ℕ, true, none, some, ◌≡◌, List, ◌≤◌, ◌<◌, arith, ◌∷◌, [], bytes_eq_refl}
use lan_pilot.Desktop.Framebuffer.{
  exact, enters, commits_rect, run, CanonicalFramebufferState, begin_rect, step, commit_rect,
  take_commit_ack, Call,
}
use lan_pilot.Desktop.Framebuffer.Invariant.{Inv, step-Inv}
use lan_pilot.Desktop.Updates.{frame_commit_ack_matches, FrameCommitAck}

-- The epoch and the committed frame do not fall.
abbrev pub Later : CanonicalFramebufferState → CanonicalFramebufferState → Type 0
Later s t =
    (s.representation_epoch ≤ t.representation_epoch)
    × (s.committed_frame_id ≤ t.committed_frame_id)

step-Later : (s : CanonicalFramebufferState) (c : Call) → Inv s → Later s (step s c)
unfolding step
step-Later s (enters r epoch) v = ground arith
step-Later s (commits_rect epoch base target) v = ground arith
step-Later s _ v = ground arith

-- Whatever calls are made on a state that satisfies the invariant, its epoch and its committed frame
-- do not fall.
pub run-Later : (s : CanonicalFramebufferState) (cs : List Call) → Inv s → Later s (run s cs)
unfolding run
run-Later s [] v = (omega arith, omega arith)
run-Later s (c ∷ cs) v =
    let a = step-Later s c v in
    let b = run-Later (step s c) cs (step-Inv s c v) in (omega arith, omega arith)

-- A rectangle commits only where its transaction was begun: over the committed frame, which is
-- exact, in the current epoch, with the same base and target, and the target is newer.
pub commit_rect_needs_begin :
    (s : CanonicalFramebufferState) (epoch base target : ℕ)
    → Inv s
    → (commit_rect s epoch base target).1 ≡ true
    → (s.pending_rect_base ≡ base)
      × (s.pending_rect_target ≡ target)
      × (s.committed_frame_id ≡ base)
      × (s.quality ≡ exact)
      × (epoch ≡ s.representation_epoch)
      × (0 < base)
      × (base < target)
unfolding commit_rect
commit_rect_needs_begin s epoch base target v e = ground arith

-- Begin, commit, acknowledge: the commit succeeds, the first acknowledgement names the target in the
-- current epoch, and there is no second one.
pub rect_transaction :
    (s : CanonicalFramebufferState) (epoch base target generation : ℕ) (digest : List ℕ)
    → (begin_rect s epoch base target).1 ≡ true
    → 0 < generation
    → let begun = (begin_rect s epoch base target).0 in
      let committed = commit_rect begun epoch base target in
      let acknowledged = take_commit_ack committed.0 generation digest in
      (committed.1 ≡ true)
      × (committed.0.committed_frame_id ≡ target)
      × (acknowledged.1
          ≡ some (record {
            session_generation = generation;
            representation_epoch = epoch;
            frame_id = target;
            canonical_sha256 = digest;
          }))
      × ((take_commit_ack acknowledged.0 generation digest).1 ≡ none)
unfolding begin_rect commit_rect take_commit_ack
rect_transaction s epoch base target generation digest b g = ground arith

-- An acknowledgement is only given for the committed frame while it is exact, and is one that the
-- sender matches against its own record of that frame.
pub take_commit_ack_exact :
    (s : CanonicalFramebufferState) (generation : ℕ) (digest : List ℕ) {a : FrameCommitAck}
    → Inv s
    → (take_commit_ack s generation digest).1 ≡ some a
    → (a.frame_id ≡ s.committed_frame_id)
      × (s.quality ≡ exact)
      × (a.representation_epoch ≡ s.representation_epoch)
      × (frame_commit_ack_matches a generation s.representation_epoch s.committed_frame_id digest
          ≡ true)
unfolding take_commit_ack frame_commit_ack_matches
take_commit_ack_exact s generation digest {a} v e =
    ground (arith, bytes_eq_refl digest, v.acked a.frame_id)
