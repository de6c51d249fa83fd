-- ===== src/Desktop/Framebuffer/Invariant.antt =====
-- The fields of CanonicalFramebufferState between two calls.
use lan_pilot.Common.{ℕ, some, ◌≢◌, arith, ◌<◌, ◌≤◌, ◌≡◌, List, ◌∷◌, []}
use lan_pilot.Desktop.Framebuffer.{
  rect, unavailable, exact, enters, commits_rect, initial, CanonicalFramebufferState, step, Call,
  run, recovery,
}

pub record Inv (s : CanonicalFramebufferState) : Type 0 where
  pub shown : s.quality ≢ unavailable → 0 < s.committed_frame_id
  pub entered : s.representation ≢ recovery → 0 < s.representation_epoch
  pub dated : s.quality ≢ unavailable → 0 < s.representation_epoch
  pub presented : s.present_submitted_frame_id ≤ s.committed_frame_id
  pub idle : s.pending_rect_target ≡ 0 → s.pending_rect_base ≡ 0
  pub pending :
      s.pending_rect_target ≢ 0
      → (s.representation ≡ rect)
        × (s.quality ≡ exact)
        × (s.pending_rect_base ≡ s.committed_frame_id)
        × (s.pending_rect_base < s.pending_rect_target)
  pub acked : (f : ℕ) → s.ack_frame_id ≡ some f → (f ≡ s.committed_frame_id) × (s.quality ≡ exact)

pub initial-Inv : Inv initial
initial-Inv = ground arith

-- Every call keeps the invariant.
pub step-Inv : (s : CanonicalFramebufferState) (c : Call) → Inv s → Inv (step s c)
unfolding step
step-Inv s (enters r epoch) v = ground arith
step-Inv s (commits_rect epoch base target) v = ground arith
step-Inv s _ v = ground arith

-- Whatever calls are made on a new framebuffer state, the invariant holds.
pub run-Inv : (s : CanonicalFramebufferState) (cs : List Call) → Inv s → Inv (run s cs)
unfolding run
run-Inv s [] v = v
run-Inv s (c ∷ cs) v = run-Inv (step s c) cs (step-Inv s c v)
