-- ===== src/Desktop/Framebuffer.antt =====
-- CanonicalFramebufferState of desktop/src/desktop.cpp: what the framebuffer shows, how exactly, and
-- which commit is still to be acknowledged.
pub mod Invariant
pub mod History
use lan_pilot.Common.{
  ℕ, zero, suc, true, false, none, some, if◌then◌else◌, List, Bool, Option, ◌!=◌, not, ◌==◌, ◌∷◌,
  leb, ◌&&◌, max, [], ◌||◌, ltb,
}
use lan_pilot.Desktop.Updates.{FrameCommitAck}

pub data VisualRepresentation : Type 0 where
  video snapshot rect recovery : VisualRepresentation

pub data FramebufferQuality : Type 0 where
  unavailable lossy exact : FramebufferQuality

abbrev pub is_video : VisualRepresentation → Bool
is_video video = true
is_video _ = false

abbrev pub is_snapshot : VisualRepresentation → Bool
is_snapshot snapshot = true
is_snapshot _ = false

abbrev pub is_rect : VisualRepresentation → Bool
is_rect rect = true
is_rect _ = false

abbrev pub is_recovery : VisualRepresentation → Bool
is_recovery recovery = true
is_recovery _ = false

abbrev pub is_exact : FramebufferQuality → Bool
is_exact exact = true
is_exact _ = false

-- `representation == representation_`
abbrev pub is_same : VisualRepresentation → VisualRepresentation → Bool
is_same video r = is_video r
is_same snapshot r = is_snapshot r
is_same rect r = is_rect r
is_same recovery r = is_recovery r

pub record CanonicalFramebufferState : Type 0 where
  pub representation : VisualRepresentation
  pub quality : FramebufferQuality
  pub representation_epoch : ℕ
  pub committed_frame_id : ℕ
  pub present_submitted_frame_id : ℕ
  pub pending_rect_base : ℕ
  pub pending_rect_target : ℕ
  pub ack_frame_id : Option ℕ

abbrev pub initial : CanonicalFramebufferState
initial = record {
  representation = recovery;
  quality = unavailable;
  representation_epoch = 0;
  committed_frame_id = 0;
  present_submitted_frame_id = 0;
  pending_rect_base = 0;
  pending_rect_target = 0;
  ack_frame_id = none;
}

unfoldable pub enter_representation :
    CanonicalFramebufferState → VisualRepresentation → ℕ → CanonicalFramebufferState × Bool
enter_representation s representation epoch =
    if epoch == 0 || ltb epoch s.representation_epoch
    then (s, false)
    else if epoch == s.representation_epoch
    then (s, is_same representation s.representation)
    else (
      record s {
        representation = representation;
        representation_epoch = epoch;
        pending_rect_base = 0;
        pending_rect_target = 0;
        ack_frame_id = none;
      },
      true,
    )

unfoldable pub commit_video : CanonicalFramebufferState → ℕ → ℕ → CanonicalFramebufferState × Bool
commit_video s epoch frame_id =
    if epoch != s.representation_epoch
      || not (is_video s.representation)
      || frame_id == 0
      || ltb frame_id s.committed_frame_id
    then (s, false)
    else (
      record s {
        committed_frame_id = frame_id;
        quality = lossy;
        pending_rect_base = 0;
        pending_rect_target = 0;
        ack_frame_id = none;
      },
      true,
    )

unfoldable pub can_commit_snapshot : CanonicalFramebufferState → ℕ → ℕ → Bool
can_commit_snapshot s epoch frame_id =
    epoch == s.representation_epoch
    && is_snapshot s.representation
    && frame_id != 0
    && leb s.committed_frame_id frame_id

unfoldable pub commit_snapshot :
    CanonicalFramebufferState → ℕ → ℕ → CanonicalFramebufferState × Bool
unfolding can_commit_snapshot
commit_snapshot s epoch frame_id =
    if not (can_commit_snapshot s epoch frame_id) then (s, false) else (
      record s {
        committed_frame_id = frame_id;
        quality = exact;
        pending_rect_base = 0;
        pending_rect_target = 0;
        ack_frame_id = some frame_id;
      },
      true,
    )

unfoldable pub begin_rect : CanonicalFramebufferState → ℕ → ℕ → ℕ → CanonicalFramebufferState × Bool
begin_rect s epoch base_frame_id target_frame_id =
    if epoch != s.representation_epoch
      || not (is_rect s.representation)
      || not (is_exact s.quality)
      || base_frame_id == 0
      || leb target_frame_id base_frame_id
      || s.committed_frame_id != base_frame_id
      || s.pending_rect_target != 0
    then (s, false)
    else (
      record s { pending_rect_base = base_frame_id; pending_rect_target = target_frame_id },
      true,
    )

unfoldable pub commit_rect :
    CanonicalFramebufferState → ℕ → ℕ → ℕ → CanonicalFramebufferState × Bool
commit_rect s epoch base_frame_id target_frame_id =
    if epoch != s.representation_epoch
      || not (is_rect s.representation)
      || not (is_exact s.quality)
      || s.pending_rect_base != base_frame_id
      || s.pending_rect_target != target_frame_id
      || s.committed_frame_id != base_frame_id
    then (s, false)
    else (
      record s {
        committed_frame_id = target_frame_id;
        pending_rect_base = 0;
        pending_rect_target = 0;
        ack_frame_id = some target_frame_id;
      },
      true,
    )

unfoldable pub cancel_rect : CanonicalFramebufferState → ℕ → CanonicalFramebufferState
cancel_rect s epoch =
    if epoch != s.representation_epoch
    then s
    else record s { pending_rect_base = 0; pending_rect_target = 0; ack_frame_id = none }

unfoldable pub present_submitted : CanonicalFramebufferState → ℕ → CanonicalFramebufferState
present_submitted s frame_id =
    if leb frame_id s.committed_frame_id
    then record s { present_submitted_frame_id = max s.present_submitted_frame_id frame_id }
    else s

take_ack :
    CanonicalFramebufferState
    → ℕ
    → List ℕ
    → Option ℕ
    → CanonicalFramebufferState × Option FrameCommitAck
take_ack s session_generation canonical_sha256 none = (s, none)
take_ack s session_generation canonical_sha256 (some frame_id) =
    if session_generation == 0 then (s, none) else (
      record s { ack_frame_id = none },
      some (record {
        session_generation = session_generation;
        representation_epoch = s.representation_epoch;
        frame_id = frame_id;
        canonical_sha256 = canonical_sha256;
      }),
    )

unfoldable pub take_commit_ack :
    CanonicalFramebufferState → ℕ → List ℕ → CanonicalFramebufferState × Option FrameCommitAck
unfolding take_ack
take_commit_ack s session_generation canonical_sha256 =
    take_ack s session_generation canonical_sha256 s.ack_frame_id

-- One call of a member function that may change the state.
pub data Call : Type 0 where
  enters : VisualRepresentation → ℕ → Call
  commits_video commits_snapshot : ℕ → ℕ → Call
  begins_rect commits_rect : ℕ → ℕ → ℕ → Call
  cancels_rect presents : ℕ → Call
  takes_ack : ℕ → List ℕ → Call

unfoldable pub step : CanonicalFramebufferState → Call → CanonicalFramebufferState
unfolding enter_representation commit_video commit_snapshot begin_rect commit_rect cancel_rect
    present_submitted take_commit_ack
step s (enters r epoch) = (enter_representation s r epoch).0
step s (commits_video epoch frame) = (commit_video s epoch frame).0
step s (commits_snapshot epoch frame) = (commit_snapshot s epoch frame).0
step s (begins_rect epoch base target) = (begin_rect s epoch base target).0
step s (commits_rect epoch base target) = (commit_rect s epoch base target).0
step s (cancels_rect epoch) = cancel_rect s epoch
step s (presents frame) = present_submitted s frame
step s (takes_ack generation digest) = (take_commit_ack s generation digest).0

unfoldable pub run : CanonicalFramebufferState → List Call → CanonicalFramebufferState
unfolding step
run s [] = s
run s (c ∷ cs) = run (step s c) cs
