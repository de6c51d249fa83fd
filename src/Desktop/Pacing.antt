-- ===== src/Desktop/Pacing.antt =====
-- The small state machines of desktop/src/desktop.cpp around the stream: the order of visual
-- messages, the queue of the latest frame, focus, and the settings that follow the network.
pub mod Sequences
pub mod Adaptation
use lan_pilot.Common.{
  ℕ, zero, suc, ok, err, true, false, none, some, [], ◌∷◌, if◌then◌else◌, ltb, Option, Result, Bool,
  ◌==◌, max, ◌+◌, ◌||◌, leb, not, ◌⨾◌, ◌&&◌, ◌!=◌, ◌*◌, ◌%◌, throw_if, min, ◌^◌, ◌/◌,
  invalid_argument,
}
use lan_pilot.Desktop.Headers.{VisualMessageHeader}
use lan_pilot.Desktop.Fragment.{VideoFrame}
use lan_pilot.Desktop.Limits.{validate_dimensions}

pub data VisualSequenceResult : Type 0 where
  accepted new_generation gap : VisualSequenceResult

pub record VisualSequenceTracker : Type 0 where
  pub generation : ℕ
  pub last_sequence : ℕ

-- The result of `reset`, and of a new tracker.
abbrev pub no_sequence : VisualSequenceTracker
no_sequence = record { generation = 0; last_sequence = 0 }

unfoldable pub receive_sequence :
    VisualSequenceTracker → VisualMessageHeader → VisualSequenceTracker × VisualSequenceResult
receive_sequence t header =
    if t.generation == 0 || header.session_generation != t.generation
    then if header.visual_sequence != 1
      then (record { generation = header.session_generation; last_sequence = 0 }, gap)
      else (record { generation = header.session_generation; last_sequence = 1 }, new_generation)
    else if header.visual_sequence != (t.last_sequence + 1) % 2 ^ 64
    then (t, gap)
    else (record t { last_sequence = header.visual_sequence }, accepted)

pub record LatestFrameQueue : Type 0 where
  pub pending : Option VideoFrame
  pub dropped_frames : ℕ

abbrev pub empty_queue : LatestFrameQueue
empty_queue = record { pending = none; dropped_frames = 0 }

push_over : LatestFrameQueue → VideoFrame → Option VideoFrame → LatestFrameQueue
push_over q frame none = record q { pending = some frame }
push_over q frame (some old) =
    let dropped = record q { dropped_frames = (q.dropped_frames + 1) % 2 ^ 64 } in
    if leb frame.frame_id old.frame_id then dropped else record dropped { pending = some frame }

unfoldable pub push : LatestFrameQueue → VideoFrame → LatestFrameQueue
unfolding push_over
push q frame = push_over q frame q.pending

unfoldable pub take_frame : LatestFrameQueue → LatestFrameQueue × Option VideoFrame
take_frame q = (record q { pending = none }, q.pending)

-- InputFocusReleaseGate is its one member, `focused_`.
unfoldable pub focus_acquired : Bool → Bool
focus_acquired focused = true

unfoldable pub focus_lost : Bool → Bool × Bool
focus_lost focused = if not focused then (focused, false) else (false, true)

pub record VideoSettings : Type 0 where
  pub width : ℕ
  pub height : ℕ
  pub frames_per_second : ℕ
  pub bitrate_kbps : ℕ
  pub keyframe_interval : ℕ

pub record NetworkTelemetry : Type 0 where
  pub round_trip_ms : ℕ
  pub loss_basis_points : ℕ
  pub send_queue_ms : ℕ

unfoldable pub validate_settings : VideoSettings → Result (Unit {0})
unfolding validate_dimensions
validate_settings s =
    validate_dimensions s.width s.height
    ⨾ throw_if
        (s.frames_per_second == 0
          || ltb 120 s.frames_per_second
          || ltb s.bitrate_kbps 500
          || ltb 100000 s.bitrate_kbps
          || s.keyframe_interval == 0
          || ltb 600 s.keyframe_interval)
        invalid_argument

abbrev pub is_congested : NetworkTelemetry → Bool
is_congested t = leb 200 t.loss_basis_points || ltb 25 t.send_queue_ms || ltb 80 t.round_trip_ms

abbrev pub is_severe : NetworkTelemetry → Bool
is_severe t = leb 500 t.loss_basis_points || ltb 60 t.send_queue_ms

abbrev pub is_good : NetworkTelemetry → Bool
is_good t = ltb t.loss_basis_points 20 && ltb t.send_queue_ms 5 && ltb t.round_trip_ms 20

-- The two branches. After the validation no product or sum leaves std::uint32_t.
lower_settings : VideoSettings → Bool → VideoSettings
lower_settings s severe =
    let fps = max 30 (s.frames_per_second * 3 / 4) in
    let small = severe && (ltb 1280 s.width || ltb 720 s.height) in
    record {
      width = if small then 1280 else s.width;
      height = if small then 720 else s.height;
      frames_per_second = fps;
      bitrate_kbps = max 1500 (s.bitrate_kbps * 3 / 4);
      keyframe_interval = min s.keyframe_interval fps;
    }

raise_settings : VideoSettings → VideoSettings
raise_settings s =
    let small = ltb s.width 1920 || ltb s.height 1080 in
    record {
      width = if small then 1920 else s.width;
      height = if small then 1080 else s.height;
      frames_per_second = min 60 (s.frames_per_second + 5);
      bitrate_kbps = min 20000 (s.bitrate_kbps + max 250 (s.bitrate_kbps / 10));
      keyframe_interval = s.keyframe_interval;
    }

unfoldable pub adapt_video_settings : VideoSettings → NetworkTelemetry → Result VideoSettings
unfolding validate_settings lower_settings raise_settings
adapt_video_settings s t =
    validate_settings s
    ⨾ ok (
        if is_congested t
        then lower_settings s (is_severe t)
        else if is_good t
        then raise_settings s
        else s)
