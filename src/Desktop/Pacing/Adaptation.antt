-- ===== src/Desktop/Pacing/Adaptation.antt =====
-- adapt_video_settings of desktop/src/desktop.cpp.
use lan_pilot.Common.{ok, true, false, refl, if◌then◌else◌, ◌≡◌, arith, ◌≤◌, ◌<◌, ◌↔◌, Bool}
use lan_pilot.Desktop.Pacing.{
  VideoSettings, NetworkTelemetry, adapt_video_settings, validate_settings, is_congested,
  lower_settings, is_severe, is_good, raise_settings,
}

record IsSettings (s : VideoSettings) : Type 0 where
  wide : (0 < s.width) × (s.width ≤ 7680)
  high : (0 < s.height) × (s.height ≤ 4320)
  fps : (0 < s.frames_per_second) × (s.frames_per_second ≤ 120)
  rate : (500 ≤ s.bitrate_kbps) × (s.bitrate_kbps ≤ 100000)
  keyframe : (0 < s.keyframe_interval) × (s.keyframe_interval ≤ 600)

validate_settings-IsSettings : (s : VideoSettings) → (validate_settings s ≡ ok tt) ↔ IsSettings s
unfolding validate_settings
validate_settings-IsSettings s = (λ v. ground arith, λ v. ground (arith, v))

IsSettings-lower_settings :
    (s : VideoSettings) (severe : Bool) → IsSettings s → IsSettings (lower_settings s severe)
unfolding lower_settings
IsSettings-lower_settings s severe v = record {
  wide = ground (arith, v.wide);
  high = ground (arith, v.high);
  fps = ground (arith, v.fps);
  rate = ground (arith, v.rate);
  keyframe = ground (arith, v.keyframe);
}

IsSettings-raise_settings : (s : VideoSettings) → IsSettings s → IsSettings (raise_settings s)
unfolding raise_settings
IsSettings-raise_settings s v = record {
  wide = ground (arith, v.wide);
  high = ground (arith, v.high);
  fps = ground (arith, v.fps);
  rate = ground (arith, v.rate);
  keyframe = v.keyframe;
}

-- Valid settings are adapted, never refused, and the result is valid again.
pub adapt_video_settings-valid :
    (s : VideoSettings) (t : NetworkTelemetry)
    → validate_settings s ≡ ok tt
    → (r : VideoSettings) × (adapt_video_settings s t ≡ ok r) × (validate_settings r ≡ ok tt)
unfolding adapt_video_settings
adapt_video_settings-valid s t v = (
  adapted (is_congested t) (is_good t),
  rw v refl,
  (validate_settings-IsSettings _).1 (kept (is_congested t) (is_good t)),
)
  where
    adapted : Bool → Bool → VideoSettings
    adapted congested good =
        if congested then lower_settings s (is_severe t) else if good then raise_settings s else s

    kept : (congested good : Bool) → IsSettings (adapted congested good)
    kept true good =
        IsSettings-lower_settings s (is_severe t) ((validate_settings-IsSettings s).0 v)
    kept false true = IsSettings-raise_settings s ((validate_settings-IsSettings s).0 v)
    kept false false = (validate_settings-IsSettings s).0 v
