-- ===== src/Transport/Features.antt =====
-- negotiate_features of transport/src/resilient_transport.cpp. VideoFeature is an enum class, a
-- number here; a std::set of features is sorted.
pub mod Agreement
use lan_pilot.Common.{
  ℕ, ok, err, true, false, none, some, [], ◌∷◌, if◌then◌else◌, Result, min, List, Bool, ◌⨾◌,
  throw_if, contains, ltb, ◌==◌, ◌&&◌, max, ◌||◌, length, logic_error, invalid_argument, not,
}

abbrev pub feature_h264 : ℕ
feature_h264 = 0

abbrev pub feature_resolution_4k : ℕ
feature_resolution_4k = 3

abbrev pub feature_fps_120 : ℕ
feature_fps_120 = 4

pub record FeatureOffer : Type 0 where
  pub minimum_protocol_version : ℕ
  pub maximum_protocol_version : ℕ
  pub video_features : List ℕ
  pub maximum_width : ℕ
  pub maximum_height : ℕ
  pub maximum_frames_per_second : ℕ
  pub datagrams : Bool

pub record NegotiatedFeatures : Type 0 where
  pub protocol_version : ℕ
  pub video_features : List ℕ
  pub maximum_width : ℕ
  pub maximum_height : ℕ
  pub maximum_frames_per_second : ℕ
  pub datagrams : Bool

unfoldable pub validate_offer : FeatureOffer → Result (Unit {0})
validate_offer offer =
    throw_if
      (offer.minimum_protocol_version == 0
        || ltb offer.maximum_protocol_version offer.minimum_protocol_version
        || ltb 1024 offer.maximum_protocol_version
        || offer.maximum_width == 0
        || ltb 16384 offer.maximum_width
        || offer.maximum_height == 0
        || ltb 16384 offer.maximum_height
        || offer.maximum_frames_per_second == 0
        || ltb 240 offer.maximum_frames_per_second
        || ltb 8 (length offer.video_features))
      invalid_argument

-- std::ranges::set_intersection of two sets.
unfoldable pub set_intersection : List ℕ → List ℕ → List ℕ
set_intersection [] ys = []
set_intersection (x ∷ xs) ys =
    let rest = set_intersection xs ys in if contains ys x then x ∷ rest else rest

abbrev pub shared_features : FeatureOffer → FeatureOffer → List ℕ
shared_features l r = set_intersection l.video_features r.video_features

-- The result, once both offers are valid, the versions overlap and the baseline is shared.
unfoldable pub shared_offer : FeatureOffer → FeatureOffer → NegotiatedFeatures
unfolding set_intersection
shared_offer l r =
    let features = shared_features l r in
    let width = min l.maximum_width r.maximum_width in
    let height = min l.maximum_height r.maximum_height in
    let rate = min l.maximum_frames_per_second r.maximum_frames_per_second in
    let large = contains features feature_resolution_4k in
    record {
      protocol_version = min l.maximum_protocol_version r.maximum_protocol_version;
      video_features = features;
      maximum_width = if large then width else min width 1920;
      maximum_height = if large then height else min height 1080;
      maximum_frames_per_second = if contains features feature_fps_120 then rate else min rate 60;
      datagrams = l.datagrams && r.datagrams;
    }

unfoldable pub negotiate_features : FeatureOffer → FeatureOffer → Result NegotiatedFeatures
unfolding validate_offer shared_offer
negotiate_features l r =
    validate_offer l
    ⨾ validate_offer r
    ⨾ throw_if
        (ltb (min l.maximum_protocol_version r.maximum_protocol_version)
          (max l.minimum_protocol_version r.minimum_protocol_version))
        logic_error
    ⨾ throw_if (not (contains (shared_features l r) feature_h264)) logic_error
    ⨾ ok (shared_offer l r)
