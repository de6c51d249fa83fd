-- ===== src/Transport/Features/Agreement.antt =====
-- What two peers agree on by negotiate_features of transport/src/resilient_transport.cpp.
use lan_pilot.Common.{
  ℕ, suc, ok, err, true, false, [], ◌∷◌, if◌then◌else◌, refl, inl, inr, List, ◌≡◌, arith, ◌≤◌, ◌<◌,
  contains, Bool-cases, ap₂, ◌&&◌, leb, max, ◌==◌, ap, min, ==_iff, ◌⊎◌, Result-cases,
  invalid_argument,
}
use lan_pilot.Transport.Features.{
  negotiate_features, FeatureOffer, set_intersection, NegotiatedFeatures, shared_offer,
  validate_offer, feature_h264, feature_resolution_4k, feature_fps_120, shared_features,
}

-- A std::set: its elements ascend.
abbrev Above : ℕ → List ℕ → Type 0
Above k [] = Unit {0}
Above k (x ∷ xs) = (k ≤ x) × Above k xs

abbrev pub IsFeatureSet : List ℕ → Type 0
IsFeatureSet [] = Unit {0}
IsFeatureSet (x ∷ xs) = Above (suc x) xs × IsFeatureSet xs

pub contains-set_intersection :
    (xs ys : List ℕ) (c : ℕ)
    → contains (set_intersection xs ys) c ≡ (contains xs c && contains ys c)
unfolding set_intersection
contains-set_intersection [] ys c = refl
contains-set_intersection (x ∷ xs) ys c = elim (Bool-cases (c == x)) [
  | inl e ↦
      ground (arith, e, contains-set_intersection xs ys c, ap (contains ys) ((==_iff c x).0 e))
  | inr e ↦ ground (arith, e, contains-set_intersection xs ys c)
]

Above-le : (j k : ℕ) (xs : List ℕ) → j ≤ k → Above k xs → Above j xs
Above-le j k [] h a = tt
Above-le j k (x ∷ xs) h a = (omega (arith, h, a.0), Above-le j k xs h a.1)

Above-missing : (j k : ℕ) (xs : List ℕ) → j < k → Above k xs → contains xs j ≡ false
Above-missing j k [] h a = refl
Above-missing j k (x ∷ xs) h a = ground (arith, Above-missing j k xs h a.1, a.0)

Above-intersection : (k : ℕ) (xs ys : List ℕ) → Above k xs → Above k (set_intersection xs ys)
unfolding set_intersection
Above-intersection k [] ys a = tt
Above-intersection k (x ∷ xs) ys a = ground (arith, Above-intersection k xs ys a.1, a.0)

IsFeatureSet-intersection :
    (xs ys : List ℕ) → IsFeatureSet xs → IsFeatureSet (set_intersection xs ys)
unfolding set_intersection
IsFeatureSet-intersection [] ys h = tt
IsFeatureSet-intersection (x ∷ xs) ys h = elim (Bool-cases (contains ys x)) [
  | inl c ↦ rw c (Above-intersection (suc x) xs ys h.0, IsFeatureSet-intersection xs ys h.1)
  | inr c ↦ rw c (IsFeatureSet-intersection xs ys h.1)
]

-- Two sets with the same elements are equal.
same_sets :
    (xs ys : List ℕ)
    → IsFeatureSet xs
    → IsFeatureSet ys
    → ((c : ℕ) → contains xs c ≡ contains ys c)
    → xs ≡ ys
same_sets [] [] hx hy e = refl
same_sets [] (y ∷ ys) hx hy e = absurd (ground (arith, e y))
same_sets (x ∷ xs) [] hx hy e = absurd (ground (arith, e x))
same_sets (x ∷ xs) (y ∷ ys) hx hy e =
    let p : x ≡ y =
      ground
        (arith, e x, e y, Above-missing x (suc y) ys, Above-missing y (suc x) xs, hx.0, hy.0) in
    ap₂ (λ (a : ℕ) (l : List ℕ). a ∷ l) p
      (same_sets xs ys hx.1 hy.1 (λ c. elim (Bool-cases (leb c x)) [
        | inl h ↦
            ground (arith, p, Above-missing c (suc x) xs, Above-missing c (suc y) ys, hx.0, hy.0, h)
        | inr h ↦ ground (arith, p, h, e c)
      ]))

intersection_comm :
    (xs ys : List ℕ)
    → IsFeatureSet xs
    → IsFeatureSet ys
    → set_intersection xs ys ≡ set_intersection ys xs
intersection_comm xs ys hx hy =
    same_sets (set_intersection xs ys) (set_intersection ys xs) (IsFeatureSet-intersection xs ys hx)
      (IsFeatureSet-intersection ys xs hy)
      (λ c. ground (arith, contains-set_intersection xs ys c, contains-set_intersection ys xs c))

-- What an agreement promises of one of the offers.
pub record Within (offer : FeatureOffer) (n : NegotiatedFeatures) : Type 0 where
  pub not_older : offer.minimum_protocol_version ≤ n.protocol_version
  pub not_newer : n.protocol_version ≤ offer.maximum_protocol_version
  pub narrower : n.maximum_width ≤ offer.maximum_width
  pub lower : n.maximum_height ≤ offer.maximum_height
  pub slower : n.maximum_frames_per_second ≤ offer.maximum_frames_per_second
  pub with_datagrams : (n.datagrams && offer.datagrams) ≡ n.datagrams

shared-Within :
    (l r : FeatureOffer)
    → max l.minimum_protocol_version r.minimum_protocol_version
      ≤ min l.maximum_protocol_version r.maximum_protocol_version
    → Within l (shared_offer l r) × Within r (shared_offer l r)
unfolding shared_offer
shared-Within l r v = (
  record {
    not_older = omega (arith, v);
    not_newer = omega arith;
    narrower = ground arith;
    lower = ground arith;
    slower = ground arith;
    with_datagrams = ground arith;
  },
  record {
    not_older = omega (arith, v);
    not_newer = omega arith;
    narrower = ground arith;
    lower = ground arith;
    slower = ground arith;
    with_datagrams = ground arith;
  },
)

negotiated :
    (l r : FeatureOffer) {n : NegotiatedFeatures}
    → negotiate_features l r ≡ ok n
    → (max l.minimum_protocol_version r.minimum_protocol_version
        ≤ min l.maximum_protocol_version r.maximum_protocol_version)
      × (contains (shared_features l r) feature_h264 ≡ true)
      × (n ≡ shared_offer l r)
unfolding negotiate_features
negotiated l r {n} h = elim (Result-cases (validate_offer l)) [
  | inr (x, a) ↦ absurd (ground (arith, a, h))
  | inl a ↦ elim (Result-cases (validate_offer r)) [
    | inr (x, b) ↦ absurd (ground (arith, a, b, h))
    | inl b ↦ (ground (arith, a, b, h), ground (arith, a, b, h), ground (arith, a, b, h))
  ]
]

-- Neither peer gets more than its offer: the version is in the ranges of both, sizes, rate and
-- datagrams are within both offers, the features are exactly those that both offered, H.264 among
-- them, and without 4K or 120 frames in common the size is at most 1920 by 1080 or the rate at most
-- 60.
pub negotiate_features-Within :
    (l r : FeatureOffer) {n : NegotiatedFeatures}
    → negotiate_features l r ≡ ok n
    → (c : ℕ)
    → Within l n
      × Within r n
      × (contains n.video_features c ≡ (contains l.video_features c && contains r.video_features c))
      × (contains n.video_features feature_h264 ≡ true)
      × (n.maximum_width
          ≤ (if contains n.video_features feature_resolution_4k then l.maximum_width else 1920))
      × (n.maximum_height
          ≤ (if contains n.video_features feature_resolution_4k then l.maximum_height else 1080))
      × (n.maximum_frames_per_second
          ≤ (if contains n.video_features feature_fps_120 then l.maximum_frames_per_second else 60))
unfolding shared_offer
negotiate_features-Within l r {n} h c =
    let (v, b, e) = negotiated l r h in
    let (x, y) = shared-Within l r v in
    rw e (
      x,
      y,
      contains-set_intersection l.video_features r.video_features c,
      b,
      ground arith,
      ground arith,
      ground arith,
    )

validate_offer_class :
    (o : FeatureOffer) → (validate_offer o ≡ ok tt) ⊎ (validate_offer o ≡ err invalid_argument)
unfolding validate_offer
validate_offer_class o = ground arith

shared_offer_comm :
    (l r : FeatureOffer)
    → shared_features l r ≡ shared_features r l
    → shared_offer l r ≡ shared_offer r l
unfolding shared_offer
shared_offer_comm l r e = ground (arith, e)

-- On offers whose features are sets, two peers that each put their own offer first come to the same
-- result, or both to the same exception.
pub negotiate_features_comm :
    (l r : FeatureOffer)
    → IsFeatureSet l.video_features
    → IsFeatureSet r.video_features
    → negotiate_features l r ≡ negotiate_features r l
unfolding negotiate_features
negotiate_features_comm l r hl hr =
    let e = intersection_comm l.video_features r.video_features hl hr in
    let f = shared_offer_comm l r e in
    ground (
      arith,
      validate_offer_class l,
      validate_offer_class r,
      f,
      contains-set_intersection l.video_features r.video_features feature_h264,
      contains-set_intersection r.video_features l.video_features feature_h264,
    )
