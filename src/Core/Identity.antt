-- ===== src/Core/Identity.antt =====
-- core/src/identity.cpp: paired devices, trust in a peer, pairing and discovery. A text that the code
-- only compares is a String; a fingerprint and a code, which it takes apart, are lists of bytes. A
-- TimePoint is the number of its ticks since the epoch and a duration a number of ticks; the code
-- refuses a duration that is not positive.
pub mod Compare
pub mod Trust
pub mod Revocation
pub mod Pairing
pub mod Discovery
use Prim.Native.String.{String, ◌++◌ as join, slice}
use text.Mathlib.Text.{◌==◌ as str_eq}
use lan_pilot.Common.{
  ℕ, zero, suc, ok, err, true, false, none, some, [], ◌∷◌, if◌then◌else◌, Option, Bool, not, List,
  Result, ◌+◌, ◌/◌, length, ◌⨾◌, leb, invalid_argument, throw_if, ◌||◌, ltb, ◌&&◌, bits_xor, lookup,
  bits_or, ◌-◌, ◌==◌, ◌%◌, put, is_empty, bytes_eq, logic_error, ◌^◌,
}

pub record PeerCertificate : Type 0 where
  pub device_id : String
  pub fingerprint : List ℕ
  pub serial : String
  pub not_before : ℕ
  pub not_after : ℕ

pub record PairedDevice : Type 0 where
  pub id : String
  pub display_name : String
  pub fingerprint : List ℕ
  pub certificate : PeerCertificate
  pub is_revoked : Bool

pub data PeerVerification : Type 0 where
  accepted unknown_device fingerprint_mismatch revoked not_yet_valid expired : PeerVerification

-- The map `devices_`, by the id of the device.
abbrev pub DeviceRegistry : Type 0
DeviceRegistry = List (String × PairedDevice)

abbrev pub is_digit : ℕ → Bool
is_digit ch = leb 48 ch && leb ch 57

abbrev pub all_of : (ℕ → Bool) → List ℕ → Bool
all_of p [] = true
all_of p (ch ∷ rest) = p ch && all_of p rest

abbrev pub is_six_digits : List ℕ → Bool
is_six_digits value = length value == 6 && all_of is_digit value

abbrev pub is_hex : ℕ → Bool
is_hex ch = is_digit ch || leb 97 ch && leb ch 102

unfoldable pub is_canonical_fingerprint : List ℕ → Bool
is_canonical_fingerprint fingerprint = length fingerprint == 64 && all_of is_hex fingerprint

-- The loop of `constant_time_equals`: a byte past the end of a text counts as 0.
unfoldable pub compare_loop : List ℕ → List ℕ → ℕ → ℕ
compare_loop [] [] difference = difference
compare_loop (x ∷ xs) [] difference = compare_loop xs [] (bits_or 8 difference (bits_xor 8 x 0))
compare_loop [] (y ∷ ys) difference = compare_loop [] ys (bits_or 8 difference (bits_xor 8 0 y))
compare_loop (x ∷ xs) (y ∷ ys) difference =
    compare_loop xs ys (bits_or 8 difference (bits_xor 8 x y))

unfoldable pub constant_time_equals : List ℕ → List ℕ → Bool
unfolding compare_loop
constant_time_equals left right =
    compare_loop left right (bits_xor 8 (length left) (length right)) == 0

abbrev pub require_nonempty : String → Result (Unit {0})
require_nonempty value = throw_if (is_empty value) invalid_argument

-- What `pair` asks of a device.
unfoldable pub check_device : PairedDevice → Result (Unit {0})
check_device d =
    require_nonempty d.id
    ⨾ throw_if
        (not (is_canonical_fingerprint d.fingerprint)
          || not (str_eq d.certificate.device_id d.id)
          || not (bytes_eq d.certificate.fingerprint d.fingerprint)
          || is_empty d.certificate.serial)
        invalid_argument
    ⨾ throw_if (leb d.certificate.not_after d.certificate.not_before) invalid_argument

unfoldable pub find : DeviceRegistry → String → Option PairedDevice
find devices device_id = lookup device_id devices

-- `emplace` leaves a device that is there.
unfoldable pub pair : PairedDevice → DeviceRegistry → Result DeviceRegistry
unfolding check_device find
pair d devices =
    check_device d
    ⨾ elim (find devices d.id) [ none ↦ ok (put d.id d devices) | some _ ↦ err invalid_argument ]

unfoldable pub revoke : String → DeviceRegistry → Result DeviceRegistry
unfolding find
revoke device_id devices = elim (find devices device_id) [
  | none ↦ err invalid_argument
  | some d ↦ ok (put device_id (record d { is_revoked = true }) devices)
]

-- `verify` with the device that has the id of the certificate.
unfoldable pub verify_device : PairedDevice → PeerCertificate → ℕ → PeerVerification
unfolding constant_time_equals
verify_device d certificate now =
    if not (str_eq d.certificate.serial certificate.serial)
    then unknown_device
    else if not (constant_time_equals d.fingerprint certificate.fingerprint)
    then fingerprint_mismatch
    else if d.is_revoked
    then revoked
    else if ltb now certificate.not_before
    then not_yet_valid
    else if leb certificate.not_after now
    then expired
    else accepted

unfoldable pub verify : DeviceRegistry → PeerCertificate → ℕ → PeerVerification
unfolding find verify_device
verify devices certificate now = elim (find devices certificate.device_id) [
  | none ↦ unknown_device
  | some d ↦ verify_device d certificate now
]

abbrev pub is_accepted : PeerVerification → Bool
is_accepted accepted = true
is_accepted unknown_device = false
is_accepted fingerprint_mismatch = false
is_accepted revoked = false
is_accepted not_yet_valid = false
is_accepted expired = false

pub record MtlsPeerEvidence : Type 0 where
  pub tls_1_3_negotiated : Bool
  pub client_certificate_present : Bool
  pub certificate_chain_valid : Bool
  pub revocation_checked : Bool
  pub certificate : PeerCertificate

pub data MtlsVerification : Type 0 where
  mtls_accepted tls_version_rejected certificate_missing : MtlsVerification
  certificate_chain_rejected revocation_unverified certificate_rejected : MtlsVerification

unfoldable pub verify_mtls : MtlsPeerEvidence → DeviceRegistry → ℕ → MtlsVerification
unfolding verify
verify_mtls evidence devices now =
    if not evidence.tls_1_3_negotiated
    then tls_version_rejected
    else if not evidence.client_certificate_present
    then certificate_missing
    else if not evidence.certificate_chain_valid
    then certificate_chain_rejected
    else if not evidence.revocation_checked
    then revocation_unverified
    else if is_accepted (verify devices evidence.certificate now)
    then mtls_accepted
    else certificate_rejected

abbrev pub is_mtls_accepted : MtlsVerification → Bool
is_mtls_accepted mtls_accepted = true
is_mtls_accepted tls_version_rejected = false
is_mtls_accepted certificate_missing = false
is_mtls_accepted certificate_chain_rejected = false
is_mtls_accepted revocation_unverified = false
is_mtls_accepted certificate_rejected = false

pub record NodeAdvertisement : Type 0 where
  pub node_id : String
  pub node_name : String
  pub lan_endpoint : String
  pub fingerprint : List ℕ

-- What both the cache and a pairing ask of an advertisement's texts.
abbrev pub check_node : NodeAdvertisement → Result (Unit {0})
check_node node =
    require_nonempty node.node_id
    ⨾ require_nonempty node.node_name
    ⨾ require_nonempty node.lan_endpoint

pub record PairingChallenge : Type 0 where
  pub id : String
  pub node : NodeAdvertisement
  pub six_digit_code : List ℕ
  pub expires_at : ℕ

-- std::to_string on a number below 2 ^ 64: twenty digits are enough.
abbrev pub digit : ℕ → String
digit n = slice "0123456789" n (n + 1)

unfoldable pub decimal : ℕ → ℕ → String
decimal zero n = ""
decimal (suc f) n =
    let rest = decimal f (n / 10) in if ltb n 10 then digit n else join rest (digit (n % 10))

unfoldable pub to_string : ℕ → String
unfolding decimal
to_string n = decimal 20 n

-- `begin`, with the counter of challenges.
unfoldable pub begin_pairing : ℕ → NodeAdvertisement → List ℕ → ℕ → ℕ → ℕ × Result PairingChallenge
unfolding to_string
begin_pairing next_challenge node six_digit_code now lifetime =
    let checked =
      check_node node
      ⨾ throw_if
          (not (is_canonical_fingerprint node.fingerprint)
            || not (is_six_digits six_digit_code)
            || lifetime == 0)
          invalid_argument in
    let next = (next_challenge + 1) % 2 ^ 64 in
    elim checked [
      | ok _ ↦ (
        next,
        ok (record {
          id = join "pair-" (to_string next);
          node = node;
          six_digit_code = six_digit_code;
          expires_at = now + lifetime;
        }),
      )
      | err e ↦ (next_challenge, err e)
    ]

-- The arguments of `confirm` that describe the device.
pub record Confirmation : Type 0 where
  pub supplied_code : List ℕ
  pub device_id : String
  pub display_name : String
  pub device_fingerprint : List ℕ
  pub certificate_lifetime : ℕ

abbrev pub check_confirmation : PairingChallenge → Confirmation → ℕ → Result (Unit {0})
check_confirmation challenge c now =
    throw_if
      (is_empty challenge.id
        || leb challenge.expires_at now
        || not (constant_time_equals challenge.six_digit_code c.supplied_code))
      invalid_argument
    ⨾ require_nonempty c.device_id
    ⨾ require_nonempty c.display_name
    ⨾ throw_if (not (is_canonical_fingerprint c.device_fingerprint) || c.certificate_lifetime == 0)
        invalid_argument

abbrev pub issue : PairingChallenge → Confirmation → ℕ → PeerCertificate
issue challenge c now = record {
  device_id = c.device_id;
  fingerprint = c.device_fingerprint;
  serial = join "paired-" (join challenge.id (join "-" c.device_id));
  not_before = now;
  not_after = now + c.certificate_lifetime;
}

abbrev pub paired : PairingChallenge → Confirmation → ℕ → PairedDevice
paired challenge c now = record {
  id = c.device_id;
  display_name = c.display_name;
  fingerprint = c.device_fingerprint;
  certificate = issue challenge c now;
  is_revoked = false;
}

unfoldable pub confirm :
    PairingChallenge → Confirmation → ℕ → DeviceRegistry → Result (DeviceRegistry × PeerCertificate)
unfolding pair
confirm challenge c now devices =
    check_confirmation challenge c now ⨾ elim (pair (paired challenge c now) devices) [
      | ok registered ↦ ok (registered, issue challenge c now)
      | err e ↦ err e
    ]

pub record ObservedNode : Type 0 where
  pub advertisement : NodeAdvertisement
  pub observed_at : ℕ

pub record DiscoveryCache : Type 0 where
  pub nodes : List (String × ObservedNode)
  pub max_age : ℕ

unfoldable pub observe : NodeAdvertisement → ℕ → DiscoveryCache → Result DiscoveryCache
observe advertisement now cache =
    throw_if (cache.max_age == 0) logic_error
    ⨾ check_node advertisement
    ⨾ throw_if (not (is_canonical_fingerprint advertisement.fingerprint)) invalid_argument
    ⨾ ok (record cache {
      nodes =
          put advertisement.node_id (record { advertisement = advertisement; observed_at = now })
            cache.nodes;
    })

unfoldable pub find_node : DiscoveryCache → String → ℕ → Option NodeAdvertisement
find_node cache node_id now = elim (lookup node_id cache.nodes) [
  | none ↦ none
  | some n ↦
      if ltb now n.observed_at || ltb cache.max_age (now - n.observed_at)
      then none
      else some n.advertisement
]
