-- ===== src/Core/Tests/Peers.antt =====
-- Runs of pairing, trust and discovery.
use lan_pilot.Common.{
  ℕ, [], ◌∷◌, refl, true, false, some, ok, replicate, List, bits_xor, ◌≡◌, put, lookup, bits_or,
  ◌↔◌, bytes_eq, length, ◌%◌, arith,
}
use lan_pilot.Core.Identity.{
  DeviceRegistry, MtlsPeerEvidence, is_mtls_accepted, constant_time_equals, PairingChallenge,
  begin_pairing, PairedDevice, NodeAdvertisement, PeerCertificate, is_canonical_fingerprint,
  observe, Confirmation, verify_mtls, DiscoveryCache, find, pair, revoke, check_device,
}
use text.Mathlib.Text.{◌==◌ as str_eq}
use lan_pilot.Core.Identity.Revocation.{
  registry_run, pair_device, revoke_device, registry_run-IsPaired, RegistryCall, IsPaired,
  registry_run-IsPaired,
}
use lan_pilot.Core.Identity.Compare.{Padded, constant_time_equals_iff}

abbrev pub print : List ℕ
print = replicate 64 97

abbrev pub certificate : PeerCertificate
certificate = record {
  device_id = "phone";
  fingerprint = print;
  serial = "paired-pair-1-phone";
  not_before = 10;
  not_after = 100;
}

abbrev pub phone : PairedDevice
phone = record {
  id = "phone";
  display_name = "Phone";
  fingerprint = print;
  certificate = certificate;
  is_revoked = false;
}

abbrev pub devices : DeviceRegistry
devices = ("phone", phone) ∷ []

abbrev pub peer : MtlsPeerEvidence
peer = record {
  tls_1_3_negotiated = true;
  client_certificate_present = true;
  certificate_chain_valid = true;
  revocation_checked = true;
  certificate = certificate;
}

abbrev left : List ℕ
left = 1 ∷ 2 ∷ []

abbrev right : List ℕ
right = 1 ∷ 3 ∷ []

constant_time_equals_iff_example :
    (constant_time_equals left right ≡ true)
    ↔ ((length left % 256 ≡ length right % 256) × Padded left right)
constant_time_equals_iff_example = constant_time_equals_iff left right (omega arith) (omega arith)

-- A text and the same text followed by 256 zeros.
padded_text : constant_time_equals (7 ∷ []) (7 ∷ replicate 256 0) ≡ true
unfolding constant_time_equals bits_xor bits_or
padded_text = refl

trusted_peer : is_mtls_accepted (verify_mtls peer devices 50) ≡ true
unfolding verify_mtls lookup bits_xor bits_or
trusted_peer = refl

abbrev revoked_phone : PairedDevice
revoked_phone = record phone { is_revoked = true }

abbrev pairing : List RegistryCall
pairing = pair_device phone ∷ revoke_device "phone" ∷ []

paired_then_revoked : find (registry_run pairing []) "phone" ≡ some revoked_phone
unfolding find lookup put pair revoke check_device is_canonical_fingerprint bytes_eq
paired_then_revoked = refl

registry_run-IsPaired_example : IsPaired "phone" revoked_phone
registry_run-IsPaired_example =
    registry_run-IsPaired pairing "phone" revoked_phone paired_then_revoked

abbrev node : NodeAdvertisement
node = record {
  node_id = "desk";
  node_name = "Desk";
  lan_endpoint = "10.0.0.2:7443";
  fingerprint = print;
}

abbrev challenge : PairingChallenge
challenge = record {
  id = "pair-1";
  node = node;
  six_digit_code = 49 ∷ 50 ∷ 51 ∷ 52 ∷ 53 ∷ 54 ∷ [];
  expires_at = 20;
}

abbrev confirmation : Confirmation
confirmation = record {
  supplied_code = 49 ∷ 50 ∷ 51 ∷ 52 ∷ 53 ∷ 54 ∷ [];
  device_id = "phone";
  display_name = "Phone";
  device_fingerprint = print;
  certificate_lifetime = 90;
}

begun : begin_pairing 0 node (49 ∷ 50 ∷ 51 ∷ 52 ∷ 53 ∷ 54 ∷ []) 5 15 ≡ (1, ok challenge)
unfolding begin_pairing is_canonical_fingerprint
begun = refl

abbrev cache : DiscoveryCache
cache = record { nodes = []; max_age = 120 }

abbrev observed : DiscoveryCache
observed = record {
  nodes = ("desk", record { advertisement = node; observed_at = 7 }) ∷ [];
  max_age = 120;
}

observed_once : observe node 7 cache ≡ ok observed
unfolding observe put is_canonical_fingerprint
observed_once = refl
