-- ===== src/Core/Identity/Trust.antt =====
-- DeviceRegistry::verify and MtlsTrustGate::verify of core/src/identity.cpp.
use text.Mathlib.TextEquality.{eq_iff}
use lan_pilot.Common.{
  ℕ, refl, true, ◌≡◌, ◌↔◌, some, arith, none, false, Option-cases, ◌≤◌, inl, ◌<◌, inr, sym, ◌∙◌,
}
use lan_pilot.Core.Identity.{
  accepted, unknown_device, fingerprint_mismatch, revoked, not_yet_valid, expired, verify,
  verify_device, DeviceRegistry, PairedDevice, PeerVerification, PeerCertificate, is_accepted, find,
  constant_time_equals,
}

-- What makes a device vouch for a certificate.
pub record Vouches (d : PairedDevice) (c : PeerCertificate) (now : ℕ) : Type 0 where
  pub same_serial : d.certificate.serial ≡ c.serial
  pub same_fingerprint : constant_time_equals d.fingerprint c.fingerprint ≡ true
  pub not_revoked : d.is_revoked ≡ false
  pub begun : c.not_before ≤ now
  pub not_ended : now < c.not_after

abbrev pub Trusted : DeviceRegistry → PeerCertificate → ℕ → Type 0
Trusted devices c now = (d : PairedDevice) × (find devices c.device_id ≡ some d) × Vouches d c now

verify_device-Vouches :
    (d : PairedDevice) (c : PeerCertificate) (now : ℕ)
    → verify_device d c now ≡ accepted
    → Vouches d c now
unfolding verify_device
verify_device-Vouches d c now h =
    let e = eq_iff d.certificate.serial c.serial in
    record {
      same_serial = ground (arith, e);
      same_fingerprint = ground arith;
      not_revoked = ground arith;
      begun = ground arith;
      not_ended = ground arith;
    }

Vouches-verify_device :
    (d : PairedDevice) (c : PeerCertificate) (now : ℕ)
    → Vouches d c now
    → verify_device d c now ≡ accepted
unfolding verify_device
Vouches-verify_device d c now h = ground (arith, eq_iff d.certificate.serial c.serial)

-- `verify` with the lookup done.
pub verify_found :
    (devices : DeviceRegistry) (c : PeerCertificate) (now : ℕ) {d : PairedDevice}
    → find devices c.device_id ≡ some d
    → verify devices c now ≡ verify_device d c now
unfolding verify
verify_found devices c now e = ground (arith, e)

pub verify_missing :
    (devices : DeviceRegistry) (c : PeerCertificate) (now : ℕ)
    → find devices c.device_id ≡ none
    → verify devices c now ≡ unknown_device
unfolding verify
verify_missing devices c now e = ground (arith, e)

pub verify-accepted_iff :
    (devices : DeviceRegistry) (c : PeerCertificate) (now : ℕ)
    → (verify devices c now ≡ accepted) ↔ Trusted devices c now
verify-accepted_iff devices c now = (
  λ h. elim (Option-cases (find devices c.device_id)) [
    | inl e ↦ absurd (ground (arith, verify_missing devices c now e))
    | inr (d, e) ↦ (d, e, verify_device-Vouches d c now (sym (verify_found devices c now e) ∙ h))
  ],
  λ h. verify_found devices c now h.1 ∙ Vouches-verify_device h.0 c now h.2,
)

pub is_accepted_iff : (v : PeerVerification) → (is_accepted v ≡ true) ↔ (v ≡ accepted)
is_accepted_iff accepted = (λ h. refl, λ h. refl)
is_accepted_iff unknown_device = (λ h. cc, λ h. cc)
is_accepted_iff fingerprint_mismatch = (λ h. cc, λ h. cc)
is_accepted_iff revoked = (λ h. cc, λ h. cc)
is_accepted_iff not_yet_valid = (λ h. cc, λ h. cc)
is_accepted_iff expired = (λ h. cc, λ h. cc)
