-- ===== src/Core/Identity/Pairing.antt =====
-- PairingService of core/src/identity.cpp.
use text.Mathlib.Text.{◌==◌ as str_eq}
use lan_pilot.Common.{ℕ, ◌≡◌, ok}
use lan_pilot.Core.Identity.{
  PairingChallenge, Confirmation, DeviceRegistry, PeerCertificate, paired, check_confirmation, pair,
  issue,
}

abbrev Confirmed :
    PairingChallenge → Confirmation → ℕ → DeviceRegistry → DeviceRegistry → PeerCertificate → Type 0
Confirmed challenge c now devices next cert =
    (check_confirmation challenge c now ≡ ok tt)
    × (pair (paired challenge c now) devices ≡ ok next)
    × (cert ≡ issue challenge c now)
