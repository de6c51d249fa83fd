-- ===== src/Core/Identity/Revocation.antt =====
-- pair and revoke of core/src/identity.cpp, over any calls of them.
use text.Mathlib.Text.{◌==◌ as str_eq}
use text.Mathlib.TextEquality.{eq_iff}
use lan_pilot.Common.{
  if◌then◌else◌, ℕ, [], ◌∷◌, refl, true, List, Result, Outcome-cases, arith, ◌≡◌, inl, some, ok,
  ◌<◌, inr, err, Bool-cases, text-cases, bytes_eq_sound, none, ap, false, subst, same_text, sym,
  Option-cases, Result-cases, lookup, lookup-put,
}
use lan_pilot.Core.Identity.{
  DeviceRegistry, pair, String, check_device, verify_device, revoke, PairedDevice, find,
  PeerCertificate, is_accepted, is_canonical_fingerprint, verify,
}
use lan_pilot.Core.Identity.Trust.{verify_found}

-- A call that changes the registry; one that throws leaves it as it was.
pub data RegistryCall : Type 0 where
  pair_device : PairedDevice → RegistryCall
  revoke_device : String → RegistryCall

abbrev pub or_unchanged : DeviceRegistry → Result DeviceRegistry → DeviceRegistry
or_unchanged devices (ok next) = next
or_unchanged devices (err e) = devices

abbrev pub registry_step : DeviceRegistry → RegistryCall → DeviceRegistry
registry_step devices (pair_device d) = or_unchanged devices (pair d devices)
registry_step devices (revoke_device id) = or_unchanged devices (revoke id devices)

abbrev pub registry_run : List RegistryCall → DeviceRegistry → DeviceRegistry
registry_run [] devices = devices
registry_run (c ∷ cs) devices = registry_run cs (registry_step devices c)

-- How a lookup reads after `pair` and after `revoke`.
pub find-pair :
    (d : PairedDevice) (devices : DeviceRegistry) (id : String) {next : DeviceRegistry}
    → pair d devices ≡ ok next
    → (check_device d ≡ ok tt)
      × (find devices d.id ≡ none)
      × (find next id ≡ (if str_eq d.id id then some d else find devices id))
unfolding pair find
find-pair d devices id h =
    ground (arith, Result-cases (check_device d), lookup-put d.id id d devices)

pub find-revoke :
    (key : String) (devices : DeviceRegistry) (id : String) {next : DeviceRegistry}
    → revoke key devices ≡ ok next
    → (d : PairedDevice) × (find devices key ≡ some d)
      × (find next id
          ≡ (if str_eq key id then some (record d { is_revoked = true }) else find devices id))
unfolding revoke find
find-revoke key devices id h = elim (Option-cases (lookup key devices)) [
  | inl e ↦ absurd (ground (arith, e))
  | inr (d, e) ↦
      (d, e, ground (arith, e, lookup-put key id (record d { is_revoked = true }) devices))
]

-- A device is there and revoked.
abbrev pub IsRevoked : DeviceRegistry → String → Type 0
IsRevoked devices id = (d : PairedDevice) × (find devices id ≡ some d) × (d.is_revoked ≡ true)

pair-IsRevoked :
    (d : PairedDevice) (devices : DeviceRegistry) (id : String) {next : DeviceRegistry}
    → pair d devices ≡ ok next
    → IsRevoked devices id
    → IsRevoked next id
pair-IsRevoked d devices id h (x, e, r) =
    let (_, n, f) = find-pair d devices id h in
    elim (text-cases d.id id) [
      | inl p ↦ absurd (ground (arith, e, n, ap (find devices) p))
      | inr p ↦ (x, ground (arith, f, p, e), r)
    ]

revoke-IsRevoked :
    (key : String) (devices : DeviceRegistry) (id : String) {next : DeviceRegistry}
    → revoke key devices ≡ ok next
    → IsRevoked devices id
    → IsRevoked next id
revoke-IsRevoked key devices id h (x, e, r) =
    let (d, k, f) = find-revoke key devices id h in
    elim (Bool-cases (str_eq key id)) [
      | inl p ↦ (record d { is_revoked = true }, ground (arith, f, p), refl)
      | inr p ↦ (x, ground (arith, f, p, e), r)
    ]

step-IsRevoked :
    (devices : DeviceRegistry) (c : RegistryCall) (id : String)
    → IsRevoked devices id
    → IsRevoked (registry_step devices c) id
step-IsRevoked devices (pair_device d) id h = elim (Outcome-cases (pair d devices)) [
  | inl (next, e) ↦ rw e (pair-IsRevoked d devices id e h)
  | inr (x, e) ↦ rw e h
]
step-IsRevoked devices (revoke_device key) id h = elim (Outcome-cases (revoke key devices)) [
  | inl (next, e) ↦ rw e (revoke-IsRevoked key devices id e h)
  | inr (x, e) ↦ rw e h
]

pub run-IsRevoked :
    (cs : List RegistryCall) (devices : DeviceRegistry) (id : String)
    → IsRevoked devices id
    → IsRevoked (registry_run cs devices) id
run-IsRevoked [] devices id h = h
run-IsRevoked (c ∷ cs) devices id h =
    run-IsRevoked cs (registry_step devices c) id (step-IsRevoked devices c id h)

-- A revoked device's certificate is not accepted.
pub verify-IsRevoked :
    (devices : DeviceRegistry) (c : PeerCertificate) (now : ℕ)
    → IsRevoked devices c.device_id
    → is_accepted (verify devices c now) ≡ false
unfolding verify_device
verify-IsRevoked devices c now (d, e, r) = ground (arith, verify_found devices c now e, r)

-- Once a device is revoked, no certificate in its name is accepted again, whatever devices are paired
-- or revoked afterwards.
pub revoke-final :
    (key : String) (devices : DeviceRegistry) {next : DeviceRegistry}
    → revoke key devices ≡ ok next
    → (cs : List RegistryCall) (c : PeerCertificate) (now : ℕ) → c.device_id ≡ key
    → is_accepted (verify (registry_run cs next) c now) ≡ false
revoke-final key devices {next} h cs c now e =
    let (d, k, f) = find-revoke key devices key h in
    let r : IsRevoked next key =
      (record d { is_revoked = true }, ground (arith, f, same_text key), refl) in
    verify-IsRevoked (registry_run cs next) c now (
      subst (λ (id : String). IsRevoked (registry_run cs next) id) (sym e)
        (run-IsRevoked cs next key r))

-- What `pair` has checked of a device that is in the registry.
pub record IsPaired (id : String) (d : PairedDevice) : Type 0 where
  pub keyed : d.id ≡ id
  pub canonical : is_canonical_fingerprint d.fingerprint ≡ true
  pub named : d.certificate.device_id ≡ id
  pub certified : d.certificate.fingerprint ≡ d.fingerprint
  pub lives : d.certificate.not_before < d.certificate.not_after

abbrev pub AllPaired : DeviceRegistry → Type 0
AllPaired devices = (id : String) (d : PairedDevice) → find devices id ≡ some d → IsPaired id d

check_device-IsPaired : (d : PairedDevice) → check_device d ≡ ok tt → IsPaired d.id d
unfolding check_device
check_device-IsPaired d h =
    let e = eq_iff d.certificate.device_id d.id in
    record {
      keyed = refl;
      canonical = ground arith;
      named = ground (arith, e);
      certified = ground (arith, bytes_eq_sound d.certificate.fingerprint d.fingerprint);
      lives = ground arith;
    }

registry_step-AllPaired :
    (devices : DeviceRegistry) (c : RegistryCall)
    → AllPaired devices
    → AllPaired (registry_step devices c)
registry_step-AllPaired devices (pair_device x) h = elim (Outcome-cases (pair x devices)) [
  | inl (next, e) ↦ rw e (λ id d k.
      let (c, n, f) = find-pair x devices id e in
      elim (text-cases x.id id) [
        | inl p ↦
            let q : x ≡ d = ground (arith, f, k, eq_iff x.id id) in
            let w : IsPaired id x =
              subst (λ (i : String). IsPaired i x) p (check_device-IsPaired x c) in
            subst (λ (y : PairedDevice). IsPaired id y) q w
        | inr p ↦ h id d (ground (arith, f, p, k))
      ])
  | inr (y, e) ↦ rw e h
]
registry_step-AllPaired devices (revoke_device key) h = elim (Outcome-cases (revoke key devices)) [
  | inl (next, e) ↦ rw e (λ id d k.
      let (x, n, f) = find-revoke key devices id e in
      elim (text-cases key id) [
        | inl p ↦
            let w = h id x (subst (λ (i : String). find devices i ≡ some x) p n) in
            let q : record x { is_revoked = true } ≡ d = ground (arith, f, k, eq_iff key id) in
            let v : IsPaired id (record x { is_revoked = true }) = record {
              keyed = w.keyed;
              canonical = w.canonical;
              named = w.named;
              certified = w.certified;
              lives = w.lives;
            } in
            subst (λ (y : PairedDevice). IsPaired id y) q v
        | inr p ↦ h id d (ground (arith, f, p, k))
      ])
  | inr (y, e) ↦ rw e h
]

run-AllPaired :
    (cs : List RegistryCall) (devices : DeviceRegistry)
    → AllPaired devices
    → AllPaired (registry_run cs devices)
run-AllPaired [] devices h = h
run-AllPaired (c ∷ cs) devices h =
    run-AllPaired cs (registry_step devices c) (registry_step-AllPaired devices c h)

find_nothing : AllPaired []
unfolding find lookup
find_nothing id d k = absurd (ground arith)

-- However a registry came about from an empty one, each of its devices stands under its own id, has a
-- canonical fingerprint, and has a certificate in its own name, with its fingerprint and a lifetime
-- that is not empty.
pub registry_run-IsPaired :
    (cs : List RegistryCall) (id : String) (d : PairedDevice)
    → find (registry_run cs []) id ≡ some d
    → IsPaired id d
registry_run-IsPaired cs = run-AllPaired cs [] find_nothing
