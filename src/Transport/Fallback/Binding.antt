-- ===== src/Transport/Fallback/Binding.antt =====
-- What a fallback transport of transport/src/encrypted_fallback.cpp has shown of its peer.
use lan_pilot.Common.{
  ℕ, ok, true, none, some, ◌≡◌, Option, arith, ◌≤◌, Result, Result-cases, inr, inl, subst,
  bytes_eq_sound, Outcome-cases,
}
use lan_pilot.Transport.Fallback.{
  tls13, dtls12, EncryptedPlaneEvidence, EncryptedFallbackTransport, validate_plane_evidence,
  new_fallback, connect_fallback, check_planes, EncryptedPlaneProtocol, same_protocol, Plane,
}
use lan_pilot.Transport.Settings.{
  TransportEndpoint, QuicTransportSettings, TransportMode, tls_tcp_udp_fallback,
  validate_transport_endpoint, validate_quic_transport_settings,
}
use lan_pilot.Transport.ChannelHandshake.{nonzero}

-- Evidence of a plane of this protocol: a validated chain, checked for revocation, and a certificate
-- digest and a channel binding that are not zero.
pub record Shown (e : EncryptedPlaneEvidence) (expected : EncryptedPlaneProtocol) : Type 0 where
  pub same : same_protocol e.protocol expected ≡ true
  pub validated : e.chain_validated ≡ true
  pub checked : e.revocation_checked ≡ true
  pub certified : nonzero e.peer_certificate_sha256 ≡ true
  pub bound : nonzero e.channel_binding ≡ true

validate_plane_evidence-Shown :
    (e : EncryptedPlaneEvidence) (expected : EncryptedPlaneProtocol)
    → validate_plane_evidence e expected ≡ ok tt
    → Shown e expected
unfolding validate_plane_evidence
validate_plane_evidence-Shown e expected h = record {
  same = ground arith;
  validated = ground arith;
  checked = ground arith;
  certified = ground arith;
  bound = ground arith;
}

-- The two planes of a transport belong to one peer and one handshake.
pub record PeerBound {R D : Type 0} (t : EncryptedFallbackTransport R D) : Type 0 where
  pub stream_plane : Shown t.reliable.evidence tls13
  pub datagram_plane : Shown t.datagrams.evidence dtls12
  pub one_peer :
      t.reliable.evidence.peer_certificate_sha256 ≡ t.datagrams.evidence.peer_certificate_sha256
  pub one_binding : t.reliable.evidence.channel_binding ≡ t.datagrams.evidence.channel_binding
  pub bounded : (256 ≤ t.maximum_datagram_bytes) × (t.maximum_datagram_bytes ≤ 65536)

new_fallback-PeerBound :
    {R D : Type 0} (r : Plane R) (d : Plane D) (n : ℕ) {t : EncryptedFallbackTransport R D}
    → new_fallback (some r) (some d) n ≡ ok t
    → PeerBound t
unfolding new_fallback check_planes
new_fallback-PeerBound {R} {D} r d n {t} h =
    elim (Result-cases (validate_plane_evidence r.evidence tls13)) [
      | inr (x, a) ↦ absurd (ground (arith, a, h))
      | inl a ↦ elim (Result-cases (validate_plane_evidence d.evidence dtls12)) [
        | inr (x, b) ↦ absurd (ground (arith, a, b, h))
        | inl b ↦
            let u : EncryptedFallbackTransport R D = record {
              reliable = r;
              datagrams = d;
              maximum_datagram_bytes = n;
            } in
            let e : u ≡ t = ground (arith, a, b, h) in
            subst (λ (x : EncryptedFallbackTransport R D). PeerBound x) e
              (record {
                stream_plane = validate_plane_evidence-Shown r.evidence tls13 a;
                datagram_plane = validate_plane_evidence-Shown d.evidence dtls12 b;
                one_peer =
                    bytes_eq_sound r.evidence.peer_certificate_sha256
                      d.evidence.peer_certificate_sha256 (ground (arith, a, b, h));
                one_binding =
                    bytes_eq_sound r.evidence.channel_binding d.evidence.channel_binding
                      (ground (arith, a, b, h));
                bounded = (ground (arith, a, b, h), ground (arith, a, b, h));
              })
      ]
    ]

made :
    {R D : Type 0} (r : Option (Plane R)) (d : Option (Plane D)) (n : ℕ)
    {t : EncryptedFallbackTransport R D}
    → new_fallback r d n ≡ ok t
    → PeerBound t
unfolding new_fallback
made none d n h = absurd (cc)
made (some r) none n h = absurd (cc)
made (some r) (some d) n h = new_fallback-PeerBound r d n h

-- Whatever a provider gives, a fallback transport that is connected has a TLS 1.3 plane and a DTLS
-- 1.2 plane that have each shown a validated, unrevoked peer, the same one in the same handshake; it
-- was asked for in the fallback mode with settings that enable it; and its datagrams are bounded.
pub connect_fallback-PeerBound :
    {R D : Type 0}
    (connect_tls13 : TransportEndpoint → QuicTransportSettings → Result (Option (Plane R)))
    (connect_dtls12 : TransportEndpoint → QuicTransportSettings → Result (Option (Plane D)))
    (mode : TransportMode) (endpoint : TransportEndpoint) (settings : QuicTransportSettings)
    {t : EncryptedFallbackTransport R D}
    → connect_fallback connect_tls13 connect_dtls12 mode endpoint settings ≡ ok t
    → PeerBound t × (mode ≡ tls_tcp_udp_fallback) × (settings.enable_fallback ≡ true)
unfolding connect_fallback
connect_fallback-PeerBound connect_tls13 connect_dtls12 mode endpoint settings {t} h =
    elim (Result-cases (validate_transport_endpoint endpoint)) [
      | inr (x, a) ↦ absurd (ground (arith, a, h))
      | inl a ↦ elim (Result-cases (validate_quic_transport_settings settings)) [
        | inr (x, b) ↦ absurd (ground (arith, a, b, h))
        | inl b ↦ elim (Outcome-cases (connect_tls13 endpoint settings)) [
          | inr (x, c) ↦ absurd (ground (arith, a, b, c, h))
          | inl (r, c) ↦ elim (Outcome-cases (connect_dtls12 endpoint settings)) [
            | inr (x, e) ↦ absurd (ground (arith, a, b, c, e, h))
            | inl (d, e) ↦ (
              made r d settings.maximum_datagram_bytes (ground (arith, a, b, c, e, h)),
              ground (arith, a, b, c, e, h),
              ground (arith, a, b, c, e, h),
            )
          ]
        ]
      ]
    ]
