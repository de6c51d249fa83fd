-- ===== src/Transport/Fallback.antt =====
-- EncryptedFallbackTransport and its connectors of transport/src/encrypted_fallback.cpp. The two
-- planes are interfaces that this code only calls: each has evidence about its peer, and its calls
-- may throw. A wait is in milliseconds.
pub mod Binding
use lan_pilot.Common.{
  ℕ, ok, err, true, false, none, some, [], ◌∷◌, if◌then◌else◌, Result, Bool, List, Option,
  runtime_error, throw_if, ◌⨾◌, invalid_argument, not, ltb, length, ◌||◌, ◌==◌, ◌*◌, length_error,
  bytes_eq,
}
use lan_pilot.Transport.Settings.{
  quic, tls_tcp_udp_fallback, TransportEndpoint, TransportMode, QuicTransportSettings,
  validate_transport_endpoint, validate_quic_transport_settings,
}
use lan_pilot.Transport.ChannelHandshake.{nonzero}

pub data EncryptedPlaneProtocol : Type 0 where
  tls13 dtls12 : EncryptedPlaneProtocol

pub record EncryptedPlaneEvidence : Type 0 where
  pub protocol : EncryptedPlaneProtocol
  pub peer_certificate_sha256 : List ℕ
  pub channel_binding : List ℕ
  pub chain_validated : Bool
  pub revocation_checked : Bool

abbrev pub same_protocol : EncryptedPlaneProtocol → EncryptedPlaneProtocol → Bool
same_protocol tls13 tls13 = true
same_protocol tls13 dtls12 = false
same_protocol dtls12 tls13 = false
same_protocol dtls12 dtls12 = true

unfoldable pub validate_plane_evidence :
    EncryptedPlaneEvidence → EncryptedPlaneProtocol → Result (Unit {0})
validate_plane_evidence e expected =
    throw_if
      (not (same_protocol e.protocol expected)
        || not e.chain_validated
        || not e.revocation_checked
        || not (nonzero e.peer_certificate_sha256)
        || not (nonzero e.channel_binding))
      invalid_argument

abbrev pub validate_wait : ℕ → Result (Unit {0})
validate_wait timeout = throw_if (ltb timeout 1 || ltb 300000 timeout) invalid_argument

-- A plane with its evidence.
pub record Plane (P : Type 0) : Type 0 where
  pub plane : P
  pub evidence : EncryptedPlaneEvidence

pub record EncryptedFallbackTransport (R D : Type 0) : Type 0 where
  pub reliable : Plane R
  pub datagrams : Plane D
  pub maximum_datagram_bytes : ℕ

-- The checks of the constructor on planes that are there.
unfoldable pub check_planes :
    EncryptedPlaneEvidence → EncryptedPlaneEvidence → ℕ → Result (Unit {0})
unfolding validate_plane_evidence
check_planes reliable datagrams maximum_datagram_bytes =
    throw_if (ltb maximum_datagram_bytes 256 || ltb (64 * 1024) maximum_datagram_bytes)
      invalid_argument
    ⨾ validate_plane_evidence reliable tls13
    ⨾ validate_plane_evidence datagrams dtls12
    ⨾ throw_if
        (not (bytes_eq reliable.peer_certificate_sha256 datagrams.peer_certificate_sha256)
          || not (bytes_eq reliable.channel_binding datagrams.channel_binding))
        invalid_argument

-- A plane may give a null stream.
abbrev pub given_stream : {S : Type 0} → Result (Option S) → Result S
given_stream (ok (some stream)) = ok stream
given_stream (ok none) = err runtime_error
given_stream (err e) = err e

-- A received datagram has a channel, the number of an enumerator up to pointer, 2.
abbrev pub checked_datagram : ℕ → Result (ℕ × List ℕ) → Result (ℕ × List ℕ)
checked_datagram maximum (err e) = err e
checked_datagram maximum (ok (channel, payload)) =
    throw_if (length payload == 0 || ltb maximum (length payload) || ltb 2 channel) runtime_error
    ⨾ ok (channel, payload)

abbrev pub is_fallback_mode : TransportMode → Bool
is_fallback_mode quic = false
is_fallback_mode tls_tcp_udp_fallback = true

module _ {R D : Type 0} where
  -- The constructor; a null plane is none.
  unfoldable pub new_fallback :
      Option (Plane R) → Option (Plane D) → ℕ → Result (EncryptedFallbackTransport R D)
  unfolding check_planes
  new_fallback none datagrams maximum_datagram_bytes = err invalid_argument
  new_fallback (some r) none maximum_datagram_bytes = err invalid_argument
  new_fallback (some r) (some d) maximum_datagram_bytes =
      check_planes r.evidence d.evidence maximum_datagram_bytes
      ⨾ ok (record { reliable = r; datagrams = d; maximum_datagram_bytes = maximum_datagram_bytes })

  unfoldable pub open_stream :
      {S : Type 0} → (R → Result (Option S)) → EncryptedFallbackTransport R D → Result S
  open_stream open_plane t = given_stream (open_plane t.reliable.plane)

  unfoldable pub accept_stream :
      {S : Type 0} → (R → Result (Option S)) → ℕ → EncryptedFallbackTransport R D → Result S
  accept_stream accept_plane timeout t =
      validate_wait timeout ⨾ given_stream (accept_plane t.reliable.plane)

  unfoldable pub send_datagram :
      (D → List ℕ → Result (Unit {0})) → List ℕ → EncryptedFallbackTransport R D → Result (Unit {0})
  send_datagram send_plane payload t =
      throw_if (length payload == 0 || ltb t.maximum_datagram_bytes (length payload)) length_error
      ⨾ send_plane t.datagrams.plane payload

  unfoldable pub receive_datagram :
      (D → Result (ℕ × List ℕ)) → ℕ → EncryptedFallbackTransport R D → Result (ℕ × List ℕ)
  receive_datagram receive_plane timeout t =
      validate_wait timeout
      ⨾ checked_datagram t.maximum_datagram_bytes (receive_plane t.datagrams.plane)

-- EncryptedFallbackConnector::connect, with what the provider gives for either plane.
module _ {R D : Type 0}
    (connect_tls13 : TransportEndpoint → QuicTransportSettings → Result (Option (Plane R)))
    (connect_dtls12 : TransportEndpoint → QuicTransportSettings → Result (Option (Plane D))) where
  unfoldable pub connect_fallback :
      TransportMode
      → TransportEndpoint
      → QuicTransportSettings
      → Result (EncryptedFallbackTransport R D)
  unfolding new_fallback
  connect_fallback mode endpoint settings =
      throw_if
        (not (is_fallback_mode mode) || not settings.enable_fallback || not settings.require_tls13)
        invalid_argument
      ⨾ validate_transport_endpoint endpoint
      ⨾ validate_quic_transport_settings settings
      ⨾ elim (connect_tls13 endpoint settings) [
        | err e ↦ err e
        | ok r ↦ elim (connect_dtls12 endpoint settings) [
          | err e ↦ err e
          | ok d ↦ new_fallback r d settings.maximum_datagram_bytes
        ]
      ]
