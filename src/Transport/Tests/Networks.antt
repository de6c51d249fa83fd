-- ===== src/Transport/Tests/Networks.antt =====
-- Runs of the negotiation, of the resilient transport and of the fallback.
use lan_pilot.Common.{
  ℕ, ok, true, false, none, some, [], ◌∷◌, if◌then◌else◌, refl, replicate, List, Result, Option,
  ◌≡◌, ◌+◌, arith, contains, bytes_eq, ◌&&◌, ◌≤◌,
}
use lan_pilot.Transport.Settings.{
  quic, tls_tcp_udp_fallback, lan, wifi, TransportEndpoint, QuicTransportSettings, disconnected,
  TransportMode, validate_transport_endpoint, validate_quic_transport_settings,
}
use lan_pilot.Transport.Resilient.{
  ResilientTransport, TransportConnector, is_ready, new_transport, close,
}
use lan_pilot.Transport.Fallback.{
  tls13, dtls12, EncryptedFallbackTransport, connect_fallback, EncryptedPlaneProtocol, Plane,
  EncryptedPlaneEvidence, new_fallback, check_planes, validate_plane_evidence,
}
use lan_pilot.Transport.Resilient.Recovery.{
  connect_call, network_call, connects, TransportCall, connects-fallback,
}
use lan_pilot.Transport.Resilient.States.{is_fallback}
use lan_pilot.Transport.Features.{
  NegotiatedFeatures, negotiate_features, FeatureOffer, shared_offer, validate_offer,
  set_intersection, feature_h264, feature_resolution_4k, feature_fps_120,
}
use lan_pilot.Transport.Fallback.Binding.{PeerBound, connect_fallback-PeerBound}
use lan_pilot.Transport.Features.Agreement.{
  negotiate_features_comm, Within, negotiate_features-Within,
}

abbrev host_offer : FeatureOffer
host_offer = record {
  minimum_protocol_version = 1;
  maximum_protocol_version = 3;
  video_features = 0 ∷ 3 ∷ 5 ∷ [];
  maximum_width = 3840;
  maximum_height = 2160;
  maximum_frames_per_second = 120;
  datagrams = true;
}

abbrev viewer_offer : FeatureOffer
viewer_offer = record {
  minimum_protocol_version = 2;
  maximum_protocol_version = 4;
  video_features = 0 ∷ 4 ∷ 5 ∷ [];
  maximum_width = 2560;
  maximum_height = 1440;
  maximum_frames_per_second = 144;
  datagrams = true;
}

abbrev agreed : NegotiatedFeatures
agreed = record {
  protocol_version = 3;
  video_features = 0 ∷ 5 ∷ [];
  maximum_width = 1920;
  maximum_height = 1080;
  maximum_frames_per_second = 60;
  datagrams = true;
}

agree : negotiate_features host_offer viewer_offer ≡ ok agreed
unfolding negotiate_features shared_offer validate_offer set_intersection
agree = refl

negotiate_features_comm_example :
    negotiate_features host_offer viewer_offer ≡ negotiate_features viewer_offer host_offer
negotiate_features_comm_example =
    negotiate_features_comm host_offer viewer_offer (omega arith) (omega arith)

negotiate_features-Within_example :
    Within host_offer agreed
    × Within viewer_offer agreed
    × (contains agreed.video_features 5
        ≡ (contains host_offer.video_features 5 && contains viewer_offer.video_features 5))
    × (contains agreed.video_features feature_h264 ≡ true)
    × (agreed.maximum_width
        ≤ (if contains agreed.video_features feature_resolution_4k then 3840 else 1920))
    × (agreed.maximum_height
        ≤ (if contains agreed.video_features feature_resolution_4k then 2160 else 1080))
    × (agreed.maximum_frames_per_second
        ≤ (if contains agreed.video_features feature_fps_120 then 120 else 60))
negotiate_features-Within_example = negotiate_features-Within host_offer viewer_offer agree 5

abbrev endpoint : TransportEndpoint
endpoint = record { host = "10.0.0.2"; port = 7443; path = lan }

abbrev settings : QuicTransportSettings
settings = record {
  alpn = "rwn/1";
  require_tls13 = true;
  enable_datagrams = true;
  enable_connection_migration = true;
  enable_fallback = true;
  maximum_datagram_bytes = 1400;
  idle_timeout = 30;
  keep_alive = 5;
  primary_failures_before_fallback = 2;
}

-- The world counts the calls; the primary connection is never made.
abbrev blocked_connect_by :
    ℕ → TransportMode → TransportEndpoint → QuicTransportSettings → ℕ × Option ℕ
blocked_connect_by w quic e s = (w + 1, none)
blocked_connect_by w tls_tcp_udp_fallback e s = (w + 1, some w)

abbrev blocked : TransportConnector ℕ ℕ
blocked = record { connect_by = blocked_connect_by; migrate = λ w c e. (w, false) }

abbrev idle : ResilientTransport ℕ ℕ
idle = record {
  world = 0;
  endpoint = endpoint;
  settings = settings;
  active = none;
  state = disconnected;
  mode = none;
  recovery = record {
    session_id = "";
    workspace_id = "";
    workspace_revision = 0;
    active_build_ids = [];
    audit_sequence = 0;
  };
  telemetry = record {
    primary_connection_attempts = 0;
    primary_connection_failures = 0;
    fallback_connections = 0;
    migration_attempts = 0;
    migration_failures = 0;
    reconnects = 0;
    streams_opened = 0;
    streams_accepted = 0;
    datagrams_sent = 0;
    datagram_bytes_sent = 0;
    datagrams_received = 0;
    datagram_bytes_received = 0;
  };
  events = [];
  last_event_at = none;
  consecutive_primary_failures = 0;
}

idle_made : new_transport 0 endpoint settings ≡ ok idle
unfolding new_transport validate_transport_endpoint validate_quic_transport_settings
idle_made = refl

abbrev calls : List TransportCall
calls =
    connect_call 3
    ∷ connect_call 4
    ∷ network_call (record endpoint { path = wifi }) 5
    ∷ connect_call 2
    ∷ []

closes : (close 9 idle).1 ≡ ok tt
unfolding close
closes = refl

connects-fallback_example :
    (is_ready (connects blocked (3 ∷ 4 ∷ []) idle).state ≡ true)
    × (is_fallback (connects blocked (3 ∷ 4 ∷ []) idle).mode ≡ true)
connects-fallback_example =
    connects-fallback blocked 0 endpoint settings idle_made refl (λ w e. (refl, (w, refl)))
      (3 ∷ 4 ∷ []) (refl, (refl, tt)) refl

abbrev shown : EncryptedPlaneProtocol → EncryptedPlaneEvidence
shown protocol = record {
  protocol = protocol;
  peer_certificate_sha256 = replicate 32 7;
  channel_binding = replicate 32 9;
  chain_validated = true;
  revocation_checked = true;
}

abbrev stream_plane : Plane ℕ
stream_plane = record { plane = 1; evidence = shown tls13 }

abbrev datagram_plane : Plane ℕ
datagram_plane = record { plane = 2; evidence = shown dtls12 }

abbrev give_streams : TransportEndpoint → QuicTransportSettings → Result (Option (Plane ℕ))
give_streams e s = ok (some stream_plane)

abbrev give_datagrams : TransportEndpoint → QuicTransportSettings → Result (Option (Plane ℕ))
give_datagrams e s = ok (some datagram_plane)

abbrev bound_transport : EncryptedFallbackTransport ℕ ℕ
bound_transport = record {
  reliable = stream_plane;
  datagrams = datagram_plane;
  maximum_datagram_bytes = 1400;
}

bound_made :
    connect_fallback give_streams give_datagrams tls_tcp_udp_fallback endpoint settings
    ≡ ok bound_transport
unfolding connect_fallback new_fallback check_planes validate_plane_evidence bytes_eq
    validate_transport_endpoint validate_quic_transport_settings
bound_made = refl

connect_fallback-PeerBound_example :
    PeerBound bound_transport
    × (tls_tcp_udp_fallback ≡ tls_tcp_udp_fallback)
    × (settings.enable_fallback ≡ true)
connect_fallback-PeerBound_example =
    connect_fallback-PeerBound give_streams give_datagrams tls_tcp_udp_fallback endpoint settings
      bound_made
