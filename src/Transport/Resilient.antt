-- ===== src/Transport/Resilient.antt =====
-- ResilientTransport of transport/src/resilient_transport.cpp. The connector is an interface that
-- this code only calls: its connect gives a transport, or nothing where it throws or returns null,
-- and its migrate tells whether it succeeded, false where it throws; each may change the world that
-- it runs in. `now` is a number of ticks.
pub mod States
pub mod Recovery
use Prim.Native.String.{String}
use lan_pilot.Common.{
  ℕ, ok, err, true, false, none, some, [], ◌∷◌, if◌then◌else◌, List, ◌++◌, Option, Result, Bool,
  ◌+◌, logic_error, length, ltb, ◌≡◌, ◌&&◌, runtime_error, ◌%◌, ◌==◌, invalid_argument, ◌⨾◌, ◌^◌,
  not, leb, ◌||◌, refl, length_error,
}
use lan_pilot.Transport.Settings.{
  disconnected, connecting, ready, migrating, closed, quic, tls_tcp_udp_fallback, RecoveryCursor,
  TransportEndpoint, ConnectionState, valid_identifier, TransportMode, NetworkPath,
  validate_recovery, QuicTransportSettings, validate_transport_endpoint,
  validate_quic_transport_settings,
}

-- The reason codes of the events, which are literals in the code.
pub data ReasonCode : Type 0 where
  primary_connected fallback_connected primary_failed fallback_failed : ReasonCode
  connect_started migration_started migration_succeeded migration_failed : ReasonCode
  reconnect_started closed_by_caller : ReasonCode

unfoldable pub reason_text : ReasonCode → String
reason_text primary_connected = "primary_connected"
reason_text fallback_connected = "fallback_connected"
reason_text primary_failed = "primary_failed"
reason_text fallback_failed = "fallback_failed"
reason_text connect_started = "connect_started"
reason_text migration_started = "migration_started"
reason_text migration_succeeded = "migration_succeeded"
reason_text migration_failed = "migration_failed"
reason_text reconnect_started = "reconnect_started"
reason_text closed_by_caller = "closed"

-- `append_event` refuses none of them.
pub reason_text-valid : (r : ReasonCode) → valid_identifier (reason_text r) ≡ true
unfolding reason_text valid_identifier
reason_text-valid primary_connected = refl
reason_text-valid fallback_connected = refl
reason_text-valid primary_failed = refl
reason_text-valid fallback_failed = refl
reason_text-valid connect_started = refl
reason_text-valid migration_started = refl
reason_text-valid migration_succeeded = refl
reason_text-valid migration_failed = refl
reason_text-valid reconnect_started = refl
reason_text-valid closed_by_caller = refl

pub record TransportEvent : Type 0 where
  pub occurred_at : ℕ
  pub state : ConnectionState
  pub mode : Option TransportMode
  pub path : NetworkPath
  pub reason_code : ReasonCode

pub record TransportTelemetry : Type 0 where
  pub primary_connection_attempts : ℕ
  pub primary_connection_failures : ℕ
  pub fallback_connections : ℕ
  pub migration_attempts : ℕ
  pub migration_failures : ℕ
  pub reconnects : ℕ
  pub streams_opened : ℕ
  pub streams_accepted : ℕ
  pub datagrams_sent : ℕ
  pub datagram_bytes_sent : ℕ
  pub datagrams_received : ℕ
  pub datagram_bytes_received : ℕ

pub record TransportConnector (W T : Type 0) : Type 0 where
  pub connect_by : W → TransportMode → TransportEndpoint → QuicTransportSettings → W × Option T
  pub migrate : W → T → TransportEndpoint → W × Bool

pub record ResilientTransport (W T : Type 0) : Type 0 where
  pub world : W
  pub endpoint : TransportEndpoint
  pub settings : QuicTransportSettings
  pub active : Option T
  pub state : ConnectionState
  pub mode : Option TransportMode
  pub recovery : RecoveryCursor
  pub telemetry : TransportTelemetry
  pub events : List TransportEvent
  pub last_event_at : Option ℕ
  pub consecutive_primary_failures : ℕ

-- `++counter` on an unsigned 64-bit number.
abbrev pub count : ℕ → ℕ
count n = (n + 1) % 2 ^ 64

abbrev pub is_closed : ConnectionState → Bool
is_closed closed = true
is_closed disconnected = false
is_closed connecting = false
is_closed ready = false
is_closed migrating = false

abbrev pub is_ready : ConnectionState → Bool
is_ready ready = true
is_ready disconnected = false
is_ready connecting = false
is_ready migrating = false
is_ready closed = false

abbrev pub is_quic : Option TransportMode → Bool
is_quic (some quic) = true
is_quic (some tls_tcp_udp_fallback) = false
is_quic none = false

abbrev pub has_some {ℓ} : {A : Type ℓ} → Option A → Bool
has_some (some a) = true
has_some none = false

abbrev pub is_past : Option ℕ → ℕ → Bool
is_past none now = false
is_past (some last) now = ltb now last

module _ {W T : Type 0} where
  abbrev pub append_event : ℕ → ReasonCode → ResilientTransport W T → ResilientTransport W T
  append_event now reason t = record t {
    events =
        t.events
        ++ (record {
          occurred_at = now;
          state = t.state;
          mode = t.mode;
          path = t.endpoint.path;
          reason_code = reason;
        })
          ∷ [];
  }

  -- The test of `validate_event_time`, and the state after it.
  abbrev pub bad_event_time : ℕ → ResilientTransport W T → Bool
  bad_event_time now t = now == 0 || is_past t.last_event_at now

  abbrev pub at_time : ℕ → ResilientTransport W T → ResilientTransport W T
  at_time now t = record t { last_event_at = some now }

  -- No connection is held.
  abbrev pub dropped : ResilientTransport W T → ResilientTransport W T
  dropped t = record t { active = none; mode = none; state = disconnected }

  abbrev pub restarted : ResilientTransport W T → ResilientTransport W T
  restarted t = record (dropped t) {
    telemetry = record t.telemetry { reconnects = count t.telemetry.reconnects };
  }

  abbrev pub migration_begun : ℕ → ResilientTransport W T → ResilientTransport W T
  migration_begun now t = append_event now migration_started (record t {
    state = migrating;
    telemetry = record t.telemetry { migration_attempts = count t.telemetry.migration_attempts };
  })

  abbrev pub migration_lost : ℕ → W → ResilientTransport W T → ResilientTransport W T
  migration_lost now world t = append_event now migration_failed (record t {
    world = world;
    telemetry = record t.telemetry { migration_failures = count t.telemetry.migration_failures };
  })

  unfoldable pub require_ready : ResilientTransport W T → Bool
  require_ready t = is_ready t.state && has_some t.active && has_some t.mode

module _ {W T : Type 0} (connector : TransportConnector W T) where
  -- `try_connect` on the primary connection and on the fallback.
  unfoldable pub try_primary : ℕ → ResilientTransport W T → ResilientTransport W T × Bool
  try_primary now t =
      let n = t.telemetry in
      let attempted = record n {
        primary_connection_attempts = count n.primary_connection_attempts;
      } in
      let failed = record attempted {
        primary_connection_failures = count n.primary_connection_failures;
      } in
      let (world, connection) = connector.connect_by t.world quic t.endpoint t.settings in
      elim connection [
        | some c ↦ (
          append_event now primary_connected (record t {
            world = world;
            telemetry = attempted;
            active = some c;
            mode = some quic;
            state = ready;
            consecutive_primary_failures = 0;
          }),
          true,
        )
        | none ↦ (
          append_event now primary_failed (record (dropped t) {
            world = world;
            telemetry = failed;
            consecutive_primary_failures = count t.consecutive_primary_failures;
          }),
          false,
        )
      ]

  unfoldable pub try_fallback : ℕ → ResilientTransport W T → ResilientTransport W T × Bool
  try_fallback now t =
      let n = t.telemetry in
      let (world, connection) =
        connector.connect_by t.world tls_tcp_udp_fallback t.endpoint t.settings in
      elim connection [
        | some c ↦ (
          append_event now fallback_connected (record t {
            world = world;
            telemetry = record n { fallback_connections = count n.fallback_connections };
            active = some c;
            mode = some tls_tcp_udp_fallback;
            state = ready;
          }),
          true,
        )
        | none ↦ (append_event now fallback_failed (record (dropped t) { world = world }), false)
      ]

  abbrev pub may_fall_back : ResilientTransport W T → Bool
  may_fall_back t =
      t.settings.enable_fallback
      && leb t.settings.primary_failures_before_fallback t.consecutive_primary_failures

  -- `connect` after its guards.
  unfoldable pub attempt : ℕ → ResilientTransport W T → ResilientTransport W T × Result (Unit {0})
  unfolding try_primary try_fallback
  attempt now t =
      let begun = append_event now connect_started (record t { state = connecting }) in
      let (primary, connected) = try_primary now begun in
      let (fallback, reached) = try_fallback now primary in
      if connected
      then (primary, ok tt)
      else if may_fall_back primary
      then (if reached then (fallback, ok tt) else (fallback, err runtime_error))
      else (primary, err runtime_error)

  unfoldable pub connect : ℕ → ResilientTransport W T → ResilientTransport W T × Result (Unit {0})
  unfolding attempt
  connect now t =
      if bad_event_time now t
      then (t, err invalid_argument)
      else if is_closed t.state
      then (at_time now t, err logic_error)
      else if is_ready t.state
      then (at_time now t, ok tt)
      else attempt now (at_time now t)

  -- The connection is given up and made anew.
  unfoldable pub reconnect_from :
      ℕ → ResilientTransport W T → ResilientTransport W T × Result (Unit {0})
  unfolding connect
  reconnect_from now t = connect now (restarted t)

  -- The primary connection is asked to migrate.
  unfoldable pub migrate_to :
      ℕ → T → ResilientTransport W T → ResilientTransport W T × Result (Unit {0})
  unfolding reconnect_from
  migrate_to now c t =
      let begun = migration_begun now t in
      let (world, succeeded) = connector.migrate t.world c t.endpoint in
      if succeeded
      then (
        append_event now migration_succeeded (record begun { world = world; state = ready }),
        ok tt,
      )
      else reconnect_from now (migration_lost now world begun)

  unfoldable pub network_changed :
      TransportEndpoint → ℕ → ResilientTransport W T → ResilientTransport W T × Result (Unit {0})
  unfolding migrate_to
  network_changed endpoint now t =
      let moved = record (at_time now t) { endpoint = endpoint } in
      elim (validate_transport_endpoint endpoint) [
        | err e ↦ (t, err e)
        | ok _ ↦
            if bad_event_time now t
            then (t, err invalid_argument)
            else if not (require_ready t)
            then (at_time now t, err logic_error)
            else elim t.active [
              | none ↦ (at_time now t, err logic_error)
              | some c ↦
                  if is_quic t.mode && t.settings.enable_connection_migration
                  then migrate_to now c moved
                  else reconnect_from now moved
            ]
      ]

  unfoldable pub reconnect : ℕ → ResilientTransport W T → ResilientTransport W T × Result (Unit {0})
  unfolding connect
  reconnect now t =
      if bad_event_time now t
      then (t, err invalid_argument)
      else if is_closed t.state
      then (at_time now t, err logic_error)
      else connect now (append_event now reconnect_started (restarted (at_time now t)))

module _ {W T : Type 0} where
  unfoldable pub close : ℕ → ResilientTransport W T → ResilientTransport W T × Result (Unit {0})
  close now t = if bad_event_time now t then (t, err invalid_argument) else (
    append_event now closed_by_caller (record (dropped (at_time now t)) { state = closed }),
    ok tt,
  )

  unfoldable pub set_recovery_cursor :
      RecoveryCursor → ResilientTransport W T → ResilientTransport W T × Result (Unit {0})
  set_recovery_cursor cursor t = elim (validate_recovery cursor) [
    | ok _ ↦ (record t { recovery = cursor }, ok tt)
    | err e ↦ (t, err e)
  ]

  -- The active transport may return null or throw.
  unfoldable pub open_stream :
      {S : Type 0}
      → (T → Result (Option S))
      → ResilientTransport W T
      → ResilientTransport W T × Result S
  open_stream transport t =
      let n = t.telemetry in
      elim t.active [
        | none ↦ (t, err logic_error)
        | some c ↦ if not (require_ready t) then (t, err logic_error) else elim (transport c) [
          | err e ↦ (t, err e)
          | ok none ↦ (t, err runtime_error)
          | ok (some stream) ↦ (
            record t { telemetry = record n { streams_opened = count n.streams_opened } },
            ok stream,
          )
        ]
      ]

  -- The active transport may not be able to accept; else as above.
  unfoldable pub accept_stream :
      {S : Type 0}
      → (T → Option (Result (Option S)))
      → ℕ
      → ResilientTransport W T
      → ResilientTransport W T × Result S
  accept_stream transport timeout t =
      let n = t.telemetry in
      elim t.active [
        | none ↦ (t, err logic_error)
        | some c ↦
            if not (require_ready t)
            then (t, err logic_error)
            else if ltb timeout 1 || ltb 300000 timeout
            then (t, err invalid_argument)
            else elim (transport c) [
              | none ↦ (t, err runtime_error)
              | some (err e) ↦ (t, err e)
              | some (ok none) ↦ (t, err runtime_error)
              | some (ok (some stream)) ↦ (
                record t { telemetry = record n { streams_accepted = count n.streams_accepted } },
                ok stream,
              )
            ]
      ]

  -- The active transport may throw.
  unfoldable pub send_datagram :
      (T → List ℕ → Result (Unit {0}))
      → List ℕ
      → ResilientTransport W T
      → ResilientTransport W T × Result (Unit {0})
  send_datagram transport payload t =
      let n = t.telemetry in
      let size = length payload in
      elim t.active [
        | none ↦ (t, err logic_error)
        | some c ↦
            if not (require_ready t)
            then (t, err logic_error)
            else if not t.settings.enable_datagrams
                || size == 0
                || ltb t.settings.maximum_datagram_bytes size
            then (t, err length_error)
            else elim (transport c payload) [
              | err e ↦ (t, err e)
              | ok _ ↦ (
                record t {
                  telemetry = record n {
                    datagrams_sent = count n.datagrams_sent;
                    datagram_bytes_sent = (n.datagram_bytes_sent + size) % 2 ^ 64;
                  };
                },
                ok tt,
              )
            ]
      ]

  -- The active transport may not be able to receive, and may throw; a wait is in milliseconds.
  unfoldable pub receive_datagram :
      (T → Option (Result (List ℕ)))
      → ℕ
      → ResilientTransport W T
      → ResilientTransport W T × Result (List ℕ)
  receive_datagram transport timeout t =
      let n = t.telemetry in
      elim t.active [
        | none ↦ (t, err logic_error)
        | some c ↦
            if not (require_ready t)
            then (t, err logic_error)
            else if not t.settings.enable_datagrams || ltb timeout 1 || ltb 300000 timeout
            then (t, err invalid_argument)
            else elim (transport c) [
              | none ↦ (t, err runtime_error)
              | some (err e) ↦ (t, err e)
              | some (ok payload) ↦
                  let size = length payload in
                  if size == 0 || ltb t.settings.maximum_datagram_bytes size
                  then (t, err length_error)
                  else (
                    record t {
                      telemetry = record n {
                        datagrams_received = count n.datagrams_received;
                        datagram_bytes_received = (n.datagram_bytes_received + size) % 2 ^ 64;
                      };
                    },
                    ok payload,
                  )
            ]
      ]

  -- The constructor.
  unfoldable pub new_transport :
      W → TransportEndpoint → QuicTransportSettings → Result (ResilientTransport W T)
  new_transport world endpoint settings =
      validate_transport_endpoint endpoint
      ⨾ validate_quic_transport_settings settings
      ⨾ ok (record {
        world = world;
        endpoint = endpoint;
        settings = settings;
        active = none;
        state = disconnected;
        mode = none;
        recovery = record {
          session_id = "";
          workspace_id = "";
          workspace_revision = 0;
          active_build_ids = [];
          audit_sequence = 0;
        };
        telemetry = record {
          primary_connection_attempts = 0;
          primary_connection_failures = 0;
          fallback_connections = 0;
          migration_attempts = 0;
          migration_failures = 0;
          reconnects = 0;
          streams_opened = 0;
          streams_accepted = 0;
          datagrams_sent = 0;
          datagram_bytes_sent = 0;
          datagrams_received = 0;
          datagram_bytes_received = 0;
        };
        events = [];
        last_event_at = none;
        consecutive_primary_failures = 0;
      })
