-- ===== src/Transport/Resilient/States.antt =====
-- The states of ResilientTransport of transport/src/resilient_transport.cpp over any calls.
use lan_pilot.Common.{
  ℕ, ok, true, false, none, some, Option, Bool, ◌≡◌, Result-cases, ◌&&◌, leb, ◌↔◌, inr, not, arith,
  Option-cases, inl, Bool-cases, ◌∙◌, refl, Result, err, invalid_argument, logic_error,
}
use lan_pilot.Transport.Settings.{
  disconnected, connecting, ready, migrating, closed, quic, tls_tcp_udp_fallback, ConnectionState,
  QuicTransportSettings, TransportEndpoint, TransportMode, validate_transport_endpoint,
  validate_quic_transport_settings,
}
use lan_pilot.Transport.Resilient.{
  new_transport, TransportConnector, ResilientTransport, attempt, has_some, try_primary,
  try_fallback, is_ready, count, require_ready, network_changed, dropped, reconnect_from,
  migrate_to, connect, reconnect, at_time, bad_event_time, is_quic, is_closed, restarted,
  migration_lost, migration_begun, append_event, reconnect_started,
}

abbrev pub is_fallback : Option TransportMode → Bool
is_fallback (some quic) = false
is_fallback (some tls_tcp_udp_fallback) = true
is_fallback none = false

abbrev pub is_settled : ConnectionState → Bool
is_settled disconnected = true
is_settled connecting = false
is_settled ready = true
is_settled migrating = false
is_settled closed = true

abbrev pub falls_back : QuicTransportSettings → ℕ → Bool
falls_back s failures = s.enable_fallback && leb s.primary_failures_before_fallback failures

module _ {W T : Type 0} where
  -- Between calls a transport is disconnected, ready or closed; it is ready exactly while it holds a
  -- connection, whose mode it knows; and it holds a fallback only if the settings enable it and the
  -- primary connection has failed often enough in a row.
  pub record TransportInv (t : ResilientTransport W T) : Type 0 where
    pub settled : is_settled t.state ≡ true
    pub holds : has_some t.active ≡ is_ready t.state
    pub knows : has_some t.mode ≡ is_ready t.state
    pub earned :
        (is_fallback t.mode && not (falls_back t.settings t.consecutive_primary_failures)) ≡ false

  pub new_transport-TransportInv :
      (world : W) (endpoint : TransportEndpoint) (settings : QuicTransportSettings)
      {t : ResilientTransport W T}
      → new_transport world endpoint settings ≡ ok t
      → TransportInv t
  unfolding new_transport
  new_transport-TransportInv world endpoint settings {t} h =
      elim (Result-cases (validate_transport_endpoint endpoint)) [
        | inr (x, a) ↦ absurd (ground (arith, a, h))
        | inl a ↦ elim (Result-cases (validate_quic_transport_settings settings)) [
          | inr (x, b) ↦ absurd (ground (arith, a, b, h))
          | inl b ↦ record {
            settled = ground (arith, a, b, h);
            holds = ground (arith, a, b, h);
            knows = ground (arith, a, b, h);
            earned = ground (arith, a, b, h);
          }
        ]
      ]

  pub same-TransportInv :
      (t u : ResilientTransport W T)
      → u.state ≡ t.state
      → u.active ≡ t.active
      → u.mode ≡ t.mode
      → u.settings ≡ t.settings
      → u.consecutive_primary_failures ≡ t.consecutive_primary_failures
      → TransportInv t
      → TransportInv u
  same-TransportInv t u a b c d e i = record {
    settled = rw a i.settled;
    holds = rw (a, b) i.holds;
    knows = rw (a, c) i.knows;
    earned = rw (c, d, e) i.earned;
  }

module _ {W T : Type 0} (connector : TransportConnector W T) where
  -- A try that fails leaves nothing behind; one that succeeds is ready.
  pub attempt_lem :
      (now : ℕ) (t : ResilientTransport W T)
      → let (u, r) = attempt connector now t in
        TransportInv u × ((r ≡ ok tt) ↔ (is_ready u.state ≡ true))
  unfolding attempt try_primary try_fallback
  attempt_lem now t =
      let (world, connection) = connector.connect_by t.world quic t.endpoint t.settings in
      elim (Option-cases connection) [
        | inr (c, e) ↦ (
          record {
            settled = ground (arith, e);
            holds = ground (arith, e);
            knows = ground (arith, e);
            earned = ground (arith, e);
          },
          ground (arith, e),
        )
        | inl e ↦
            let failures = count t.consecutive_primary_failures in
            let (next, fallback) =
              connector.connect_by world tls_tcp_udp_fallback t.endpoint t.settings in
            elim (Bool-cases (falls_back t.settings failures)) [
              | inr f ↦ (
                record {
                  settled = ground (arith, e, f);
                  holds = ground (arith, e, f);
                  knows = ground (arith, e, f);
                  earned = ground (arith, e, f);
                },
                ground (arith, e, f),
              )
              | inl f ↦ elim (Option-cases fallback) [
                | inr (c, g) ↦ (
                  record {
                    settled = ground (arith, e, f, g);
                    holds = ground (arith, e, f, g);
                    knows = ground (arith, e, f, g);
                    earned = ground (arith, e, f, g);
                  },
                  ground (arith, e, f, g),
                )
                | inl g ↦ (
                  record {
                    settled = ground (arith, e, f, g);
                    holds = ground (arith, e, f, g);
                    knows = ground (arith, e, f, g);
                    earned = ground (arith, e, f, g);
                  },
                  ground (arith, e, f, g),
                )
              ]
            ]
      ]

  pub connect-TransportInv :
      (now : ℕ) (t : ResilientTransport W T)
      → TransportInv t
      → TransportInv (connect connector now t).0
  unfolding connect
  connect-TransportInv now t i = elim (Bool-cases (bad_event_time now t)) [
    | inl a ↦ rw a i
    | inr a ↦ elim (Bool-cases (is_closed t.state)) [
      | inl b ↦ rw (a, b) (same-TransportInv t (at_time now t) refl refl refl refl refl i)
      | inr b ↦ elim (Bool-cases (is_ready t.state)) [
        | inl c ↦ rw (a, b, c) (same-TransportInv t (at_time now t) refl refl refl refl refl i)
        | inr c ↦ rw (a, b, c) ((attempt_lem now (at_time now t)).0)
      ]
    ]
  ]

  dropped-TransportInv : (t : ResilientTransport W T) → TransportInv (dropped t)
  dropped-TransportInv t = record { settled = refl; holds = refl; knows = refl; earned = refl }

  restarted-TransportInv : (t : ResilientTransport W T) → TransportInv (restarted t)
  restarted-TransportInv t =
      same-TransportInv (dropped t) (restarted t) refl refl refl refl refl (dropped-TransportInv t)

  reconnect_from-TransportInv :
      (now : ℕ) (t : ResilientTransport W T) → TransportInv (reconnect_from connector now t).0
  unfolding reconnect_from
  reconnect_from-TransportInv now t =
      connect-TransportInv now (restarted t) (restarted-TransportInv t)

  migrate_to-TransportInv :
      (now : ℕ) (c : T) (t : ResilientTransport W T)
      → TransportInv t
      → is_ready t.state ≡ true
      → TransportInv (migrate_to connector now c t).0
  unfolding migrate_to
  migrate_to-TransportInv now c t i r =
      elim (Bool-cases ((connector.migrate t.world c t.endpoint).1)) [
        | inl s ↦
            rw s (record {
              settled = refl;
              holds = i.holds ∙ r;
              knows = i.knows ∙ r;
              earned = i.earned;
            })
        | inr s ↦ rw s (
            reconnect_from-TransportInv now (
              migration_lost now (connector.migrate t.world c t.endpoint).0
                (migration_begun now t)))
      ]

  require_ready-ready :
      (t : ResilientTransport W T) → require_ready t ≡ true → is_ready t.state ≡ true
  unfolding require_ready
  require_ready-ready t h = ground arith

  network_left :
      (endpoint : TransportEndpoint) (now : ℕ) (t u : ResilientTransport W T)
      (r : Result (Unit {0}))
      → network_changed connector endpoint now t ≡ (u, r)
      → TransportInv u
      → TransportInv (network_changed connector endpoint now t).0
  network_left endpoint now t u r e i = rw e i

  pub network_changed-TransportInv :
      (endpoint : TransportEndpoint) (now : ℕ) (t : ResilientTransport W T)
      → TransportInv t
      → TransportInv (network_changed connector endpoint now t).0
  unfolding network_changed
  network_changed-TransportInv endpoint now t i =
      let later = same-TransportInv t (at_time now t) refl refl refl refl refl i in
      let moved = record (at_time now t) { endpoint = endpoint } in
      elim (Result-cases (validate_transport_endpoint endpoint)) [
        | inr (x, a) ↦ network_left endpoint now t t (err x) (ground (arith, a)) i
        | inl a ↦ elim (Bool-cases (bad_event_time now t)) [
          | inl b ↦ network_left endpoint now t t (err invalid_argument) (ground (arith, a, b)) i
          | inr b ↦ elim (Bool-cases (require_ready t)) [
            | inr c ↦
                network_left endpoint now t (at_time now t) (err logic_error)
                  (ground (arith, a, b, c)) later
            | inl c ↦ elim (Option-cases t.active) [
              | inl d ↦
                  network_left endpoint now t (at_time now t) (err logic_error)
                    (ground (arith, a, b, c, d)) later
              | inr (x, d) ↦
                  elim (Bool-cases (is_quic t.mode && t.settings.enable_connection_migration)) [
                    | inr m ↦
                        let (u, r) = reconnect_from connector now moved in
                        network_left endpoint now t u r (ground (arith, a, b, c, d, m))
                          (reconnect_from-TransportInv now moved)
                    | inl m ↦
                        let (u, r) = migrate_to connector now x moved in
                        network_left endpoint now t u r (ground (arith, a, b, c, d, m)) (
                          migrate_to-TransportInv now x moved
                            (same-TransportInv t moved refl refl refl refl refl i)
                            (require_ready-ready t c))
                  ]
            ]
          ]
        ]
      ]

  pub reconnect-TransportInv :
      (now : ℕ) (t : ResilientTransport W T)
      → TransportInv t
      → TransportInv (reconnect connector now t).0
  unfolding reconnect
  reconnect-TransportInv now t i = elim (Bool-cases (bad_event_time now t)) [
    | inl a ↦ rw a i
    | inr a ↦ elim (Bool-cases (is_closed t.state)) [
      | inl b ↦ rw (a, b) (same-TransportInv t (at_time now t) refl refl refl refl refl i)
      | inr b ↦
          let u = restarted (at_time now t) in
          let v = append_event now reconnect_started u in
          rw (a, b)
            (connect-TransportInv now v (
              same-TransportInv u v refl refl refl refl refl
                (restarted-TransportInv (at_time now t))))
    ]
  ]
