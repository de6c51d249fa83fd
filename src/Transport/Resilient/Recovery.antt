-- ===== src/Transport/Resilient/Recovery.antt =====
-- Any calls of ResilientTransport of transport/src/resilient_transport.cpp: what they keep, that a
-- closed one stays closed, and that the fallback is reached.
use lan_pilot.Common.{
  ℕ, ok, true, false, none, some, [], ◌∷◌, refl, Option, List, ◌==◌, ◌≡◌, Bool-cases, ◌||◌,
  Result-cases, ◌<◌, inl, inr, arith, ◌+◌, leb, ◌≤◌, length, ◌⊎◌, subst, sym,
}
use lan_pilot.Transport.Settings.{
  disconnected, connecting, ready, migrating, closed, quic, tls_tcp_udp_fallback, RecoveryCursor,
  TransportEndpoint, QuicTransportSettings, ConnectionState, validate_recovery,
  validate_transport_endpoint, validate_quic_transport_settings,
}
use lan_pilot.Transport.Resilient.{
  connect, set_recovery_cursor, close, TransportConnector, ResilientTransport, network_changed,
  attempt, try_primary, reconnect, new_transport, is_closed, require_ready, is_ready, try_fallback,
  bad_event_time, is_past, count, at_time,
}
use lan_pilot.Transport.Resilient.States.{is_fallback}

pub data TransportCall : Type 0 where
  connect_call : ℕ → TransportCall
  network_call : TransportEndpoint → ℕ → TransportCall
  reconnect_call : ℕ → TransportCall
  close_call : ℕ → TransportCall
  recovery_call : RecoveryCursor → TransportCall

-- Closed, with no connection.
pub record IsShut {W T : Type 0} (t : ResilientTransport W T) : Type 0 where
  pub shut : is_closed t.state ≡ true
  pub unheld : t.active ≡ none
  pub unknown_mode : t.mode ≡ none

settings_threshold :
    (s : QuicTransportSettings)
    → validate_quic_transport_settings s ≡ ok tt
    → (s.primary_failures_before_fallback ≤ 10) × (0 < s.primary_failures_before_fallback)
unfolding validate_quic_transport_settings
settings_threshold s h = (ground arith, ground arith)

new_transport_lem :
    {W T : Type 0} (world : W) (endpoint : TransportEndpoint) (settings : QuicTransportSettings)
    {t : ResilientTransport W T}
    → new_transport world endpoint settings ≡ ok t
    → (t.settings ≡ settings)
      × (is_closed t.state ≡ false)
      × (is_ready t.state ≡ false)
      × (t.last_event_at ≡ none)
      × (t.consecutive_primary_failures ≡ 0)
      × (settings.primary_failures_before_fallback ≤ 10)
      × (0 < settings.primary_failures_before_fallback)
unfolding new_transport
new_transport_lem world endpoint settings h =
    elim (Result-cases (validate_transport_endpoint endpoint)) [
      | inr (x, a) ↦ absurd (ground (arith, a, h))
      | inl a ↦ elim (Result-cases (validate_quic_transport_settings settings)) [
        | inr (x, b) ↦ absurd (ground (arith, a, b, h))
        | inl b ↦ (
          ground (arith, a, b, h),
          ground (arith, a, b, h),
          ground (arith, a, b, h),
          ground (arith, a, b, h),
          ground (arith, a, b, h),
          (settings_threshold settings b).0,
          (settings_threshold settings b).1,
        )
      ]
    ]

module _ {W T : Type 0} (connector : TransportConnector W T) where
  abbrev pub transport_step : ResilientTransport W T → TransportCall → ResilientTransport W T
  transport_step t (connect_call now) = (connect connector now t).0
  transport_step t (network_call endpoint now) = (network_changed connector endpoint now t).0
  transport_step t (reconnect_call now) = (reconnect connector now t).0
  transport_step t (close_call now) = (close now t).0
  transport_step t (recovery_call cursor) = (set_recovery_cursor cursor t).0

  abbrev pub transport_run : List TransportCall → ResilientTransport W T → ResilientTransport W T
  transport_run [] t = t
  transport_run (c ∷ cs) t = transport_run cs (transport_step t c)

  same-IsShut :
      (t u : ResilientTransport W T)
      → u.state ≡ t.state
      → u.active ≡ t.active
      → u.mode ≡ t.mode
      → IsShut t
      → IsShut u
  same-IsShut t u a b c h = record {
    shut = rw a h.shut;
    unheld = rw b h.unheld;
    unknown_mode = rw c h.unknown_mode;
  }

  closed-not_ready : (s : ConnectionState) → is_closed s ≡ true → is_ready s ≡ false
  closed-not_ready disconnected h = refl
  closed-not_ready connecting h = refl
  closed-not_ready ready h = cc
  closed-not_ready migrating h = refl
  closed-not_ready closed h = refl

  -- What a call leaves is the transport as it was, or with a later time.
  left-IsShut :
      (now : ℕ) (t u : ResilientTransport W T) → IsShut t → (u ≡ t) ⊎ (u ≡ at_time now t) → IsShut u
  left-IsShut now t u h (inl e) = rw e h
  left-IsShut now t u h (inr e) = rw e (same-IsShut t (at_time now t) refl refl refl h)

  step-IsShut :
      (t : ResilientTransport W T) (c : TransportCall) → IsShut t → IsShut (transport_step t c)
  unfolding connect network_changed reconnect close set_recovery_cursor require_ready
  step-IsShut t (connect_call now) h =
      left-IsShut now t (connect connector now t).0 h (elim (Bool-cases (bad_event_time now t)) [
        | inl x ↦ inl (ground (arith, x))
        | inr x ↦ inr (ground (arith, x, h.shut))
      ])
  step-IsShut t (network_call endpoint now) h =
      left-IsShut now t (network_changed connector endpoint now t).0 h
        (elim (Result-cases (validate_transport_endpoint endpoint)) [
          | inr (e, v) ↦ inl (ground (arith, v))
          | inl v ↦ elim (Bool-cases (bad_event_time now t)) [
            | inl x ↦ inl (ground (arith, v, x))
            | inr x ↦ inr (ground (arith, v, x, closed-not_ready t.state h.shut))
          ]
        ])
  step-IsShut t (reconnect_call now) h =
      left-IsShut now t (reconnect connector now t).0 h (elim (Bool-cases (bad_event_time now t)) [
        | inl x ↦ inl (ground (arith, x))
        | inr x ↦ inr (ground (arith, x, h.shut))
      ])
  step-IsShut t (close_call now) h = record {
    shut = ground (arith, h.shut);
    unheld = ground (arith, h.unheld);
    unknown_mode = ground (arith, h.unknown_mode);
  }
  step-IsShut t (recovery_call cursor) h =
      let v = Result-cases (validate_recovery cursor) in
      record {
        shut = ground (arith, h.shut, v);
        unheld = ground (arith, h.unheld, v);
        unknown_mode = ground (arith, h.unknown_mode, v);
      }

  run-IsShut :
      (cs : List TransportCall) (t : ResilientTransport W T)
      → IsShut t
      → IsShut (transport_run cs t)
  run-IsShut [] t h = h
  run-IsShut (c ∷ cs) t h = run-IsShut cs (transport_step t c) (step-IsShut t c h)

  close-IsShut :
      (now : ℕ) (t : ResilientTransport W T) → (close now t).1 ≡ ok tt → IsShut (close now t).0
  unfolding close
  close-IsShut now t h = elim (Bool-cases (bad_event_time now t)) [
    | inl x ↦ absurd (ground (arith, x, h))
    | inr x ↦ rw x (record { shut = refl; unheld = refl; unknown_mode = refl })
  ]

  -- A transport that was closed stays closed and without a connection, whatever calls follow.
  pub close-final :
      (now : ℕ) (t : ResilientTransport W T)
      → (close now t).1 ≡ ok tt
      → (cs : List TransportCall) → IsShut (transport_run cs (close now t).0)
  close-final now t h cs = run-IsShut cs (close now t).0 (close-IsShut now t h)

  -- Calls of `connect` at given times.
  abbrev pub connects : List ℕ → ResilientTransport W T → ResilientTransport W T
  connects [] t = t
  connects (now ∷ rest) t = connects rest (connect connector now t).0

  -- The times are not 0 and do not fall.
  abbrev pub Rising : Option ℕ → List ℕ → Type 0
  Rising last [] = Unit {0}
  Rising last (now ∷ rest) = ((now == 0 || is_past last now) ≡ false) × Rising (some now) rest

  -- The network refuses every primary connection and lets the fallback through.
  abbrev pub PrimaryBlocked : QuicTransportSettings → Type 0
  PrimaryBlocked s =
      (w : W) (endpoint : TransportEndpoint)
      → ((connector.connect_by w quic endpoint s).1 ≡ none)
        × ((c : T) × ((connector.connect_by w tls_tcp_udp_fallback endpoint s).1 ≡ some c))

  -- One call of `connect` in such a network, before it is ready.
  blocked_connect :
      (now : ℕ) (t : ResilientTransport W T)
      → PrimaryBlocked t.settings
      → bad_event_time now t ≡ false
      → is_closed t.state ≡ false
      → is_ready t.state ≡ false
      → t.settings.enable_fallback ≡ true
      → t.consecutive_primary_failures < 10
      → let u = (connect connector now t).0 in
        (u.settings ≡ t.settings)
        × (u.last_event_at ≡ some now)
        × (u.consecutive_primary_failures ≡ t.consecutive_primary_failures + 1)
        × (is_closed u.state ≡ false)
        × (is_fallback u.mode ≡ is_ready u.state)
        × (is_ready u.state
            ≡ leb t.settings.primary_failures_before_fallback (t.consecutive_primary_failures + 1))
  unfolding connect attempt try_primary try_fallback
  blocked_connect now t p a b c f l =
      let (q, _) = p t.world t.endpoint in
      let (next, _) = connector.connect_by t.world quic t.endpoint t.settings in
      let (_, (x, g)) = p next t.endpoint in
      let n : count t.consecutive_primary_failures ≡ t.consecutive_primary_failures + 1 =
        omega arith in
      (
        ground (arith, a, b, c, f, q, g, n),
        ground (arith, a, b, c, f, q, g, n),
        ground (arith, a, b, c, f, q, g, n),
        ground (arith, a, b, c, f, q, g, n),
        ground (arith, a, b, c, f, q, g, n),
        ground (arith, a, b, c, f, q, g, n),
      )

  -- It takes as many calls of `connect` as there are failures missing.
  connects_lem :
      (times : List ℕ) (t : ResilientTransport W T)
      → PrimaryBlocked t.settings
      → is_closed t.state ≡ false
      → is_ready t.state ≡ false
      → t.settings.enable_fallback ≡ true
      → t.settings.primary_failures_before_fallback ≤ 10
      → Rising t.last_event_at times
      → 0 < length times
      → t.consecutive_primary_failures + length times ≡ t.settings.primary_failures_before_fallback
      → let u = connects times t in (is_ready u.state ≡ true) × (is_fallback u.mode ≡ true)
  connects_lem [] t p c r f m g z l = absurd (omega arith)
  connects_lem (now ∷ []) t p c r f m g z l =
      let (s, e, n, k, q, y) = blocked_connect now t p g.0 c r f (omega arith) in
      (ground (arith, y, l), ground (arith, q, y, l))
  connects_lem (now ∷ next ∷ rest) t p c r f m g z l =
      let (s, e, n, k, q, y) = blocked_connect now t p g.0 c r f (omega arith) in
      let u = (connect connector now t).0 in
      connects_lem (next ∷ rest) u
        (subst (λ (x : QuicTransportSettings). PrimaryBlocked x) (sym s) p) k (ground (arith, y, l))
        (rw s f) (rw s m) (rw e g.1) (omega arith) (rw s (omega (arith, n, l)))

  -- In a network that refuses every primary connection but lets the fallback through, a new transport
  -- whose settings enable the fallback is ready, on the fallback, after as many calls of `connect` as
  -- the settings ask for failures.
  pub connects-fallback :
      (world : W) (endpoint : TransportEndpoint) (settings : QuicTransportSettings)
      {t : ResilientTransport W T}
      → new_transport world endpoint settings ≡ ok t
      → settings.enable_fallback ≡ true
      → PrimaryBlocked settings
      → (times : List ℕ) → Rising none times
      → length times ≡ settings.primary_failures_before_fallback
      → (is_ready (connects times t).state ≡ true) × (is_fallback (connects times t).mode ≡ true)
  connects-fallback world endpoint settings {t} h f p times g l =
      let (e, c, r, q, z, m, n) = new_transport_lem world endpoint settings h in
      connects_lem times t (subst (λ (x : QuicTransportSettings). PrimaryBlocked x) (sym e) p) c r
        (rw e f) (rw e m) (rw q g) (omega (arith, n, l)) (rw e (omega (arith, z, l)))
