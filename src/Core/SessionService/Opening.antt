-- ===== src/Core/SessionService/Opening.antt =====
-- SessionService::open of core/src/session_service.cpp.
use Prim.Native.String.{String}
use lan_pilot.Common.{
  ℕ, refl, true, false, some, none, ok, err, invalid_argument, logic_error, ◌≡◌, ◌+◌, is_empty,
  ◌==◌, lookup, arith, put, Bool-cases, Exception, ◌||◌, Outcome-cases, inl, ◌∙◌, inr, Option-cases,
  not, lookup-put, same_text,
}
use lan_pilot.Core.Session.{
  open_state, new_session, authenticate_certificate, open_session, renew, grants_nothing, active_at,
}
use lan_pilot.Core.Audit.{
  session_authenticated, session_opened, allowed, AuditEvent, identifier_or_empty, AuditLog, append,
}
use lan_pilot.Core.Identity.{
  verify_mtls, MtlsPeerEvidence, DeviceRegistry, is_mtls_accepted, is_accepted, verify,
}
use lan_pilot.Core.SessionService.{
  SessionOpenRequest, open_peer_session, start_session, ActiveSession, SessionService,
  resolved_actor, enter_session, is_bound, record_event, audited, permits_session, denial,
  permits_record, save,
}
use lan_pilot.Core.Authorization.{Policy, AuthorizationResult, authorize, permits}
use lan_pilot.Core.Audit.Order.{append-bad_session}

-- The record of a session that is opened.
abbrev pub opened_record : SessionOpenRequest → Policy → ℕ → ActiveSession
opened_record request policy now = record {
  session = record {
    id = request.session_id;
    state = open_state;
    expires_at = some (now + request.lease);
  };
  certificate = request.peer.certificate;
  principal_id = resolved_actor request;
  workspace = request.capabilities.workspace;
  authorization = authorize request.capabilities policy;
}

-- What `open` asks for before it enters a session.
pub record MayOpen (request : SessionOpenRequest) (policy : Policy) (now : ℕ) (s : SessionService)
    : Type 0 where
  pub has_id : is_empty request.session_id ≡ false
  pub has_lease : (request.lease == 0) ≡ false
  pub unused : lookup request.session_id s.sessions ≡ none
  pub trusted : is_mtls_accepted (verify_mtls request.peer s.devices now) ≡ true
  pub bound : is_bound request ≡ true
  pub granting : grants_nothing (authorize request.capabilities policy) ≡ false

accepted_by_gate :
    (peer : MtlsPeerEvidence) (devices : DeviceRegistry) (now : ℕ)
    → is_mtls_accepted (verify_mtls peer devices now) ≡ true
    → is_accepted (verify devices peer.certificate now) ≡ true
unfolding verify_mtls
accepted_by_gate peer devices now h = ground arith

-- The four steps of a session that may open do not throw.
start_session_lem :
    (request : SessionOpenRequest) (authorization : AuthorizationResult) (now : ℕ)
    (devices : DeviceRegistry)
    → is_empty request.session_id ≡ false
    → (request.lease == 0) ≡ false
    → is_accepted (verify devices request.peer.certificate now) ≡ true
    → grants_nothing authorization ≡ false
    → start_session request authorization now devices
      ≡ ok (record {
        id = request.session_id;
        state = open_state;
        expires_at = some (now + request.lease);
      })
unfolding start_session new_session authenticate_certificate open_session renew active_at
start_session_lem request authorization now devices i l a g = ground arith

pub open-MayOpen :
    (request : SessionOpenRequest) (policy : Policy) (now : ℕ) (s : SessionService)
    → MayOpen request policy now s
    → open_peer_session request policy now s
      ≡ enter_session
          (opened_record request policy now)
          request.session_id
          (authorize request.capabilities policy)
          now
          s
unfolding open_peer_session
open-MayOpen request policy now s m =
    let a = accepted_by_gate request.peer s.devices now m.trusted in
    let e =
      start_session_lem request (authorize request.capabilities policy) now s.devices m.has_id
        m.has_lease a m.granting in
    rw (m.has_id, m.has_lease, m.unused, m.trusted, m.bound, m.granting, e) refl

-- Or nothing is entered.
pub data Opening (request : SessionOpenRequest) (policy : Policy) (now : ℕ) (s : SessionService)
    : Type 0 where
  may_open : MayOpen request policy now s → Opening request policy now s
  refused :
      (log : AuditLog) (e : Exception)
      → open_peer_session request policy now s ≡ (record s { audit = log }, err e)
      → Opening request policy now s

audited_err :
    (event : AuditEvent) (s : SessionService) (e : Exception)
    → (log : AuditLog) × (x : Exception) × (audited {A = AuthorizationResult} event s (err e)
        ≡ (record s { audit = log }, err x))
audited_err event s e = elim (Outcome-cases (append event s.audit)) [
  | inl (log, h) ↦ (log, e, ground (arith, h))
  | inr (x, h) ↦ (s.audit, x, ground (arith, h))
]

module _ (request : SessionOpenRequest) (policy : Policy) (now : ℕ) (s : SessionService) where
  refused_by :
      (event : AuditEvent)
      → open_peer_session request policy now s ≡ audited event s (err logic_error)
      → Opening request policy now s
  refused_by event h = let (log, x, e) = audited_err event s logic_error in refused log x (h ∙ e)

  refused_at_once :
      open_peer_session request policy now s ≡ (s, err invalid_argument)
      → Opening request policy now s
  refused_at_once h = refused s.audit invalid_argument h

  pub open-cases : Opening request policy now s
  unfolding open_peer_session
  open-cases = elim (Bool-cases (is_empty request.session_id || request.lease == 0)) [
    | inl a ↦ refused_at_once (rw a refl)
    | inr a ↦ elim (Option-cases (lookup request.session_id s.sessions)) [
      | inr (r, b) ↦ refused_at_once (rw (a, b) refl)
      | inl b ↦
          let m = is_mtls_accepted (verify_mtls request.peer s.devices now) in
          elim (Bool-cases (not m || not (is_bound request))) [
            | inl c ↦
                refused_by (denial request now "mtls_authentication_denied" session_authenticated)
                  (rw (a, b, c) refl)
            | inr c ↦ elim (Bool-cases (grants_nothing (authorize request.capabilities policy))) [
              | inl d ↦
                  refused_by (denial request now "capability_authorization_denied" session_opened)
                    (rw (a, b, c, d) refl)
              | inr d ↦ may_open (record {
                has_id = ground (arith, a);
                has_lease = ground (arith, a);
                unused = b;
                trusted = ground (arith, c);
                bound = ground (arith, c);
                granting = d;
              })
            ]
          ]
    ]
  ]

-- What entering a session does, whether or not its events are taken.
pub enter_session-entered :
    (r : ActiveSession) (session_id : String) (authorization : AuthorizationResult) (now : ℕ)
    (s : SessionService)
    → let t = (enter_session r session_id authorization now s).0 in
      (t.sessions ≡ put session_id r s.sessions) × (t.devices ≡ s.devices)
unfolding enter_session
enter_session-entered r session_id authorization now s =
    let first = record_event r session_authenticated allowed now in
    elim (Outcome-cases (append first s.audit)) [
      | inr (x, h) ↦ (ground (arith, h), ground (arith, h))
      | inl (log, h) ↦
          elim (Outcome-cases (append (record_event r session_opened allowed now) log)) [
            | inr (x, k) ↦ (ground (arith, h, k), ground (arith, h, k))
            | inl (next, k) ↦ (ground (arith, h, k), ground (arith, h, k))
          ]
    ]

enter_session-unaudited :
    (r : ActiveSession) (session_id : String) (authorization : AuthorizationResult) (now : ℕ)
    (s : SessionService)
    → identifier_or_empty r.session.id ≡ false
    → enter_session r session_id authorization now s ≡ (save session_id r s, err invalid_argument)
unfolding enter_session
enter_session-unaudited r session_id authorization now s h =
    ground (arith, append-bad_session (record_event r session_authenticated allowed now) s.audit h)

-- A session that has just been entered permits what its authorization permits.
permits_session-opened :
    (request : SessionOpenRequest) (policy : Policy) (now : ℕ) (s : SessionService)
    → MayOpen request policy now s
    → (capability : ℕ)
    → (permits_session request.session_id capability request.capabilities.workspace now
        (save request.session_id (opened_record request policy now) s)).1
      ≡ ok (permits (authorize request.capabilities policy) capability)
unfolding permits_session permits_record active_at
permits_session-opened request policy now s m capability =
    let r = opened_record request policy now in
    let a = accepted_by_gate request.peer s.devices now m.trusted in
    ground (
      arith,
      a,
      m.has_lease,
      lookup-put request.session_id request.session_id r s.sessions,
      same_text request.session_id,
      same_text request.capabilities.workspace,
    )

-- A request that may open a session, under an id that the audit log does not take (with a character
-- that is no letter, digit, dash, dot or underscore, or longer than 128 bytes): opening throws
-- invalid_argument and leaves the log as it was, but the session is there and open, and a query of
-- what it permits answers as for any other.
pub open_peer_session-unaudited :
    (request : SessionOpenRequest) (policy : Policy) (now : ℕ) (s : SessionService)
    → MayOpen request policy now s
    → identifier_or_empty request.session_id ≡ false
    → (capability : ℕ)
    → let t = (open_peer_session request policy now s).0 in
      ((open_peer_session request policy now s).1 ≡ err invalid_argument)
      × (t.audit ≡ s.audit)
      × ((permits_session request.session_id capability request.capabilities.workspace now t).1
          ≡ ok (permits (authorize request.capabilities policy) capability))
open_peer_session-unaudited request policy now s m h capability =
    let r = opened_record request policy now in
    let authorization = authorize request.capabilities policy in
    let e =
      open-MayOpen request policy now s m
      ∙ enter_session-unaudited r request.session_id authorization now s h in
    rw e (refl, refl, permits_session-opened request policy now s m capability)
