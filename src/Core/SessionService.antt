-- ===== src/Core/SessionService.antt =====
-- core/src/session_service.cpp: sessions of paired devices. The service refers to the registry of
-- devices and to the audit log, which stand beside its map of sessions in its state; an operation
-- gives the state that it leaves, also where it throws.
pub mod Opening
pub mod Moves
pub mod Runs
pub mod Permits
use Prim.Native.String.{String}
use text.Mathlib.Text.{◌==◌ as str_eq}
use lan_pilot.Common.{
  ℕ, ok, err, true, false, none, some, [], ◌∷◌, if◌then◌else◌, put, not, Bool, Result, ◌&&◌,
  is_empty, lookup, ◌||◌, List, out_of_range, logic_error, ◌==◌, invalid_argument,
}
use lan_pilot.Core.Audit.{
  session_authenticated, session_opened, session_renewed, session_closed, allowed, denied,
  AuditEvent, AuditAction, AuditLog, AuditResult, append,
}
use lan_pilot.Core.Authorization.{
  Policy, AuthorizationResult, authorize, CapabilityRequest, permits,
}
use lan_pilot.Core.Identity.{
  MtlsPeerEvidence, DeviceRegistry, is_accepted, PeerCertificate, verify, is_mtls_accepted,
  verify_mtls,
}
use lan_pilot.Core.Session.{
  close, Session, new_session, SessionState, authenticate_certificate, active_at, open_session,
  is_closed, renew, grants_nothing,
}

-- A principal of the request with whether it is a device.
pub record SessionOpenRequest : Type 0 where
  pub session_id : String
  pub peer : MtlsPeerEvidence
  pub is_device : Bool
  pub capabilities : CapabilityRequest
  pub lease : ℕ

pub record ActiveSession : Type 0 where
  pub session : Session
  pub certificate : PeerCertificate
  pub principal_id : String
  pub workspace : String
  pub authorization : AuthorizationResult

pub record SessionService : Type 0 where
  pub devices : DeviceRegistry
  pub audit : AuditLog
  pub sessions : List (String × ActiveSession)

abbrev pub resolved_actor : SessionOpenRequest → String
resolved_actor request =
    if not (is_empty request.peer.certificate.device_id)
    then request.peer.certificate.device_id
    else if not (is_empty request.capabilities.principal)
    then request.capabilities.principal
    else "unresolved"

-- The fields of an event that the service sets.
abbrev pub event_of :
    ℕ → String → String → String → String → String → AuditAction → AuditResult → AuditEvent
event_of now principal_id device_id session_id workspace_id reason_code action outcome = record {
  occurred_at = now;
  principal_id = principal_id;
  device_id = device_id;
  session_id = session_id;
  workspace_id = workspace_id;
  build_id = "";
  artifact_id = "";
  artifact_sha256 = [];
  source_revision = 0;
  deployment_id = "";
  process_role = "";
  reason_code = reason_code;
  agent_job_id = "";
  tool_name = "";
  evidence_id = "";
  action = action;
  outcome = outcome;
}

-- `audit_.append`, then the rest unless it throws.
abbrev pub audited {ℓ} :
    {A : Type ℓ} → AuditEvent → SessionService → Result A → SessionService × Result A
audited event s result = elim (append event s.audit) [
  | ok log ↦ (record s { audit = log }, result)
  | err e ↦ (s, err e)
]

abbrev pub record_event : ActiveSession → AuditAction → AuditResult → ℕ → AuditEvent
record_event r action outcome now =
    event_of now r.principal_id r.certificate.device_id r.session.id r.workspace "" action outcome

abbrev pub denial : SessionOpenRequest → ℕ → String → AuditAction → AuditEvent
denial request now reason action =
    let actor = resolved_actor request in
    event_of now actor actor request.session_id request.capabilities.workspace reason action denied

-- The steps of the new session: authenticate, open, and renew for the lease.
unfoldable pub start_session :
    SessionOpenRequest → AuthorizationResult → ℕ → DeviceRegistry → Result Session
start_session request authorization now devices = elim (new_session request.session_id) [
  | err e ↦ err e
  | ok s ↦ elim (authenticate_certificate request.peer.certificate devices now s) [
    | err e ↦ err e
    | ok t ↦ elim (open_session authorization t) [
      | err e ↦ err e
      | ok u ↦ renew now request.lease u
    ]
  ]
]

-- The session is entered and its two events are appended.
unfoldable pub enter_session :
    ActiveSession
    → String
    → AuthorizationResult
    → ℕ
    → SessionService
    → SessionService × Result AuthorizationResult
enter_session r session_id authorization now s =
    let entered = record s { sessions = put session_id r s.sessions } in
    let first = record_event r session_authenticated allowed now in
    let second = record_event r session_opened allowed now in
    elim (append first entered.audit) [
      | err e ↦ (entered, err e)
      | ok log ↦ audited second (record entered { audit = log }) (ok authorization)
    ]

unfoldable pub is_bound : SessionOpenRequest → Bool
is_bound request =
    request.is_device && str_eq request.capabilities.principal request.peer.certificate.device_id

-- `SessionService::open`.
unfoldable pub open_peer_session :
    SessionOpenRequest → Policy → ℕ → SessionService → SessionService × Result AuthorizationResult
unfolding start_session enter_session is_bound
open_peer_session request policy now s =
    let authorization = authorize request.capabilities policy in
    if is_empty request.session_id || request.lease == 0
    then (s, err invalid_argument)
    else elim (lookup request.session_id s.sessions) [
      | some _ ↦ (s, err invalid_argument)
      | none ↦
          if not (is_mtls_accepted (verify_mtls request.peer s.devices now))
            || not (is_bound request)
          then audited (denial request now "mtls_authentication_denied" session_authenticated) s
              (err logic_error)
          else if grants_nothing authorization
          then audited (denial request now "capability_authorization_denied" session_opened) s
              (err logic_error)
          else elim (start_session request authorization now s.devices) [
            | err e ↦ (s, err e)
            | ok session ↦
                enter_session
                  (record {
                    session = session;
                    certificate = request.peer.certificate;
                    principal_id = resolved_actor request;
                    workspace = request.capabilities.workspace;
                    authorization = authorization;
                  })
                  request.session_id authorization now s
          ]
    ]

abbrev pub save : String → ActiveSession → SessionService → SessionService
save session_id r s = record s { sessions = put session_id r s.sessions }

-- The session of a record, closed.
abbrev pub closed_record : ActiveSession → ActiveSession
closed_record r = record r { session = close r.session }

unfoldable pub permits_record : ActiveSession → DeviceRegistry → ℕ → String → ℕ → Bool
permits_record r devices capability workspace now =
    is_accepted (verify devices r.certificate now)
    && active_at r.session now
    && str_eq workspace r.workspace
    && permits r.authorization capability

unfoldable pub permits_session :
    String → ℕ → String → ℕ → SessionService → SessionService × Result Bool
unfolding permits_record
permits_session session_id capability workspace now s = elim (lookup session_id s.sessions) [
  | none ↦ (s, err out_of_range)
  | some r ↦
      let allowed_now = permits_record r s.devices capability workspace now in
      if not (is_accepted (verify s.devices r.certificate now)) && not (is_closed r.session.state)
      then (save session_id (closed_record r) s, ok allowed_now)
      else (s, ok allowed_now)
]

unfoldable pub renew_session : String → ℕ → ℕ → SessionService → SessionService × Result (Unit {0})
renew_session session_id now extension s = elim (lookup session_id s.sessions) [
  | none ↦ (s, err out_of_range)
  | some r ↦
      if not (is_accepted (verify s.devices r.certificate now))
      then audited (record_event (closed_record r) session_renewed denied now)
          (save session_id (closed_record r) s) (err logic_error)
      else elim (renew now extension r.session) [
        | err e ↦ audited (record_event r session_renewed denied now) s (err e)
        | ok t ↦
            let renewed = save session_id (record r { session = t }) s in
            elim (append (record_event (record r { session = t }) session_renewed allowed now)
              s.audit) [
                | ok log ↦ (record renewed { audit = log }, ok tt)
                | err e ↦
                    audited (record_event (record r { session = t }) session_renewed denied now)
                      renewed (err e)
              ]
      ]
]

unfoldable pub close_session : String → ℕ → SessionService → SessionService × Result (Unit {0})
close_session session_id now s = elim (lookup session_id s.sessions) [
  | none ↦ (s, err out_of_range)
  | some r ↦
      audited (record_event (closed_record r) session_closed allowed now)
        (save session_id (closed_record r) s) (ok tt)
]

unfoldable pub session_state : String → SessionService → Result SessionState
session_state session_id s = elim (lookup session_id s.sessions) [
  | none ↦ err out_of_range
  | some r ↦ ok r.session.state
]
