-- ===== src/Core/SessionService/Permits.antt =====
-- What SessionService of core/src/session_service.cpp permits.
use Prim.Native.String.{String}
use lan_pilot.Common.{
  ℕ, true, false, some, ok, lookup, ◌≡◌, arith, List, contains, Bool-cases, subst, not, ◌&&◌, ap,
  inl, sym, inr, lookup-put, ◌<◌, same_text,
}
use lan_pilot.Core.Audit.{session_closed, allowed}
use lan_pilot.Core.Session.{active_at, is_open, is_closed}
use lan_pilot.Core.SessionService.{
  SessionService, close_session, permits_session, permits_record, ActiveSession, SessionOpenRequest,
  is_bound, closed_record, record_event, save,
}
use lan_pilot.Core.Identity.Revocation.{IsRevoked, verify-IsRevoked}
use lan_pilot.Core.SessionService.Runs.{
  HasClosed, ServiceCall, open_is_not_closed, service_run, run-HasClosed, run-IsRevoked_device,
  closed_record-closed,
}
use lan_pilot.Core.Identity.{is_accepted, verify}
use lan_pilot.Core.Authorization.{Policy}
use lan_pilot.Core.Authorization.Granting.{admits}
use lan_pilot.Core.Identity.Trust.{Trusted}
use lan_pilot.Core.SessionService.Moves.{audited_keeps}

-- A session that is there answers by its record.
answer :
    (id : String) (capability : ℕ) (workspace : String) (now : ℕ) (s : SessionService)
    {r : ActiveSession}
    → lookup id s.sessions ≡ some r
    → (permits_session id capability workspace now s).1
      ≡ ok (permits_record r s.devices capability workspace now)
unfolding permits_session
answer id capability workspace now s {r} h =
    let v = is_accepted (verify s.devices r.certificate now) in
    elim (Bool-cases (not v && not (is_closed r.session.state))) [
      | inl c ↦ ground (arith, h, c)
      | inr c ↦ ground (arith, h, c)
    ]

-- What stands behind a permission.
pub record Permitted (id : String) (capability : ℕ) (workspace : String) (now : ℕ)
    (s : SessionService) : Type 0 where
  pub request : SessionOpenRequest
  pub policy : Policy
  pub until : ℕ
  pub asked : request.session_id ≡ id
  pub bound_to : is_bound request ≡ true
  pub in_workspace : request.capabilities.workspace ≡ workspace
  pub requested : contains request.capabilities.requested capability ≡ true
  pub allowed_by : contains policy.allowed capability ≡ true
  pub admitted_by : admits policy request.capabilities ≡ true
  pub trusted : Trusted s.devices request.peer.certificate now
  pub in_lease : now < until

closed_answer :
    (id : String) (s : SessionService)
    → HasClosed s.sessions id
    → (capability : ℕ) (workspace : String) (now : ℕ)
    → (permits_session id capability workspace now s).1 ≡ ok false
unfolding permits_record active_at
closed_answer id s (r, h, c) capability workspace now = ground (
  arith,
  answer id capability workspace now s h,
  c,
  open_is_not_closed r.session.state,
  Bool-cases (is_open r.session.state),
)

-- Once a device is revoked, whatever calls follow, no session that stands on its certificate permits
-- anything.
pub permits_session-revoked :
    (s : SessionService) (device : String)
    → IsRevoked s.devices device
    → (cs : List ServiceCall) (id : String) (r : ActiveSession)
    → lookup id (service_run cs s).sessions ≡ some r
    → r.certificate.device_id ≡ device
    → (capability : ℕ) (workspace : String) (now : ℕ)
    → (permits_session id capability workspace now (service_run cs s)).1 ≡ ok false
unfolding permits_record
permits_session-revoked s device h cs id r k e capability workspace now =
    let t = service_run cs s in
    let i =
      subst (λ (x : String). IsRevoked t.devices x) (sym e) (run-IsRevoked_device cs s device h) in
    ground (
      arith,
      answer id capability workspace now t k,
      verify-IsRevoked t.devices r.certificate now i,
    )

close_session-HasClosed :
    (s : SessionService) (id : String) (r : ActiveSession) (now : ℕ)
    → lookup id s.sessions ≡ some r
    → HasClosed (close_session id now s).0.sessions id
unfolding close_session
close_session-HasClosed s id r now h =
    let x = closed_record r in
    let event = record_event x session_closed allowed now in
    let (a, b) = audited_keeps {A = Unit {0}} event (save id x s) (ok tt) in
    (
      x,
      ground (arith, h, ap (lookup id) a, lookup-put id id x s.sessions, same_text id),
      closed_record-closed r,
    )

untrusted-HasClosed :
    (s : SessionService) (id : String) (r : ActiveSession) (now : ℕ)
    → lookup id s.sessions ≡ some r
    → is_accepted (verify s.devices r.certificate now) ≡ false
    → (asked : ℕ) (place : String) → HasClosed (permits_session id asked place now s).0.sessions id
unfolding permits_session
untrusted-HasClosed s id r now h v asked place =
    let x = closed_record r in
    elim (Bool-cases (is_closed r.session.state)) [
      | inl c ↦ (r, ground (arith, h, v, c), c)
      | inr c ↦ (
        x,
        ground (arith, h, v, c, lookup-put id id x s.sessions, same_text id),
        closed_record-closed r,
      )
    ]

-- A session that is closed permits nothing from then on, whatever calls follow, opening a session of
-- the same id among them.
pub close_session-final :
    (s : SessionService) (id : String) (r : ActiveSession) (now : ℕ)
    → lookup id s.sessions ≡ some r
    → (cs : List ServiceCall) (capability : ℕ) (workspace : String) (later : ℕ)
    → (permits_session id capability workspace later (service_run cs (close_session id now s).0)).1
      ≡ ok false
close_session-final s id r now h cs capability workspace later =
    let t = (close_session id now s).0 in
    closed_answer id (service_run cs t)
      (run-HasClosed cs t id (close_session-HasClosed s id r now h)) capability workspace later

-- A session that is asked about at a time when its certificate is not accepted permits nothing from
-- then on, whatever calls follow and also when the certificate would be accepted again.
pub permits_session-untrusted_final :
    (s : SessionService) (id : String) (r : ActiveSession) (now : ℕ)
    → lookup id s.sessions ≡ some r
    → is_accepted (verify s.devices r.certificate now) ≡ false
    → (asked : ℕ) (place : String) (cs : List ServiceCall) (capability : ℕ) (workspace : String)
      (later : ℕ)
    → (permits_session id capability workspace later
        (service_run cs (permits_session id asked place now s).0)).1
      ≡ ok false
permits_session-untrusted_final s id r now h v asked place cs capability workspace later =
    let u = (permits_session id asked place now s).0 in
    closed_answer id (service_run cs u)
      (run-HasClosed cs u id (untrusted-HasClosed s id r now h v asked place)) capability workspace
      later
