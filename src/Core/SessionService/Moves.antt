-- ===== src/Core/SessionService/Moves.antt =====
-- The sessions of SessionService of core/src/session_service.cpp over any calls of it and of the
-- registry of devices that it refers to.
use Prim.Native.String.{String}
use lan_pilot.Common.{
  ℕ, refl, true, some, none, ok, err, logic_error, ◌≡◌, List, Result, Option-cases, lookup, inl,
  Outcome-cases, ◌+◌, arith, put, inr, Bool-cases, not, ◌&&◌,
}
use lan_pilot.Core.Session.{renew, active_at, Session, is_open, is_closed}
use lan_pilot.Core.Audit.{session_renewed, session_closed, allowed, denied, AuditEvent, append}
use lan_pilot.Core.SessionService.Opening.{
  may_open, refused, open-cases, enter_session-entered, opened_record, open-MayOpen,
}
use lan_pilot.Core.SessionService.{
  close_session, SessionService, renew_session, permits_session, SessionOpenRequest, ActiveSession,
  open_peer_session, audited, is_bound, closed_record, record_event, save,
}
use lan_pilot.Core.Authorization.{Policy, authorize}
use lan_pilot.Core.Identity.{is_accepted, verify}

abbrev pub SessionMap : Type 0
SessionMap = List (String × ActiveSession)

-- How one call changes the map of sessions.
pub data Move : SessionMap → SessionMap → Type 0 where
  stay : {m n : SessionMap} → n ≡ m → Move m n
  enter :
      {m n : SessionMap} (request : SessionOpenRequest) (policy : Policy) (now : ℕ)
      → lookup request.session_id m ≡ none
      → is_bound request ≡ true
      → n ≡ put request.session_id (opened_record request policy now) m
      → Move m n
  shut :
      {m n : SessionMap} (session_id : String) (r : ActiveSession)
      → lookup session_id m ≡ some r
      → n ≡ put session_id (closed_record r) m
      → Move m n
  extend :
      {m n : SessionMap} (session_id : String) (r : ActiveSession) (until : ℕ)
      → lookup session_id m ≡ some r
      → is_open r.session.state ≡ true
      → n ≡ put session_id (record r { session = record r.session { expires_at = some until } }) m
      → Move m n

-- What a call of the service does to the map of sessions, and that it leaves the devices.
abbrev pub Moves : SessionService → SessionService → Type 0
Moves s t = Move s.sessions t.sessions × (t.devices ≡ s.devices)

pub open-Moves :
    (request : SessionOpenRequest) (policy : Policy) (now : ℕ) (s : SessionService)
    → Moves s (open_peer_session request policy now s).0
open-Moves request policy now s = elim (open-cases request policy now s) [
  | may_open m ↦
      let (a, b) =
        enter_session-entered (opened_record request policy now) request.session_id
          (authorize request.capabilities policy) now s in
      rw (open-MayOpen request policy now s m) (enter request policy now m.unused m.bound a, b)
  | refused log e h ↦ rw h (stay refl, refl)
]

pub audited_keeps {ℓ} :
    {A : Type ℓ} (event : AuditEvent) (s : SessionService) (result : Result A)
    → ((audited event s result).0.sessions ≡ s.sessions)
      × ((audited event s result).0.devices ≡ s.devices)
audited_keeps event s result = elim (Outcome-cases (append event s.audit)) [
  | inl (log, h) ↦ (ground (arith, h), ground (arith, h))
  | inr (x, h) ↦ (ground (arith, h), ground (arith, h))
]

pub permits_session-Moves :
    (session_id : String) (capability : ℕ) (workspace : String) (now : ℕ) (s : SessionService)
    → Moves s (permits_session session_id capability workspace now s).0
unfolding permits_session
permits_session-Moves session_id capability workspace now s =
    elim (Option-cases (lookup session_id s.sessions)) [
      | inl e ↦ (stay (ground (arith, e)), ground (arith, e))
      | inr (r, e) ↦
          let v = is_accepted (verify s.devices r.certificate now) in
          elim (Bool-cases (not v && not (is_closed r.session.state))) [
            | inl c ↦ (shut session_id r e (ground (arith, e, c)), ground (arith, e, c))
            | inr c ↦ (stay (ground (arith, e, c)), ground (arith, e, c))
          ]
    ]

pub close_session-Moves :
    (session_id : String) (now : ℕ) (s : SessionService)
    → Moves s (close_session session_id now s).0
unfolding close_session
close_session-Moves session_id now s = elim (Option-cases (lookup session_id s.sessions)) [
  | inl e ↦ (stay (ground (arith, e)), ground (arith, e))
  | inr (r, e) ↦
      let event = record_event (closed_record r) session_closed allowed now in
      let t = save session_id (closed_record r) s in
      let (a, b) = audited_keeps {A = Unit {0}} event t (ok tt) in
      (shut session_id r e (ground (arith, e, a)), ground (arith, e, b))
]

renew-ok :
    (now extension : ℕ) (s : Session) {t : Session}
    → renew now extension s ≡ ok t
    → (is_open s.state ≡ true) × (t ≡ record s { expires_at = some (now + extension) })
unfolding renew active_at
renew-ok now extension s h = (ground arith, ground arith)

pub renew_session-Moves :
    (session_id : String) (now extension : ℕ) (s : SessionService)
    → Moves s (renew_session session_id now extension s).0
unfolding renew_session
renew_session-Moves session_id now extension s =
    elim (Option-cases (lookup session_id s.sessions)) [
      | inl e ↦ (stay (ground (arith, e)), ground (arith, e))
      | inr (r, e) ↦ elim (Bool-cases (is_accepted (verify s.devices r.certificate now))) [
        | inr v ↦
            let event = record_event (closed_record r) session_renewed denied now in
            let t = save session_id (closed_record r) s in
            let (a, b) = audited_keeps {A = Unit {0}} event t (err logic_error) in
            (shut session_id r e (ground (arith, e, v, a)), ground (arith, e, v, b))
        | inl v ↦ elim (Outcome-cases (renew now extension r.session)) [
          | inr (x, h) ↦
              let event = record_event r session_renewed denied now in
              let (a, b) = audited_keeps {A = Unit {0}} event s (err x) in
              (stay (ground (arith, e, v, h, a)), ground (arith, e, v, h, b))
          | inl (t, h) ↦
              let (o, k) = renew-ok now extension r.session h in
              let q = record r { session = t } in
              let renewed = save session_id q s in
              elim (Outcome-cases (append (record_event q session_renewed allowed now) s.audit)) [
                | inl (log, g) ↦ (
                  extend session_id r (now + extension) e o (ground (arith, e, v, h, g, k)),
                  ground (arith, e, v, h, g),
                )
                | inr (x, g) ↦
                    let event = record_event q session_renewed denied now in
                    let (a, b) = audited_keeps {A = Unit {0}} event renewed (err x) in
                    (
                      extend session_id r (now + extension) e o (ground (arith, e, v, h, g, k, a)),
                      ground (arith, e, v, h, g, b),
                    )
              ]
        ]
      ]
    ]
