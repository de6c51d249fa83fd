-- ===== src/Core/SessionService/Runs.antt =====
-- The sessions of SessionService of core/src/session_service.cpp over any calls of it and of the
-- registry of devices that it refers to.
use Prim.Native.String.{String}
use text.Mathlib.Text.{◌==◌ as str_eq}
use text.Mathlib.TextEquality.{eq_iff}
use lan_pilot.Common.{
  ℕ, [], ◌∷◌, refl, true, false, some, List, ◌≡◌, lookup, put, arith, text-cases, inl, inr, ap, ◌∙◌,
  lookup-put, sym, ◌+◌, subst,
}
use lan_pilot.Core.Session.{
  open_state, created, authenticated, closed, SessionState, close, is_open, is_closed,
}
use lan_pilot.Core.SessionService.Moves.{
  stay, enter, shut, extend, SessionMap, Move, open-Moves, permits_session-Moves,
  renew_session-Moves, close_session-Moves,
}
use lan_pilot.Core.SessionService.{
  SessionService, ActiveSession, SessionOpenRequest, open_peer_session, closed_record, is_bound,
  permits_session, renew_session, close_session,
}
use lan_pilot.Core.Authorization.{Policy, authorize}
use lan_pilot.Core.Identity.Revocation.{IsRevoked, RegistryCall, registry_step, run-IsRevoked}
use lan_pilot.Core.SessionService.Opening.{opened_record}

pub data ServiceCall : Type 0 where
  open_call : SessionOpenRequest → Policy → ℕ → ServiceCall
  permits_call : String → ℕ → String → ℕ → ServiceCall
  renew_call : String → ℕ → ℕ → ServiceCall
  close_call : String → ℕ → ServiceCall
  registry_call : RegistryCall → ServiceCall

abbrev pub service_step : SessionService → ServiceCall → SessionService
service_step s (open_call request policy now) = (open_peer_session request policy now s).0
service_step s (permits_call session_id capability workspace now) =
    (permits_session session_id capability workspace now s).0
service_step s (renew_call session_id now extension) = (renew_session session_id now extension s).0
service_step s (close_call session_id now) = (close_session session_id now s).0
service_step s (registry_call c) = record s { devices = registry_step s.devices c }

abbrev pub service_run : List ServiceCall → SessionService → SessionService
service_run [] s = s
service_run (c ∷ cs) s = service_run cs (service_step s c)

step-Move : (s : SessionService) (c : ServiceCall) → Move s.sessions (service_step s c).sessions
step-Move s (open_call request policy now) = (open-Moves request policy now s).0
step-Move s (permits_call session_id capability workspace now) =
    (permits_session-Moves session_id capability workspace now s).0
step-Move s (renew_call session_id now extension) =
    (renew_session-Moves session_id now extension s).0
step-Move s (close_call session_id now) = (close_session-Moves session_id now s).0
step-Move s (registry_call c) = stay refl

step-IsRevoked_device :
    (s : SessionService) (c : ServiceCall) (id : String)
    → IsRevoked s.devices id
    → IsRevoked (service_step s c).devices id
step-IsRevoked_device s (open_call request policy now) id h =
    rw ((open-Moves request policy now s).1) h
step-IsRevoked_device s (permits_call session_id capability workspace now) id h =
    rw ((permits_session-Moves session_id capability workspace now s).1) h
step-IsRevoked_device s (renew_call session_id now extension) id h =
    rw ((renew_session-Moves session_id now extension s).1) h
step-IsRevoked_device s (close_call session_id now) id h =
    rw ((close_session-Moves session_id now s).1) h
step-IsRevoked_device s (registry_call c) id h = run-IsRevoked (c ∷ []) s.devices id h

-- The session with this id is closed.
abbrev pub HasClosed : SessionMap → String → Type 0
HasClosed m session_id =
    (r : ActiveSession) × (lookup session_id m ≡ some r) × (is_closed r.session.state ≡ true)

pub closed_record-closed : (r : ActiveSession) → is_closed (closed_record r).session.state ≡ true
unfolding close
closed_record-closed r = ground arith

pub open_is_not_closed : (x : SessionState) → is_open x ≡ true → is_closed x ≡ false
open_is_not_closed created h = refl
open_is_not_closed authenticated h = refl
open_is_not_closed open_state h = refl
open_is_not_closed closed h = cc

-- A lookup after a write to the map.
module _ (key id : String) (v : ActiveSession) (m n : SessionMap) (e : n ≡ put key v m) where
  found_same : key ≡ id → lookup id n ≡ some v
  found_same p = ground (arith, ap (lookup id) e, lookup-put key id v m, eq_iff key id)

  found_other : str_eq key id ≡ false → lookup id n ≡ lookup id m
  found_other p = ground (arith, ap (lookup id) e, lookup-put key id v m)

Move-HasClosed : {m n : SessionMap} (id : String) → Move m n → HasClosed m id → HasClosed n id
Move-HasClosed id (stay e) (r, h, c) = (r, rw e h, c)
Move-HasClosed {m} {n} id (enter request policy now u b e) (r, h, c) =
    let x = opened_record request policy now in
    elim (text-cases request.session_id id) [
      | inl p ↦ absurd (ground (arith, h, u, ap (λ (k : String). lookup k m) p))
      | inr p ↦ (r, found_other request.session_id id x m n e p ∙ h, c)
    ]
Move-HasClosed {m} {n} id (shut key x u e) (r, h, c) = elim (text-cases key id) [
  | inl p ↦ (closed_record x, found_same key id (closed_record x) m n e p, closed_record-closed x)
  | inr p ↦ (r, found_other key id (closed_record x) m n e p ∙ h, c)
]
Move-HasClosed {m} {n} id (extend key x until u o e) (r, h, c) =
    let y = record x { session = record x.session { expires_at = some until } } in
    elim (text-cases key id) [
      | inl p ↦ absurd (
          ground (
            arith,
            h,
            u,
            c,
            o,
            open_is_not_closed x.session.state,
            ap (λ (k : String). lookup k m) p,
          ))
      | inr p ↦ (r, found_other key id y m n e p ∙ h, c)
    ]

pub run-HasClosed :
    (cs : List ServiceCall) (s : SessionService) (id : String)
    → HasClosed s.sessions id
    → HasClosed (service_run cs s).sessions id
run-HasClosed [] s id h = h
run-HasClosed (c ∷ cs) s id h =
    run-HasClosed cs (service_step s c) id (Move-HasClosed id (step-Move s c) h)

pub run-IsRevoked_device :
    (cs : List ServiceCall) (s : SessionService) (id : String)
    → IsRevoked s.devices id
    → IsRevoked (service_run cs s).devices id
run-IsRevoked_device [] s id h = h
run-IsRevoked_device (c ∷ cs) s id h =
    run-IsRevoked_device cs (service_step s c) id (step-IsRevoked_device s c id h)

-- Where an opened session came from.
pub record Genuine (id : String) (r : ActiveSession) : Type 0 where
  pub request : SessionOpenRequest
  pub policy : Policy
  pub asked : request.session_id ≡ id
  pub bound_to : is_bound request ≡ true
  pub certified : r.certificate ≡ request.peer.certificate
  pub working : r.workspace ≡ request.capabilities.workspace
  pub authorized : r.authorization ≡ authorize request.capabilities policy
  pub leased : is_open r.session.state ≡ true → (until : ℕ) × (r.session.expires_at ≡ some until)

abbrev pub AllGenuine : SessionMap → Type 0
AllGenuine m = (id : String) (r : ActiveSession) → lookup id m ≡ some r → Genuine id r

Move-AllGenuine : {m n : SessionMap} → Move m n → AllGenuine m → AllGenuine n
Move-AllGenuine {m} {n} (stay e) h = rw e h
Move-AllGenuine {m} {n} (enter request policy now u b e) h = λ id r k.
    let x = opened_record request policy now in
    elim (text-cases request.session_id id) [
      | inr p ↦ h id r (sym (found_other request.session_id id x m n e p) ∙ k)
      | inl p ↦
          let q : x ≡ r = ground (arith, found_same request.session_id id x m n e p, k) in
          let g : Genuine id x = record {
            request = request;
            policy = policy;
            asked = p;
            bound_to = b;
            certified = refl;
            working = refl;
            authorized = refl;
            leased = λ _. (now + request.lease, refl);
          } in
          subst (λ (y : ActiveSession). Genuine id y) q g
    ]
Move-AllGenuine {m} {n} (shut key x u e) h = λ id r k. elim (text-cases key id) [
  | inr p ↦ h id r (sym (found_other key id (closed_record x) m n e p) ∙ k)
  | inl p ↦
      let w = h id x (subst (λ (i : String). lookup i m ≡ some x) p u) in
      let q : closed_record x ≡ r =
        ground (arith, found_same key id (closed_record x) m n e p, k) in
      let g : Genuine id (closed_record x) = record {
        request = w.request;
        policy = w.policy;
        asked = w.asked;
        bound_to = w.bound_to;
        certified = w.certified;
        working = w.working;
        authorized = w.authorized;
        leased = λ o. absurd (
            ground (
              arith,
              o,
              open_is_not_closed (closed_record x).session.state,
              closed_record-closed x,
            ));
      } in
      subst (λ (y : ActiveSession). Genuine id y) q g
]
Move-AllGenuine {m} {n} (extend key x until u o e) h = λ id r k.
    let y = record x { session = record x.session { expires_at = some until } } in
    elim (text-cases key id) [
      | inr p ↦ h id r (sym (found_other key id y m n e p) ∙ k)
      | inl p ↦
          let w = h id x (subst (λ (i : String). lookup i m ≡ some x) p u) in
          let q : y ≡ r = ground (arith, found_same key id y m n e p, k) in
          let g : Genuine id y = record {
            request = w.request;
            policy = w.policy;
            asked = w.asked;
            bound_to = w.bound_to;
            certified = w.certified;
            working = w.working;
            authorized = w.authorized;
            leased = λ _. (until, refl);
          } in
          subst (λ (z : ActiveSession). Genuine id z) q g
    ]

pub run-AllGenuine :
    (cs : List ServiceCall) (s : SessionService)
    → AllGenuine s.sessions
    → AllGenuine (service_run cs s).sessions
run-AllGenuine [] s h = h
run-AllGenuine (c ∷ cs) s h =
    run-AllGenuine cs (service_step s c) (Move-AllGenuine (step-Move s c) h)
