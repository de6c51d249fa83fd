-- ===== src/Core/Session.antt =====
-- core/src/session.cpp: the states of one session. `authenticate` with a certificate is the one with
-- a truth value, given whether the registry accepts the certificate.
use Prim.Native.String.{String}
use lan_pilot.Common.{
  ℕ, ok, true, false, none, some, [], ◌∷◌, if◌then◌else◌, Option, Bool, List, Result, not, ltb,
  throw_if, ◌&&◌, ◌||◌, is_empty, invalid_argument, logic_error, ◌==◌, ◌⨾◌, ◌+◌,
}
use lan_pilot.Core.Authorization.{AuthorizationResult}
use lan_pilot.Core.Identity.{PeerCertificate, DeviceRegistry, is_accepted, verify}

pub data SessionState : Type 0 where
  created authenticated open_state closed : SessionState

pub record Session : Type 0 where
  pub id : String
  pub state : SessionState
  pub expires_at : Option ℕ

abbrev pub is_created : SessionState → Bool
is_created created = true
is_created authenticated = false
is_created open_state = false
is_created closed = false

abbrev pub is_authenticated : SessionState → Bool
is_authenticated created = false
is_authenticated authenticated = true
is_authenticated open_state = false
is_authenticated closed = false

abbrev pub is_open : SessionState → Bool
is_open created = false
is_open authenticated = false
is_open open_state = true
is_open closed = false

abbrev pub is_closed : SessionState → Bool
is_closed created = false
is_closed authenticated = false
is_closed open_state = false
is_closed closed = true

unfoldable pub new_session : String → Result Session
new_session id =
    throw_if (is_empty id) invalid_argument
    ⨾ ok (record { id = id; state = created; expires_at = none })

unfoldable pub authenticate : Bool → Session → Result Session
authenticate peer_certificate_verified s =
    throw_if (not (is_created s.state) || not peer_certificate_verified) logic_error
    ⨾ ok (record s { state = authenticated })

unfoldable pub authenticate_certificate :
    PeerCertificate → DeviceRegistry → ℕ → Session → Result Session
unfolding authenticate
authenticate_certificate certificate devices now s =
    authenticate (is_accepted (verify devices certificate now)) s

abbrev pub is_nil : List ℕ → Bool
is_nil [] = true
is_nil (c ∷ cs) = false

-- An authorization that grants nothing.
abbrev pub grants_nothing : AuthorizationResult → Bool
grants_nothing authorization =
    not authorization.principal_matched
    || not authorization.workspace_allowed
    || is_nil authorization.granted

unfoldable pub open_session : AuthorizationResult → Session → Result Session
open_session authorization s =
    throw_if (not (is_authenticated s.state) || grants_nothing authorization) logic_error
    ⨾ ok (record s { state = open_state })

abbrev pub not_past : Option ℕ → ℕ → Bool
not_past none now = true
not_past (some expires_at) now = ltb now expires_at

unfoldable pub active_at : Session → ℕ → Bool
active_at s now = is_open s.state && not_past s.expires_at now

unfoldable pub renew : ℕ → ℕ → Session → Result Session
unfolding active_at
renew now extension s =
    throw_if (not (active_at s now) || extension == 0) logic_error
    ⨾ ok (record s { expires_at = some (now + extension) })

unfoldable pub close : Session → Session
close s = if is_closed s.state then s else record s { state = closed; expires_at = none }
