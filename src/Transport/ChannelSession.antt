-- ===== src/Transport/ChannelSession.antt =====
-- TcpChannelSession of transport/src/channel_session.cpp. A time point of the steady clock is a
-- number of its ticks.
pub mod Attachments
pub mod Admitted
use lan_pilot.Common.{
  ℕ, zero, suc, ok, err, true, false, none, some, [], ◌∷◌, if◌then◌else◌, List, ◌==◌, Result, Bool,
  ◌||◌, not, ◌⨾◌, ◌&&◌, throw_if, leb, ◌!=◌, bytes_eq, ltb, invalid_argument,
}
use lan_pilot.Transport.ChannelHandshake.{
  visual, control, ChannelHello, ChannelGrants, AuthenticatedPeerEvidence, validate_hello,
  validate_authenticated_peer_evidence, nonzero, check_channel,
}

-- `connections_` is an array of two.
pub record TcpChannelSession : Type 0 where
  pub id : List ℕ
  pub generation : ℕ
  pub peer : List ℕ
  pub grants : ChannelGrants
  pub expires_at : ℕ
  pub visual_connection : ℕ
  pub control_connection : ℕ
  pub revoked : Bool

-- The constructor.
unfoldable pub new_session : List ℕ → ℕ → List ℕ → ChannelGrants → ℕ → Result TcpChannelSession
new_session id generation peer grants expires_at =
    validate_hello (record { channel = visual; session_id = id; generation = generation })
    ⨾ throw_if (not (nonzero peer)) invalid_argument
    ⨾ throw_if (grants.desktop_input && not grants.control) invalid_argument
    ⨾ ok (record {
      id = id;
      generation = generation;
      peer = peer;
      grants = grants;
      expires_at = expires_at;
      visual_connection = 0;
      control_connection = 0;
      revoked = false;
    })

-- `connections_[index(channel)]` and `allowed[index(channel)]`, for a channel that is known.
abbrev pub connection : TcpChannelSession → ℕ → ℕ
connection s channel = if channel == visual then s.visual_connection else s.control_connection

abbrev pub allowed : TcpChannelSession → ℕ → Bool
allowed s channel = if channel == visual then s.grants.visual else s.grants.control

abbrev pub connect : TcpChannelSession → ℕ → ℕ → TcpChannelSession
connect s channel connection_id =
    if channel == visual
    then record s { visual_connection = connection_id }
    else record s { control_connection = connection_id }

unfoldable pub refuses_channel :
    TcpChannelSession → ChannelHello → AuthenticatedPeerEvidence → ℕ → ℕ → Bool
refuses_channel s hello verified_peer connection_id now =
    s.revoked
    || leb s.expires_at now
    || not (bytes_eq hello.session_id s.id)
    || hello.generation != s.generation
    || not (bytes_eq verified_peer.certificate_sha256 s.peer)
    || not (allowed s hello.channel)
    || connection_id == 0
    || connection s hello.channel != 0
    || s.visual_connection == connection_id
    || s.control_connection == connection_id

unfoldable pub attach :
    TcpChannelSession
    → ChannelHello
    → AuthenticatedPeerEvidence
    → ℕ
    → ℕ
    → TcpChannelSession × Result Bool
unfolding refuses_channel
attach s hello verified_peer connection_id now =
    elim (validate_hello hello ⨾ validate_authenticated_peer_evidence verified_peer) [
      | err e ↦ (s, err e)
      | ok _ ↦
          if refuses_channel s hello verified_peer connection_id now
          then (s, ok false)
          else (connect s hello.channel connection_id, ok true)
    ]

-- The conditions before `index(channel)` are short-circuiting, so an unknown channel throws only
-- where they hold.
unfoldable pub active : TcpChannelSession → ℕ → ℕ → ℕ → Result Bool
active s channel connection_id now =
    if not (not s.revoked && ltb now s.expires_at && connection_id != 0)
    then ok false
    else check_channel channel ⨾ ok (connection s channel == connection_id)

unfoldable pub revoke : TcpChannelSession → TcpChannelSession
revoke s = record s { revoked = true; visual_connection = 0; control_connection = 0 }

unfoldable pub disconnect : TcpChannelSession → ℕ → TcpChannelSession
unfolding revoke
disconnect s connection_id =
    if connection_id == 0
    then s
    else if s.visual_connection == connection_id || s.control_connection == connection_id
    then revoke s
    else s

unfoldable pub input_allowed : TcpChannelSession → ℕ → ℕ → Result Bool
unfolding active
input_allowed s connection_id now =
    if not (s.grants.desktop_input && s.visual_connection != 0)
    then ok false
    else active s control connection_id now

-- One call of a member function that may change the state.
pub data SessionCall : Type 0 where
  attaches : ChannelHello → AuthenticatedPeerEvidence → ℕ → ℕ → SessionCall
  disconnects : ℕ → SessionCall
  revokes : SessionCall

unfoldable pub session_step : TcpChannelSession → SessionCall → TcpChannelSession
unfolding attach disconnect revoke
session_step s (attaches hello verified_peer connection_id now) =
    (attach s hello verified_peer connection_id now).0
session_step s (disconnects connection_id) = disconnect s connection_id
session_step s revokes = revoke s

unfoldable pub session_run : TcpChannelSession → List SessionCall → TcpChannelSession
unfolding session_step
session_run s [] = s
session_run s (c ∷ cs) = session_run (session_step s c) cs
