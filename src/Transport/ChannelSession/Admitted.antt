-- ===== src/Transport/ChannelSession/Admitted.antt =====
-- Sequences of calls of TcpChannelSession, and which connections are active after them.
use lan_pilot.Common.{
  ℕ, ok, true, false, [], ◌∷◌, refl, arith, ◌≡◌, List, inl, ◌<◌, inr, ◌∙◌, ◌≢◌, sym,
}
use lan_pilot.Transport.ChannelHandshake.{validate_hello, ChannelGrants}
use lan_pilot.Transport.ChannelSession.{
  TcpChannelSession, SessionCall, attaches, disconnects, revokes, session_step, session_run, active,
  attach, refuses_channel, connection, disconnect, revoke, new_session,
}
use lan_pilot.Transport.ChannelSession.Attachments.{Attached, Known, session_run-connection}

active-eq-true :
    (s : TcpChannelSession) (channel conn now : ℕ)
    → active s channel conn now ≡ ok true
    → Known channel
      × (conn ≢ 0)
      × (connection s channel ≡ conn)
      × (now < s.expires_at)
      × (s.revoked ≡ false)
unfolding active
active-eq-true s channel conn now e = ground arith

new_session-empty :
    (id : List ℕ) (generation : ℕ) (peer : List ℕ) (grants : ChannelGrants) (expires_at : ℕ)
    {s : TcpChannelSession}
    → new_session id generation peer grants expires_at ≡ ok s
    → (channel : ℕ) → connection s channel ≡ 0
unfolding new_session validate_hello
new_session-empty id generation peer grants expires_at e channel = ground arith

-- Whatever calls a new session has had, a connection is active on a channel only if one of the calls
-- attached it there, before the expiry, for this session and generation, with the authorized peer's
-- certificate and complete TLS evidence.
pub active-Attached :
    (id : List ℕ) (generation : ℕ) (peer : List ℕ) (grants : ChannelGrants) (expires_at : ℕ)
    {s : TcpChannelSession} (cs : List SessionCall) (channel conn now : ℕ)
    → new_session id generation peer grants expires_at ≡ ok s
    → active (session_run s cs) channel conn now ≡ ok true
    → Attached s channel conn cs
active-Attached id generation peer grants expires_at {s} cs channel conn now new e =
    let (k, z, c, soon, rest) = active-eq-true (session_run s cs) channel conn now e in
    elim (session_run-connection s channel conn cs k z c) [
      | inl before ↦
          absurd
            (z (sym before ∙ new_session-empty id generation peer grants expires_at new channel))
      | inr a ↦ a
    ]

session_step-revoked :
    (s : TcpChannelSession) (c : SessionCall) → s.revoked ≡ true → (session_step s c).revoked ≡ true
unfolding session_step attach refuses_channel disconnect revoke
session_step-revoked s (attaches hello p conn now) e = ground arith
session_step-revoked s (disconnects conn) e = ground arith
session_step-revoked s revokes e = refl

session_run-revoked :
    (s : TcpChannelSession) (cs : List SessionCall)
    → s.revoked ≡ true
    → (session_run s cs).revoked ≡ true
unfolding session_run
session_run-revoked s [] e = e
session_run-revoked s (c ∷ cs) e =
    session_run-revoked (session_step s c) cs (session_step-revoked s c e)

-- Once a connection that was active on either channel is lost, no connection is active on any
-- channel, whatever calls follow and at whatever time.
pub disconnect-final :
    (s : TcpChannelSession) (channel conn now : ℕ)
    → active s channel conn now ≡ ok true
    → (cs : List SessionCall) (other c later : ℕ)
    → active (session_run (disconnect s conn) cs) other c later ≡ ok false
unfolding active disconnect revoke
disconnect-final s channel conn now e cs other c later =
    let (k, z, is, soon, rest) = active-eq-true s channel conn now e in
    let gone : (disconnect s conn).revoked ≡ true = ground arith in
    rw (session_run-revoked (disconnect s conn) cs gone) refl
