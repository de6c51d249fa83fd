-- ===== src/Transport/ChannelSession/Attachments.antt =====
-- How the calls of TcpChannelSession change its connections.
use lan_pilot.Common.{
  ℕ, ok, true, false, [], ◌∷◌, arith, ◌≡◌, List, ◌⊎◌, inl, bytes_eq_sound, ◌<◌, ap, inr, ◌∙◌, subst,
  ◌≢◌, sym,
}
use lan_pilot.Transport.ChannelHandshake.{
  visual, control, ChannelHello, AuthenticatedPeerEvidence, validate_hello,
  validate_authenticated_peer_evidence,
}
use lan_pilot.Transport.ChannelSession.{
  TcpChannelSession, SessionCall, attaches, disconnects, revokes, session_step, session_run, attach,
  refuses_channel, connection, connect, disconnect, allowed, revoke,
}

-- What does not change.
abbrev pub Same : TcpChannelSession → TcpChannelSession → Type 0
Same s t =
    (t.id ≡ s.id)
    × (t.generation ≡ s.generation)
    × (t.peer ≡ s.peer)
    × (t.grants ≡ s.grants)
    × (t.expires_at ≡ s.expires_at)

pub session_step-Same : (s : TcpChannelSession) (c : SessionCall) → Same s (session_step s c)
unfolding session_step
session_step-Same s (attaches hello p connection_id now) = ground arith
session_step-Same s (disconnects connection_id) = ground arith
session_step-Same s revokes = ground arith

-- The call attaches this connection to this channel, before the expiry, for this session, with
-- complete evidence of this session's peer.
pub record Attaches (s : TcpChannelSession) (channel connection_id : ℕ) (hello : ChannelHello)
    (p : AuthenticatedPeerEvidence) (conn now : ℕ) : Type 0 where
  pub on_channel : hello.channel ≡ channel
  pub as_connection : conn ≡ connection_id
  pub session : (hello.session_id ≡ s.id) × (hello.generation ≡ s.generation)
  pub peer : p.certificate_sha256 ≡ s.peer
  pub evidence :
      (p.tls_1_3_negotiated ≡ true)
      × (p.certificate_chain_valid ≡ true)
      × (p.revocation_checked ≡ true)
  pub granted : allowed s channel ≡ true
  pub in_time : now < s.expires_at

abbrev pub IsAttachment : TcpChannelSession → ℕ → ℕ → SessionCall → Type 0
IsAttachment s channel connection_id (attaches hello p conn now) =
    Attaches s channel connection_id hello p conn now
IsAttachment s channel connection_id _ = ⊥

abbrev pub Attached : TcpChannelSession → ℕ → ℕ → List SessionCall → Type 0
Attached s channel connection_id [] = ⊥
Attached s channel connection_id (c ∷ cs) =
    IsAttachment s channel connection_id c ⊎ Attached s channel connection_id cs

abbrev pub Known : ℕ → Type 0
Known channel = (channel ≡ visual) ⊎ (channel ≡ control)

attach-cases :
    (s : TcpChannelSession) (hello : ChannelHello) (p : AuthenticatedPeerEvidence) (conn now : ℕ)
    → ((attach s hello p conn now).0 ≡ s)
      ⊎ (((attach s hello p conn now).0 ≡ connect s hello.channel conn)
          × (validate_hello hello ≡ ok tt)
          × (validate_authenticated_peer_evidence p ≡ ok tt)
          × (refuses_channel s hello p conn now ≡ false))
unfolding attach
attach-cases s hello p conn now = ground arith

attached :
    (s : TcpChannelSession) (hello : ChannelHello) (p : AuthenticatedPeerEvidence) (conn now : ℕ)
    → validate_authenticated_peer_evidence p ≡ ok tt
    → refuses_channel s hello p conn now ≡ false
    → Attaches s hello.channel conn hello p conn now
unfolding validate_authenticated_peer_evidence refuses_channel
attached s hello p conn now e r =
    ground (arith, bytes_eq_sound hello.session_id s.id, bytes_eq_sound p.certificate_sha256 s.peer)

connection-connect :
    (s : TcpChannelSession) (channel other conn : ℕ)
    → Known channel
    → Known other
    → (connection (connect s other conn) channel ≡ connection s channel)
      ⊎ ((other ≡ channel) × (connection (connect s other conn) channel ≡ conn))
connection-connect s channel other conn k l = ground arith

known : (h : ChannelHello) → validate_hello h ≡ ok tt → Known h.channel
unfolding validate_hello
known h v = ground arith

connection-attach :
    (s : TcpChannelSession) (channel : ℕ) (hello : ChannelHello) (p : AuthenticatedPeerEvidence)
    (conn now : ℕ)
    → Known channel
    → let t = (attach s hello p conn now).0 in
      (connection t channel ≡ connection s channel)
      ⊎ Attaches s channel (connection t channel) hello p conn now
connection-attach s channel hello p conn now k = elim (attach-cases s hello p conn now) [
  | inl same ↦ inl (ap (λ t. connection t channel) same)
  | inr (new, valid, evidence, fresh) ↦
      elim (connection-connect s channel hello.channel conn k (known hello valid)) [
        | inl other ↦ inl (ap (λ t. connection t channel) new ∙ other)
        | inr (this, is) ↦
            let a = attached s hello p conn now evidence fresh in
            let e = ap (λ t. connection t channel) new ∙ is in
            inr (rw e (subst (λ c. Attaches s c conn hello p conn now) this a))
      ]
]

session_step-connection :
    (s : TcpChannelSession) (channel : ℕ) (c : SessionCall)
    → Known channel
    → let t = session_step s c in
      (connection t channel ≡ connection s channel)
      ⊎ (connection t channel ≡ 0)
      ⊎ IsAttachment s channel (connection t channel) c
unfolding session_step disconnect revoke
session_step-connection s channel (attaches hello p conn now) k =
    elim (connection-attach s channel hello p conn now k) [
      | inl same ↦ inl same
      | inr new ↦ inr (inr new)
    ]
session_step-connection s channel (disconnects conn) k = ground arith
session_step-connection s channel revokes k = ground arith

Attached-Same :
    (s t : TcpChannelSession) (channel conn : ℕ) (cs : List SessionCall)
    → Same s t
    → Attached t channel conn cs
    → Attached s channel conn cs
Attached-Same s t channel conn [] e a = a
Attached-Same s t channel conn (c ∷ cs) e (inr later) =
    inr (Attached-Same s t channel conn cs e later)
Attached-Same s t channel conn (disconnects _ ∷ cs) e (inl a) = absurd a
Attached-Same s t channel conn (revokes ∷ cs) e (inl a) = absurd a
Attached-Same s t channel conn (attaches hello p c now ∷ cs) (i, g, p', r, x) (inl a) =
    inl (record {
      on_channel = a.on_channel;
      as_connection = a.as_connection;
      session = (a.session.0 ∙ i, a.session.1 ∙ g);
      peer = a.peer ∙ p';
      evidence = a.evidence;
      granted = rw (← r) a.granted;
      in_time = rw (← x) a.in_time;
    })

pub session_run-connection :
    (s : TcpChannelSession) (channel conn : ℕ) (cs : List SessionCall)
    → Known channel
    → conn ≢ 0
    → connection (session_run s cs) channel ≡ conn
    → (connection s channel ≡ conn) ⊎ Attached s channel conn cs
unfolding session_run
session_run-connection s channel conn [] k z e = inl e
session_run-connection s channel conn (c ∷ cs) k z e =
    let t = session_step s c in
    elim (session_run-connection t channel conn cs k z e) [
      | inr later ↦ inr (inr (Attached-Same s t channel conn cs (session_step-Same s c) later))
      | inl now ↦ elim (session_step-connection s channel c k) [
        | inl before ↦ inl (sym before ∙ now)
        | inr (inl gone) ↦ absurd (z (sym now ∙ gone))
        | inr (inr a) ↦ inr (inl (subst (λ n. IsAttachment s channel n c) now a))
      ]
    ]
