-- ===== src/Transport/Tests.antt =====
-- Runs of the handshake and of a session.
mod Networks
use lan_pilot.Common.{
  ℕ, true, false, [], ◌∷◌, refl, ok, ◌≡◌, List, arith, replicate, ◌<◌, ◌++◌, ◌↔◌, bytes_eq,
}
use lan_pilot.Desktop.Wire.{IsBytes}
use lan_pilot.Transport.ChannelHandshake.{
  ChannelHello, ChannelGrants, ChannelAdmission, AuthenticatedPeerEvidence, visual, control,
  validate_channel_admission, encode_channel_hello, encode_channel_admission, validate_hello,
  decode_channel_hello, decode_channel_admission, validate_authenticated_peer_evidence,
}
use lan_pilot.Transport.ChannelSession.{
  TcpChannelSession, SessionCall, attaches, new_session, active, session_run, disconnect, attach,
  refuses_channel,
}
use lan_pilot.Transport.ChannelSession.Admitted.{active-Attached, disconnect-final}
use lan_pilot.Transport.ChannelSession.Attachments.{Attached}
use lan_pilot.Transport.ChannelHandshake.Codec.{
  validate_channel_admission_lem, channel_admission_codec, channel_hello_codec,
}

abbrev id : List ℕ
id = replicate 16 3

abbrev peer : List ℕ
peer = replicate 32 9

abbrev hello_on : ℕ → ChannelHello
hello_on channel = record { channel = channel; session_id = id; generation = 2 }

abbrev hello_wire : List ℕ
hello_wire =
    b'L' ∷ b'P' ∷ b'T' ∷ b'1' ∷ 1 ∷ 1 ∷ 0 ∷ 0 ∷ (id ++ (0 ∷ 0 ∷ 0 ∷ 0 ∷ 0 ∷ 0 ∷ 0 ∷ 2 ∷ []))

hello_wire-IsBytes : IsBytes hello_wire
hello_wire-IsBytes = ground arith

abbrev grants : ChannelGrants
grants = record { visual = true; control = true; desktop_input = true }

abbrev admission : ChannelAdmission
admission = record { session_id = id; generation = 2; grants = grants }

abbrev admission_wire : List ℕ
admission_wire =
    b'L' ∷ b'P' ∷ b'A' ∷ b'1' ∷ 1 ∷ 7 ∷ 0 ∷ 0 ∷ (id ++ (0 ∷ 0 ∷ 0 ∷ 0 ∷ 0 ∷ 0 ∷ 0 ∷ 2 ∷ []))

admission_wire-IsBytes : IsBytes admission_wire
admission_wire-IsBytes = ground arith

admission_answers : validate_channel_admission admission (hello_on visual) true ≡ ok tt
unfolding validate_channel_admission validate_hello bytes_eq
admission_answers = refl

abbrev evidence : AuthenticatedPeerEvidence
evidence = record {
  certificate_sha256 = peer;
  tls_1_3_negotiated = true;
  certificate_chain_valid = true;
  revocation_checked = true;
}

abbrev session : TcpChannelSession
session = record {
  id = id;
  generation = 2;
  peer = peer;
  grants = grants;
  expires_at = 100;
  visual_connection = 0;
  control_connection = 0;
  revoked = false;
}

session_made : new_session id 2 peer grants 100 ≡ ok session
unfolding new_session validate_hello
session_made = refl

abbrev calls : List SessionCall
calls = attaches (hello_on visual) evidence 11 5 ∷ attaches (hello_on control) evidence 12 6 ∷ []

control_active : active (session_run session calls) control 12 50 ≡ ok true
unfolding active session_run attach validate_hello validate_authenticated_peer_evidence
    refuses_channel bytes_eq
control_active = refl

active-Attached_example : Attached session control 12 calls
active-Attached_example =
    active-Attached id 2 peer grants 100 calls control 12 50 session_made control_active

disconnect-final_example :
    active (session_run (disconnect (session_run session calls) 12) calls) control 12 50 ≡ ok false
disconnect-final_example =
    disconnect-final (session_run session calls) control 12 50 control_active calls control 12 50
