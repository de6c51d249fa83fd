-- ===== src/Core/Tests/Sessions.antt =====
-- Runs of the session service.
use Prim.Native.String.{String}
use lan_pilot.Common.{
  [], ◌∷◌, refl, true, false, some, ok, err, invalid_argument, List, lookup, ◌≡◌, put, bits_xor,
  bits_or, insert, is_empty,
}
use lan_pilot.Core.Capability
use lan_pilot.Core.Tests.Peers.{devices, peer, phone}
use lan_pilot.Core.Tests.Logs.{log}
use lan_pilot.Core.SessionService.Opening.{MayOpen, opened_record, open_peer_session-unaudited}
use lan_pilot.Core.SessionService.{
  open_peer_session, ActiveSession, SessionService, permits_session, save, close_session, is_bound,
  SessionOpenRequest,
}
use lan_pilot.Core.Identity.{
  find, PairedDevice, verify_mtls, is_accepted, verify, constant_time_equals, verify_device,
}
use lan_pilot.Core.SessionService.Permits.{
  permits_session-revoked, close_session-final, permits_session-untrusted_final,
}
use lan_pilot.Core.Audit.{identifier_or_empty}
use lan_pilot.Core.Authorization.{Policy, default_agent_policy, permits, authorize}
use lan_pilot.Core.Identity.Revocation.{IsRevoked}
use lan_pilot.Core.SessionService.Runs.{service_run, ServiceCall, open_call, renew_call}

abbrev request : String → SessionOpenRequest
request id = record {
  session_id = id;
  peer = peer;
  is_device = true;
  capabilities = record {
    principal = "phone";
    workspace = "main";
    requested = Capability.desktop_view ∷ Capability.git_diff ∷ [];
  };
  lease = 30;
}

abbrev policy : Policy
policy = default_agent_policy "phone" "main"

abbrev service : SessionService
service = record { devices = devices; audit = log; sessions = [] }

abbrev calls : List ServiceCall
calls = open_call (request "s-1") policy 20 ∷ renew_call "s-1" 40 50 ∷ []

may_open : (id : String) → is_empty id ≡ false → MayOpen (request id) policy 20 service
unfolding verify_mtls lookup bits_xor bits_or authorize default_agent_policy insert is_bound
    constant_time_equals
may_open id e = record {
  has_id = e;
  has_lease = refl;
  unused = refl;
  trusted = refl;
  bound = refl;
  granting = refl;
}

bad_id : identifier_or_empty "s 1" ≡ false
unfolding identifier_or_empty
bad_id = refl

open_peer_session-unaudited_example :
    ((open_peer_session (request "s 1") policy 20 service).1 ≡ err invalid_argument)
    × ((open_peer_session (request "s 1") policy 20 service).0.audit ≡ log)
    × ((permits_session "s 1" Capability.git_diff "main" 20
          (open_peer_session (request "s 1") policy 20 service).0).1
        ≡ ok (permits (authorize (request "s 1").capabilities policy) Capability.git_diff))
open_peer_session-unaudited_example =
    open_peer_session-unaudited (request "s 1") policy 20 service (may_open "s 1" refl) bad_id
      Capability.git_diff

abbrev held : ActiveSession
held = opened_record (request "s-1") policy 20

abbrev holding : SessionService
holding = save "s-1" held service

holds : lookup "s-1" holding.sessions ≡ some held
unfolding lookup put
holds = refl

abbrev revoked_phone : PairedDevice
revoked_phone = record phone { is_revoked = true }

abbrev untrusting : SessionService
untrusting = record holding { devices = ("phone", revoked_phone) ∷ [] }

phone-IsRevoked : IsRevoked untrusting.devices "phone"
unfolding find lookup
phone-IsRevoked = (revoked_phone, refl, refl)

permits_session-revoked_example :
    (permits_session "s-1" Capability.git_diff "main" 25 (service_run [] untrusting)).1 ≡ ok false
permits_session-revoked_example =
    permits_session-revoked untrusting "phone" phone-IsRevoked [] "s-1" held holds refl
      Capability.git_diff "main" 25

close_session-final_example :
    (permits_session "s-1" Capability.git_diff "main" 26
      (service_run calls (close_session "s-1" 25 holding).0)).1
    ≡ ok false
close_session-final_example =
    close_session-final holding "s-1" held 25 holds calls Capability.git_diff "main" 26

-- The certificate has not begun at 9.
too_early : is_accepted (verify holding.devices held.certificate 9) ≡ false
unfolding verify verify_device find lookup constant_time_equals bits_xor bits_or
too_early = refl

permits_session-untrusted_final_example :
    (permits_session "s-1" Capability.git_diff "main" 26
      (service_run calls (permits_session "s-1" Capability.desktop_view "main" 9 holding).0)).1
    ≡ ok false
permits_session-untrusted_final_example =
    permits_session-untrusted_final holding "s-1" held 9 holds too_early Capability.desktop_view
      "main" calls Capability.git_diff "main" 26
