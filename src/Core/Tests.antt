-- ===== src/Core/Tests.antt =====
-- Runs of the authorization.
mod Peers
mod Sessions
mod Logs
mod Workspaces
mod Ledgers
use lan_pilot.Common.{[], ◌∷◌, refl, some, ◌≡◌, ◌↔◌, ◌&&◌, contains, not}
use lan_pilot.Core.Capability
use lan_pilot.Core.Authorization.{
  CapabilityRequest, authorize, permits, default_agent_policy, capability_from_string, to_string,
}
use lan_pilot.Core.Authorization.Granting.{admits, permits-authorize}
use lan_pilot.Core.Authorization.Names.{capability_from_string-to_string}

abbrev request : CapabilityRequest
request = record {
  principal = "agent-1";
  workspace = "main";
  requested = Capability.workspace_read ∷ Capability.system_admin ∷ [];
}

permits-authorize_example :
    (permits (authorize request (default_agent_policy "agent-1" "main")) Capability.workspace_read
      ≡ (admits (default_agent_policy "agent-1" "main") request
          && contains (default_agent_policy "agent-1" "main").allowed Capability.workspace_read
          && contains request.requested Capability.workspace_read))
    × (contains
          (authorize request (default_agent_policy "agent-1" "main")).denied
          Capability.workspace_read
        ≡ (contains request.requested Capability.workspace_read
            && not (
                permits
                  (authorize request (default_agent_policy "agent-1" "main"))
                  Capability.workspace_read)))
permits-authorize_example =
    permits-authorize request (default_agent_policy "agent-1" "main") Capability.workspace_read
