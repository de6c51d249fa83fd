-- ===== src/Core/Authorization.antt =====
-- core/src/authorization.cpp: capabilities, policies and what a policy grants. The capability is an
-- enum class, a number here with its values in Capability; a std::set of capabilities is sorted, and
-- a set of workspaces is a list of which only membership is asked.
pub mod Granting
pub mod Names
use Prim.Native.String.{String}
use text.Mathlib.Text.{◌==◌ as str_eq}
use lan_pilot.Common.{
  ℕ, true, false, none, some, [], ◌∷◌, if◌then◌else◌, ◌&&◌, Bool, ◌==◌, List, Option, insert,
  contains, ◌||◌, not,
}
use lan_pilot.Core.Capability

pub record CapabilityRequest : Type 0 where
  pub principal : String
  pub workspace : String
  pub requested : List ℕ

pub record Policy : Type 0 where
  pub principal_id : String
  pub workspaces : List String
  pub allowed : List ℕ

pub record AuthorizationResult : Type 0 where
  pub principal_matched : Bool
  pub workspace_allowed : Bool
  pub granted : List ℕ
  pub denied : List ℕ

unfoldable pub permits : AuthorizationResult → ℕ → Bool
permits r capability = r.principal_matched && r.workspace_allowed && contains r.granted capability

abbrev pub has_text : List String → String → Bool
has_text [] s = false
has_text (t ∷ ts) s = str_eq s t || has_text ts s

-- One round of the loop of `authorize`, and the loop.
unfoldable pub grant_one : Policy → AuthorizationResult → ℕ → AuthorizationResult
grant_one policy r capability =
    if r.principal_matched && r.workspace_allowed && contains policy.allowed capability
    then record r { granted = insert capability r.granted }
    else record r { denied = insert capability r.denied }

unfoldable pub grant_each : List ℕ → Policy → AuthorizationResult → AuthorizationResult
unfolding grant_one
grant_each [] policy r = r
grant_each (capability ∷ rest) policy r = grant_each rest policy (grant_one policy r capability)

abbrev pub not_empty : String → Bool
not_empty s = not (str_eq s "")

-- The result before the loop.
abbrev pub authorize_start : CapabilityRequest → Policy → AuthorizationResult
authorize_start request policy = record {
  principal_matched = not_empty request.principal && str_eq request.principal policy.principal_id;
  workspace_allowed = not_empty request.workspace && has_text policy.workspaces request.workspace;
  granted = [];
  denied = [];
}

unfoldable pub authorize : CapabilityRequest → Policy → AuthorizationResult
unfolding grant_each
authorize request policy = grant_each request.requested policy (authorize_start request policy)

unfoldable pub default_agent_policy : String → String → Policy
default_agent_policy principal_id workspace = record {
  principal_id = principal_id;
  workspaces = workspace ∷ [];
  allowed =
      Capability.workspace_read ∷ Capability.workspace_write ∷ Capability.build_submit
      ∷ Capability.test_run ∷ Capability.artifact_read ∷ Capability.git_status ∷ Capability.git_diff
      ∷ [];
}

unfoldable pub to_string : ℕ → String
to_string capability =
    if capability == Capability.desktop_view
    then "desktop.view"
    else if capability == Capability.desktop_control
    then "desktop.control"
    else if capability == Capability.clipboard_read
    then "clipboard.read"
    else if capability == Capability.clipboard_write
    then "clipboard.write"
    else if capability == Capability.workspace_read
    then "workspace.read"
    else if capability == Capability.workspace_write
    then "workspace.write"
    else if capability == Capability.workspace_sync
    then "workspace.sync"
    else if capability == Capability.terminal_open
    then "terminal.open"
    else if capability == Capability.command_exec
    then "command.exec"
    else if capability == Capability.build_submit
    then "build.submit"
    else if capability == Capability.test_run
    then "test.run"
    else if capability == Capability.artifact_read
    then "artifact.read"
    else if capability == Capability.artifact_download
    then "artifact.download"
    else if capability == Capability.deploy_execute
    then "deploy.execute"
    else if capability == Capability.agent_run
    then "agent.run"
    else if capability == Capability.git_status
    then "git.status"
    else if capability == Capability.git_diff
    then "git.diff"
    else if capability == Capability.system_admin
    then "system.admin"
    else "unknown"

abbrev pub capabilities : List ℕ
capabilities =
    Capability.desktop_view ∷ Capability.desktop_control ∷ Capability.clipboard_read
    ∷ Capability.clipboard_write ∷ Capability.workspace_read ∷ Capability.workspace_write
    ∷ Capability.workspace_sync ∷ Capability.terminal_open ∷ Capability.command_exec
    ∷ Capability.build_submit ∷ Capability.test_run ∷ Capability.artifact_read
    ∷ Capability.artifact_download ∷ Capability.deploy_execute ∷ Capability.agent_run
    ∷ Capability.git_status ∷ Capability.git_diff ∷ Capability.system_admin ∷ []

-- The loop over `capabilities`.
unfoldable pub find_named : List ℕ → String → Option ℕ
unfolding to_string
find_named [] name = none
find_named (c ∷ cs) name =
    let rest = find_named cs name in if str_eq (to_string c) name then some c else rest

unfoldable pub capability_from_string : String → Option ℕ
unfolding find_named
capability_from_string name = find_named capabilities name
