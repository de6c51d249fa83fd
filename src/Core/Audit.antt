-- ===== src/Core/Audit.antt =====
-- core/src/audit.cpp: the audit log. The sink is an interface that this code only calls: its
-- append_line, given the line that event_json_line makes of the event, is a function of the event
-- that returns or throws.
pub mod Order
pub mod Query
use Prim.Native.String.{String, len}
use text.Mathlib.Text.{◌==◌ as str_eq}
use lan_pilot.Common.{
  ℕ, zero, suc, ok, err, true, false, none, some, [], ◌∷◌, if◌then◌else◌, codes, Bool, List, ◌-◌,
  Result, Option, not, is_empty, ◌++◌, ◌||◌, ◌&&◌, drop, ◌⨾◌, ltb, leb, throw_if, length,
  invalid_argument, ◌==◌, ◌!=◌,
}
use lan_pilot.Core.Identity.{is_digit, is_hex}

pub data AuditAction : Type 0 where
  pairing_started pairing_confirmed : AuditAction
  session_authenticated session_opened session_renewed session_closed : AuditAction
  device_revoked : AuditAction
  workspace_sync_started workspace_sync_committed workspace_sync_failed : AuditAction
  build_submitted build_completed : AuditAction
  artifact_published artifact_downloaded : AuditAction
  deployment_started deployment_active deployment_rolled_back deployment_failed : AuditAction
  scope_access_denied audit_exported : AuditAction
  agent_job_started agent_review_requested agent_review_granted : AuditAction
  agent_tool_completed agent_job_completed : AuditAction

pub data AuditResult : Type 0 where
  allowed denied failed : AuditResult

pub record AuditEvent : Type 0 where
  pub occurred_at : ℕ
  pub principal_id : String
  pub device_id : String
  pub session_id : String
  pub workspace_id : String
  pub build_id : String
  pub artifact_id : String
  pub artifact_sha256 : List ℕ
  pub source_revision : ℕ
  pub deployment_id : String
  pub process_role : String
  pub reason_code : String
  pub agent_job_id : String
  pub tool_name : String
  pub evidence_id : String
  pub action : AuditAction
  pub outcome : AuditResult

abbrev pub is_identifier : ℕ → Bool
is_identifier c =
    is_digit c || leb 65 c && leb c 90 || leb 97 c && leb c 122 || c == 45 || c == 95 || c == 46

abbrev pub all_identifiers : List ℕ → Bool
all_identifiers [] = true
all_identifiers (c ∷ cs) = is_identifier c && all_identifiers cs

unfoldable pub identifier_or_empty : String → Bool
identifier_or_empty value = leb (len value) 128 && all_identifiers (codes value)

abbrev pub session_action : AuditAction → Bool
session_action session_authenticated = true
session_action session_opened = true
session_action session_renewed = true
session_action session_closed = true
session_action _ = false

abbrev artifact_action : AuditAction → Bool
artifact_action artifact_published = true
artifact_action artifact_downloaded = true
artifact_action _ = false

abbrev deployment_action : AuditAction → Bool
deployment_action deployment_started = true
deployment_action deployment_active = true
deployment_action deployment_rolled_back = true
deployment_action deployment_failed = true
deployment_action _ = false

abbrev workspace_action : AuditAction → Bool
workspace_action workspace_sync_started = true
workspace_action workspace_sync_committed = true
workspace_action workspace_sync_failed = true
workspace_action _ = false

abbrev build_action : AuditAction → Bool
build_action build_submitted = true
build_action build_completed = true
build_action _ = false

abbrev agent_action : AuditAction → Bool
agent_action agent_job_started = true
agent_action agent_review_requested = true
agent_action agent_review_granted = true
agent_action agent_tool_completed = true
agent_action agent_job_completed = true
agent_action _ = false

abbrev is_scope_access_denied : AuditAction → Bool
is_scope_access_denied scope_access_denied = true
is_scope_access_denied _ = false

abbrev is_build_completed : AuditAction → Bool
is_build_completed build_completed = true
is_build_completed _ = false

abbrev is_agent_tool_completed : AuditAction → Bool
is_agent_tool_completed agent_tool_completed = true
is_agent_tool_completed _ = false

-- A text of the event that is not an identifier.
unfoldable pub bad_identifier : AuditEvent → Bool
unfolding identifier_or_empty
bad_identifier event =
    not (identifier_or_empty event.principal_id)
    || not (identifier_or_empty event.device_id)
    || not (identifier_or_empty event.session_id)
    || not (identifier_or_empty event.workspace_id)
    || not (identifier_or_empty event.build_id)
    || not (identifier_or_empty event.artifact_id)
    || not (identifier_or_empty event.deployment_id)
    || not (identifier_or_empty event.process_role)
    || not (identifier_or_empty event.reason_code)
    || not (identifier_or_empty event.agent_job_id)
    || not (identifier_or_empty event.tool_name)
    || not (identifier_or_empty event.evidence_id)

-- No artifact of a build is named.
abbrev no_artifact : AuditEvent → Bool
no_artifact event =
    is_empty event.session_id
    || is_empty event.workspace_id
    || is_empty event.build_id
    || is_empty event.artifact_id
    || length event.artifact_sha256 == 0
    || event.source_revision == 0

-- What the event's action asks for is not there.
unfoldable pub lacks_metadata : AuditEvent → Bool
lacks_metadata event =
    session_action event.action && is_empty event.session_id
    || artifact_action event.action && no_artifact event
    || deployment_action event.action && (no_artifact event || is_empty event.deployment_id)
    || is_scope_access_denied event.action
      && (is_empty event.workspace_id || is_empty event.process_role || is_empty event.reason_code)
    || workspace_action event.action
      && (is_empty event.session_id
          || is_empty event.workspace_id
          || event.source_revision == 0
          || is_empty event.reason_code)
    || build_action event.action
      && (is_empty event.session_id
          || is_empty event.workspace_id
          || is_empty event.build_id
          || event.source_revision == 0
          || not (str_eq event.process_role "build_worker")
          || is_empty event.reason_code
          || is_build_completed event.action && is_empty event.evidence_id)
    || agent_action event.action
      && (is_empty event.session_id || is_empty event.workspace_id || is_empty event.agent_job_id)
    || is_agent_tool_completed event.action
      && (is_empty event.tool_name || is_empty event.evidence_id)

abbrev all_hex : List ℕ → Bool
all_hex [] = true
all_hex (c ∷ cs) = is_hex c && all_hex cs

-- The checks of `append` on the event alone.
unfoldable pub check_event : AuditEvent → Result (Unit {0})
unfolding bad_identifier lacks_metadata
check_event event =
    throw_if
      (event.occurred_at == 0
        || is_empty event.principal_id
        || is_empty event.device_id
        || bad_identifier event
        || lacks_metadata event)
      invalid_argument
    ⨾ throw_if
        (length event.artifact_sha256 != 0
          && (length event.artifact_sha256 != 64 || not (all_hex event.artifact_sha256)))
        invalid_argument

pub record AuditLog : Type 0 where
  pub maximum_age : ℕ
  pub maximum_events : ℕ
  pub sink : Option (AuditEvent → Result (Unit {0}))
  pub events : List AuditEvent

unfoldable pub new_log : ℕ → ℕ → Option (AuditEvent → Result (Unit {0})) → Result AuditLog
new_log maximum_age maximum_events sink =
    throw_if (maximum_age == 0 || maximum_events == 0) invalid_argument
    ⨾ ok (record {
      maximum_age = maximum_age;
      maximum_events = maximum_events;
      sink = sink;
      events = [];
    })

-- The time of `events_.back()`; 0, which no time is before, where there is none.
abbrev pub last_time : List AuditEvent → ℕ
last_time [] = 0
last_time (e ∷ []) = e.occurred_at
last_time (e ∷ f ∷ es) = last_time (f ∷ es)

abbrev pub append_line : Option (AuditEvent → Result (Unit {0})) → AuditEvent → Result (Unit {0})
append_line none event = ok tt
append_line (some line) event = line event

-- The oldest events are dropped where there are more than the maximum.
abbrev pub retained : ℕ → List AuditEvent → List AuditEvent
retained maximum_events events = drop (length events - maximum_events) events

unfoldable pub append : AuditEvent → AuditLog → Result AuditLog
unfolding check_event
append event log =
    check_event event
    ⨾ throw_if (ltb event.occurred_at (last_time log.events)) invalid_argument
    ⨾ append_line log.sink event
    ⨾ ok (record log { events = retained log.maximum_events (log.events ++ event ∷ []) })

unfoldable pub for_session_loop : String → List AuditEvent → List AuditEvent
for_session_loop session_id [] = []
for_session_loop session_id (e ∷ es) =
    let rest = for_session_loop session_id es in
    if str_eq e.session_id session_id then e ∷ rest else rest

unfoldable pub for_session : AuditLog → String → List AuditEvent
unfolding for_session_loop
for_session log session_id = for_session_loop session_id log.events

pub record AuditQuery : Type 0 where
  pub from : ℕ
  pub to : ℕ
  pub principal_id : String
  pub workspace_id : String
  pub build_id : String
  pub artifact_id : String
  pub deployment_id : String
  pub agent_job_id : String
  pub limit : ℕ

-- A text of the filter that is empty asks for nothing.
abbrev pub asks_other : String → String → Bool
asks_other wanted value = not (is_empty wanted) && not (str_eq value wanted)

unfoldable pub skips : AuditQuery → AuditEvent → Bool
skips filter event =
    ltb event.occurred_at filter.from
    || ltb filter.to event.occurred_at
    || asks_other filter.principal_id event.principal_id
    || asks_other filter.workspace_id event.workspace_id
    || asks_other filter.build_id event.build_id
    || asks_other filter.artifact_id event.artifact_id
    || asks_other filter.deployment_id event.deployment_id
    || asks_other filter.agent_job_id event.agent_job_id

-- The loop of `query`, with the result so far.
unfoldable pub query_loop : AuditQuery → List AuditEvent → List AuditEvent → List AuditEvent
unfolding skips
query_loop filter [] result = result
query_loop filter (e ∷ es) result =
    let pushed = if skips filter e then result else result ++ e ∷ [] in
    let rest = query_loop filter es pushed in
    if not (skips filter e) && length pushed == filter.limit then pushed else rest

unfoldable pub query : AuditLog → AuditQuery → Result (List AuditEvent)
unfolding query_loop
query log filter =
    throw_if (ltb filter.to filter.from || filter.limit == 0 || ltb 10000 filter.limit)
      invalid_argument
    ⨾ ok (query_loop filter log.events [])

-- `find_if` and `erase` of what stands before it.
unfoldable pub drop_older : ℕ → List AuditEvent → List AuditEvent
drop_older cutoff [] = []
drop_older cutoff (e ∷ es) =
    let rest = drop_older cutoff es in if leb cutoff e.occurred_at then e ∷ es else rest

unfoldable pub enforce_retention : ℕ → AuditLog → AuditLog
unfolding drop_older
enforce_retention now log = record log { events = drop_older (now - log.maximum_age) log.events }
