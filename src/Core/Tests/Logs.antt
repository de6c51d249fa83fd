-- ===== src/Core/Tests/Logs.antt =====
-- Runs of the audit log.
use lan_pilot.Common.{
  if◌then◌else◌, ℕ, [], ◌∷◌, refl, none, ok, err, invalid_argument, List, ◌≡◌, leb, ◌&&◌, ◌-◌, take,
}
use lan_pilot.Core.Audit.{
  session_opened, allowed, query, AuditEvent, new_log, AuditLog, append, AuditQuery, check_event,
  enforce_retention, bad_identifier, lacks_metadata, identifier_or_empty,
}
use lan_pilot.Core.Audit.Order.{LogInv, LogCall, log_run, append_event, kept, log_run-LogInv}
use lan_pilot.Core.SessionService.{event_of}
use lan_pilot.Core.Audit.Query.{matching, query_lem}

abbrev pub log : AuditLog
log = record { maximum_age = 50; maximum_events = 2; sink = none; events = [] }

abbrev opened_at : ℕ → AuditEvent
opened_at t = event_of t "phone" "phone" "s-1" "main" "" session_opened allowed

log_made : new_log 50 2 none ≡ ok log
unfolding new_log
log_made = refl

abbrev calls : List LogCall
calls =
    append_event (opened_at 5)
    ∷ append_event (opened_at 4)
    ∷ append_event (opened_at 9)
    ∷ append_event (opened_at 60)
    ∷ []

-- The second event is out of order and the first is over the maximum.
two_kept : (log_run calls log).events ≡ opened_at 9 ∷ opened_at 60 ∷ []
unfolding append check_event bad_identifier lacks_metadata identifier_or_empty
two_kept = refl

log_run-LogInv_example :
    LogInv (log_run calls log)
    × ((enforce_retention 80 (log_run calls log)).events
        ≡ kept (80 - (log_run calls log).maximum_age) (log_run calls log).events)
log_run-LogInv_example = log_run-LogInv 50 2 none log_made calls 80

abbrev filter : AuditQuery
filter = record {
  from = 0;
  to = 100;
  principal_id = "phone";
  workspace_id = "";
  build_id = "";
  artifact_id = "";
  deployment_id = "";
  agent_job_id = "";
  limit = 1;
}

query_lem_example : query (log_run calls log) filter ≡ (
    if leb filter.from filter.to && leb 1 filter.limit && leb filter.limit 10000
    then ok (take filter.limit (matching filter (log_run calls log).events))
    else err invalid_argument)
query_lem_example = query_lem (log_run calls log) filter
