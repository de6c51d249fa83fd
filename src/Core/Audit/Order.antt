-- ===== src/Core/Audit/Order.antt =====
-- AuditLog::append and AuditLog::enforce_retention of core/src/audit.cpp.
use lan_pilot.Common.{
  invalid_argument, if◌then◌else◌, ℕ, zero, suc, [], ◌∷◌, refl, ok, err, List, ◌-◌, Result, length,
  ◌≤◌, ◌≡◌, Outcome-cases, Option, drop, leb, All, inl, arith, ◌++◌, Bool-cases, inr, subst,
  length-drop, Result-cases, sym, All-drop, All-append, false,
}
use lan_pilot.Core.Audit.{
  new_log, enforce_retention, AuditLog, append, AuditEvent, drop_older, last_time, check_event,
  retained, append_line, bad_identifier, identifier_or_empty,
}

-- The times of the events do not fall.
abbrev pub Ordered : List AuditEvent → Type 0
Ordered [] = Unit {0}
Ordered (e ∷ []) = Unit {0}
Ordered (e ∷ f ∷ es) = (e.occurred_at ≤ f.occurred_at) × Ordered (f ∷ es)

Ordered-tail : (e : AuditEvent) (es : List AuditEvent) → Ordered (e ∷ es) → Ordered es
Ordered-tail e [] h = tt
Ordered-tail e (f ∷ es) h = h.1

Ordered-drop : (n : ℕ) (es : List AuditEvent) → Ordered es → Ordered (drop n es)
Ordered-drop zero es h = h
Ordered-drop (suc n) [] h = tt
Ordered-drop (suc n) (e ∷ es) h = Ordered-drop n es (Ordered-tail e es h)

Ordered-append :
    (es : List AuditEvent) (e : AuditEvent)
    → Ordered es
    → last_time es ≤ e.occurred_at
    → Ordered (es ++ e ∷ [])
Ordered-append [] e h k = tt
Ordered-append (f ∷ []) e h k = (k, tt)
Ordered-append (f ∷ g ∷ es) e h k = (h.0, Ordered-append (g ∷ es) e h.1 k)

-- The events of a log are ordered, no more than the maximum, and each has what its action asks for.
pub record LogInv (log : AuditLog) : Type 0 where
  pub ordered : Ordered log.events
  pub bounded : length log.events ≤ log.maximum_events
  pub complete : All (λ e. check_event e ≡ ok tt) log.events

-- What `append` does when it returns.
pub append_lem :
    (event : AuditEvent) (log : AuditLog) {next : AuditLog}
    → append event log ≡ ok next
    → (check_event event ≡ ok tt)
      × (last_time log.events ≤ event.occurred_at)
      × (next ≡ record log { events = retained log.maximum_events (log.events ++ event ∷ []) })
unfolding append
append_lem event log h =
    ground (arith, Result-cases (check_event event), Result-cases (append_line log.sink event))

-- An event whose session is no identifier is not taken.
pub append-bad_session :
    (event : AuditEvent) (log : AuditLog)
    → identifier_or_empty event.session_id ≡ false
    → append event log ≡ err invalid_argument
unfolding append check_event bad_identifier
append-bad_session event log h = ground (arith, h)

append-LogInv :
    (event : AuditEvent) (log : AuditLog) {next : AuditLog}
    → append event log ≡ ok next
    → LogInv log
    → LogInv next
append-LogInv event log h inv =
    let (c, t, e) = append_lem event log h in
    let added = log.events ++ event ∷ [] in
    let n = length added - log.maximum_events in
    subst (λ (l : AuditLog). LogInv l) (sym e)
      (record {
        ordered = Ordered-drop n added (Ordered-append log.events event inv.ordered t);
        bounded = omega (arith, length-drop n added);
        complete =
            All-drop (λ e. check_event e ≡ ok tt) n added
              (All-append (λ e. check_event e ≡ ok tt) log.events (event ∷ []) inv.complete
                (c, tt));
      })

abbrev pub kept : ℕ → List AuditEvent → List AuditEvent
kept cutoff [] = []
kept cutoff (e ∷ es) = if leb cutoff e.occurred_at then e ∷ kept cutoff es else kept cutoff es

kept_all :
    (cutoff : ℕ) (e : AuditEvent) (es : List AuditEvent)
    → Ordered (e ∷ es)
    → cutoff ≤ e.occurred_at
    → kept cutoff es ≡ es
kept_all cutoff e [] h k = refl
kept_all cutoff e (f ∷ es) h k = ground (arith, kept_all cutoff f es h.1 (omega (arith, h.0)))

drop_older-kept :
    (cutoff : ℕ) (es : List AuditEvent) → Ordered es → drop_older cutoff es ≡ kept cutoff es
unfolding drop_older
drop_older-kept cutoff [] h = refl
drop_older-kept cutoff (e ∷ es) h = elim (Bool-cases (leb cutoff e.occurred_at)) [
  | inl k ↦ ground (arith, k, kept_all cutoff e es h)
  | inr k ↦ ground (arith, k, drop_older-kept cutoff es (Ordered-tail e es h))
]

drop_older-drop : (cutoff : ℕ) (es : List AuditEvent) → (n : ℕ) × (drop_older cutoff es ≡ drop n es)
unfolding drop_older
drop_older-drop cutoff [] = (0, refl)
drop_older-drop cutoff (e ∷ es) = elim (Bool-cases (leb cutoff e.occurred_at)) [
  | inl k ↦ (0, ground (arith, k))
  | inr k ↦ let (n, i) = drop_older-drop cutoff es in (suc n, ground (arith, k, i))
]

enforce_retention-LogInv :
    (now : ℕ) (log : AuditLog) → LogInv log → LogInv (enforce_retention now log)
unfolding enforce_retention
enforce_retention-LogInv now log inv =
    let (n, e) = drop_older-drop (now - log.maximum_age) log.events in
    record {
      ordered = rw e (Ordered-drop n log.events inv.ordered);
      bounded = rw e (omega (arith, length-drop n log.events, inv.bounded));
      complete = rw e (All-drop (λ e. check_event e ≡ ok tt) n log.events inv.complete);
    }

-- The calls that change a log; an append that throws leaves it as it was.
pub data LogCall : Type 0 where
  append_event : AuditEvent → LogCall
  retain : ℕ → LogCall

abbrev pub log_or : AuditLog → Result AuditLog → AuditLog
log_or log (ok next) = next
log_or log (err e) = log

abbrev pub log_step : AuditLog → LogCall → AuditLog
log_step log (append_event event) = log_or log (append event log)
log_step log (retain now) = enforce_retention now log

abbrev pub log_run : List LogCall → AuditLog → AuditLog
log_run [] log = log
log_run (c ∷ cs) log = log_run cs (log_step log c)

log_step-LogInv : (log : AuditLog) (c : LogCall) → LogInv log → LogInv (log_step log c)
log_step-LogInv log (append_event event) inv = elim (Outcome-cases (append event log)) [
  | inl (next, e) ↦ rw e (append-LogInv event log e inv)
  | inr (x, e) ↦ rw e inv
]
log_step-LogInv log (retain now) inv = enforce_retention-LogInv now log inv

run-LogInv : (cs : List LogCall) (log : AuditLog) → LogInv log → LogInv (log_run cs log)
run-LogInv [] log inv = inv
run-LogInv (c ∷ cs) log inv = run-LogInv cs (log_step log c) (log_step-LogInv log c inv)

new_log-LogInv :
    (age maximum : ℕ) (sink : Option (AuditEvent → Result (Unit {0}))) {log : AuditLog}
    → new_log age maximum sink ≡ ok log
    → LogInv log
unfolding new_log
new_log-LogInv age maximum sink h = record {
  ordered = ground arith;
  bounded = ground arith;
  complete = ground arith;
}

-- Whatever is appended to a new log and however often its retention is enforced, its events are
-- ordered in time, are no more than the maximum, and have passed the checks; and enforcing the
-- retention then keeps exactly those that are not older than the maximal age.
pub log_run-LogInv :
    (age maximum : ℕ) (sink : Option (AuditEvent → Result (Unit {0}))) {log : AuditLog}
    → new_log age maximum sink ≡ ok log
    → (cs : List LogCall) (now : ℕ)
    → LogInv (log_run cs log)
      × ((enforce_retention now (log_run cs log)).events
          ≡ kept (now - (log_run cs log).maximum_age) (log_run cs log).events)
unfolding enforce_retention
log_run-LogInv age maximum sink {log} h cs now =
    let inv = run-LogInv cs log (new_log-LogInv age maximum sink h) in
    (inv, drop_older-kept (now - (log_run cs log).maximum_age) (log_run cs log).events inv.ordered)
