-- ===== src/Core/Audit/Query.antt =====
-- AuditLog::query of core/src/audit.cpp.
use lan_pilot.Common.{
  if◌then◌else◌, ℕ, zero, suc, [], ◌∷◌, refl, false, List, length, ◌≡◌, ◌<◌, leb, ◌++◌, ◌&&◌, ok,
  take, err, ◌-◌, arith, Bool-cases, invalid_argument, length-append, inl, inr, append_assoc, ◌==◌,
  append-nil, sym,
}
use lan_pilot.Core.Audit.{AuditQuery, query_loop, query, AuditLog, AuditEvent, skips}

-- The events that a filter does not skip.
abbrev pub matching : AuditQuery → List AuditEvent → List AuditEvent
matching filter [] = []
matching filter (e ∷ es) = if skips filter e then matching filter es else e ∷ matching filter es

take-suc_sub :
    (limit : ℕ) (result : List AuditEvent) (e : AuditEvent) (es : List AuditEvent)
    → length result < limit
    → result ++ take (limit - length result) (e ∷ es)
      ≡ (result ++ e ∷ []) ++ take (limit - length (result ++ e ∷ [])) es
take-suc_sub limit result e es h =
    let a : limit - length result ≡ suc (limit - length (result ++ e ∷ [])) =
      omega (arith, length-append result (e ∷ [])) in
    rw (a, append_assoc) refl

take-nil : (n : ℕ) → take {A = AuditEvent} n [] ≡ []
take-nil zero = refl
take-nil (suc n) = refl

-- One round on an event that is taken.
query_loop-taken :
    (filter : AuditQuery) (e : AuditEvent) (es result : List AuditEvent)
    → skips filter e ≡ false
    → query_loop filter (e ∷ es) result ≡ (
        let pushed = result ++ e ∷ [] in
        if length pushed == filter.limit then pushed else query_loop filter es pushed)
unfolding query_loop
query_loop-taken filter e es result s = rw s refl

taken_last :
    (n : ℕ) (pushed es : List AuditEvent)
    → length pushed ≡ n
    → pushed ++ take (n - length pushed) es ≡ pushed
taken_last n pushed es h = let z : n - length pushed ≡ 0 = omega arith in rw z (append-nil pushed)

query_loop_lem :
    (filter : AuditQuery) (es result : List AuditEvent)
    → length result < filter.limit
    → query_loop filter es result
      ≡ result ++ take (filter.limit - length result) (matching filter es)
unfolding query_loop
query_loop_lem filter [] result h =
    rw (take-nil (filter.limit - length result)) (sym (append-nil result))
query_loop_lem filter (e ∷ es) result h = elim (Bool-cases (skips filter e)) [
  | inl s ↦ rw s (query_loop_lem filter es result h)
  | inr s ↦
      let pushed = result ++ e ∷ [] in
      let next = query_loop_lem filter es pushed in
      let size = length-append result (e ∷ []) in
      let split = take-suc_sub filter.limit result e (matching filter es) h in
      let last = taken_last filter.limit pushed (matching filter es) in
      ground (arith, s, query_loop-taken filter e es result s, next, size, split, last)
]

-- A query that is accepted gives, in their order, the first events that match the filter, as many as
-- its limit allows; one with a limit that is 0 or above 10000, or that ends before it begins, is
-- refused.
pub query_lem :
    (log : AuditLog) (filter : AuditQuery)
    → query log filter ≡ (
        if leb filter.from filter.to && leb 1 filter.limit && leb filter.limit 10000
        then ok (take filter.limit (matching filter log.events))
        else err invalid_argument)
unfolding query
query_lem log filter = ground (arith, query_loop_lem filter log.events [])
