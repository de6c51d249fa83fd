-- ===== src/Core/Authorization/Granting.antt =====
-- The result of authorize of core/src/authorization.cpp.
use text.Mathlib.Text.{◌==◌ as str_eq}
use lan_pilot.Common.{
  ℕ, [], ◌∷◌, List, Bool, ◌≡◌, ◌&&◌, contains, ◌||◌, not, arith, Bool-cases, inl, contains-insert,
  inr, ◌==◌, ==_iff, ap,
}
use lan_pilot.Core.Authorization.{
  CapabilityRequest, Policy, AuthorizationResult, permits, authorize, grant_each, not_empty,
  has_text, grant_one, authorize_start,
}

-- The principal and the workspace are the policy's, and neither is empty.
abbrev pub admits : Policy → CapabilityRequest → Bool
admits policy request =
    not_empty request.principal
    && str_eq request.principal policy.principal_id
    && (not_empty request.workspace && has_text policy.workspaces request.workspace)

-- After the requests `cs`.
abbrev Granted : Policy → AuthorizationResult → List ℕ → ℕ → AuthorizationResult → Type 0
Granted policy r cs c t =
    let on = r.principal_matched && r.workspace_allowed in
    (t.principal_matched ≡ r.principal_matched)
    × (t.workspace_allowed ≡ r.workspace_allowed)
    × (contains t.granted c
        ≡ (contains r.granted c || (on && contains policy.allowed c && contains cs c)))
    × (contains t.denied c
        ≡ (contains r.denied c || (not (on && contains policy.allowed c) && contains cs c)))

grant_one_lem :
    (policy : Policy) (r : AuthorizationResult) (d c : ℕ)
    → Granted policy r (d ∷ []) c (grant_one policy r d)
unfolding grant_one
grant_one_lem policy r d c = elim (Bool-cases (c == d)) [
  | inl e ↦ ground (
    arith,
    e,
    ap (contains policy.allowed) ((==_iff c d).0 e),
    contains-insert d c r.granted,
    contains-insert d c r.denied,
  )
  | inr e ↦ ground (arith, e, contains-insert d c r.granted, contains-insert d c r.denied)
]

grant_each_lem :
    (cs : List ℕ) (policy : Policy) (r : AuthorizationResult) (c : ℕ)
    → Granted policy r cs c (grant_each cs policy r)
unfolding grant_each
grant_each_lem [] policy r c = ground arith
grant_each_lem (d ∷ cs) policy r c =
    let (p, w, g, n) = grant_one_lem policy r d c in
    let (p', w', g', n') = grant_each_lem cs policy (grant_one policy r d) c in ground arith

-- A capability is permitted exactly when the request names it, the policy allows it, and the
-- principal and the workspace are the policy's and not empty; and of the capabilities requested,
-- exactly those not permitted are denied.
pub permits-authorize :
    (request : CapabilityRequest) (policy : Policy) (c : ℕ)
    → (permits (authorize request policy) c
        ≡ (admits policy request && contains policy.allowed c && contains request.requested c))
      × (contains (authorize request policy).denied c
          ≡ (contains request.requested c && not (permits (authorize request policy) c)))
unfolding permits authorize
permits-authorize request policy c =
    let t = grant_each_lem request.requested policy (authorize_start request policy) c in
    ground (arith, t)
