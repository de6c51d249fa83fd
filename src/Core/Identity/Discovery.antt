-- ===== src/Core/Identity/Discovery.antt =====
-- DiscoveryCache of core/src/identity.cpp.
use text.Mathlib.Text.{◌==◌ as str_eq}
use lan_pilot.Common.{
  if◌then◌else◌, ℕ, true, some, none, ◌≡◌, ok, put, arith, leb, ◌&&◌, ◌+◌, lookup-put,
}
use lan_pilot.Core.Identity.{
  ObservedNode, observe, find_node, NodeAdvertisement, DiscoveryCache, String,
  is_canonical_fingerprint,
}

observe-nodes :
    (a : NodeAdvertisement) (now : ℕ) (cache : DiscoveryCache) {next : DiscoveryCache}
    → observe a now cache ≡ ok next
    → (next.nodes ≡ put a.node_id (record { advertisement = a; observed_at = now }) cache.nodes)
      × (next.max_age ≡ cache.max_age)
      × (is_canonical_fingerprint a.fingerprint ≡ true)
unfolding observe
observe-nodes a now cache h = ground arith

-- An advertisement that is taken has a canonical fingerprint; it is then found at its node's id,
-- whatever was there before, exactly from that time until the maximal age has passed; and what is
-- found at other ids does not change.
pub find_node-observe :
    (a : NodeAdvertisement) (now : ℕ) (cache : DiscoveryCache) {next : DiscoveryCache}
    → observe a now cache ≡ ok next
    → (id : String) (t : ℕ)
    → (is_canonical_fingerprint a.fingerprint ≡ true)
      × (find_node next id t ≡ (
          if str_eq a.node_id id
          then (if leb now t && leb t (now + cache.max_age) then some a else none)
          else find_node cache id t))
unfolding find_node
find_node-observe a now cache h id t =
    let n : ObservedNode = record { advertisement = a; observed_at = now } in
    let (e, m, f) = observe-nodes a now cache h in
    ground (arith, e, m, f, lookup-put a.node_id id n cache.nodes)
