-- ===== src/Discovery/Api.antt =====
-- services/discovery/src/api/grpc.rs: the gRPC requests, over the store of core/store.rs, whose methods
-- are the registry's operations behind a lock; and the cleanup task of services/discovery/src/main.rs.
-- Texts of answers are not modelled; counters and events are in Service.
pub mod Accepted
pub mod Reachable
pub mod PathRequests
pub mod Tests
use mini_tor.Prelude.{
  ℕ, List, [], ◌∷◌, length, map, Bool, Option, none, some, Result, ok, err, map_err, ok_or, guard,
  not, ◌==◌, ltb, if◌then◌else◌, ◌>>=◌, ◌>>◌,
}
use mini_tor.Types.{IpAddr, NodeDescriptor, NodeMetrics}
use mini_tor.Net.{Net}
use mini_tor.Proto.{
  Invalid, ProtoNodeDescriptor, ProtoNodeMetrics, proto_descriptor, descriptor_of, metrics_of,
}
use mini_tor.Discovery.{
  NodeRegistry, RegistryError, Insufficient, node_not_found, insufficient_nodes,
}
use mini_tor.Discovery.Nodes
use mini_tor.Discovery.Nodes.{is_empty, is_ready, get_all_nodes, cleanup_stale_nodes}
use mini_tor.Discovery.Stats.{RegistryStats, get_stats}
use mini_tor.Discovery.Paths
use mini_tor.Discovery.Paths.{get_random_path}

-- tonic's `Status`, by its code.
pub data Status : Type 0 where
  bad_descriptor : Invalid → Status
  empty_node_id zero_bandwidth metrics_required : Status
  not_found : RegistryError → Status
  unavailable : Insufficient → Status
  not_ready : Status

-- `message` is there when the registry is not ready.
pub record HealthCheckResponse : Type 0 where
  pub ready : Bool
  pub has_message : Bool

unfoldable pub health_check : NodeRegistry → HealthCheckResponse
health_check r = record { ready = is_ready r; has_message = not (is_ready r) }

unfoldable pub readiness_check : NodeRegistry → Result Status (Unit {0})
readiness_check r = guard (is_ready r) not_ready

abbrev kept {ℓ} : {A : Type ℓ} → NodeRegistry → Result Status A → NodeRegistry × Result Status A
kept r result = (r, result)

-- The tests on a descriptor that has been converted.
unfoldable pub accept : ℕ → NodeRegistry → NodeDescriptor → NodeRegistry × Result Status (Unit {0})
accept now r d =
    if is_empty d.node_id
    then (r, err empty_node_id)
    else if d.bandwidth == 0
    then (r, err zero_bandwidth)
    else (Nodes.register_node now r d, ok tt)

unfoldable pub if_converted :
    ℕ → NodeRegistry → Result Invalid NodeDescriptor → NodeRegistry × Result Status (Unit {0})
if_converted now r (err e) = (r, err (bad_descriptor e))
if_converted now r (ok d) = accept now r d

-- The errors of a node's operation: of the two, only this one comes up.
abbrev with_status :
    NodeRegistry × Result RegistryError (Unit {0}) → NodeRegistry × Result Status (Unit {0})
with_status (r, result) = (r, map_err not_found result)

unfoldable pub remove_node : NodeRegistry → List ℕ → NodeRegistry × Result Status (Unit {0})
remove_node r node_id = with_status (Nodes.remove_node r node_id)

unfoldable pub update_heartbeat :
    ℕ → NodeRegistry → List ℕ → Option ProtoNodeMetrics → NodeRegistry × Result Status (Unit {0})
update_heartbeat now r node_id none = (r, err metrics_required)
update_heartbeat now r node_id (some metrics) =
    with_status (Nodes.update_heartbeat_with_metrics now r node_id (metrics_of metrics))

-- At least three hops, whatever is asked for.
unfoldable pub hop_count : ℕ → ℕ
hop_count count = if ltb count 3 then 3 else count

module _ ⦃net : Net⦄ where
  unfoldable pub register_node :
      ℕ → NodeRegistry → ProtoNodeDescriptor → NodeRegistry × Result Status (Unit {0})
  register_node now r d = if_converted now r (descriptor_of d)

  unfoldable pub get_all : NodeRegistry → List ProtoNodeDescriptor × ℕ
  get_all r = let nodes = get_all_nodes r in (map proto_descriptor nodes, length nodes)

  unfoldable pub random_path :
      (IpAddr → Bool) → (ℕ → ℕ → ℕ) → NodeRegistry → ℕ → Result Status (List ProtoNodeDescriptor)
  random_path is_loopback draw r count =
      map_err unavailable (get_random_path is_loopback draw r (hop_count count)) >>= λ path.
      ok (map proto_descriptor path)

unfoldable pub stats : ℕ → NodeRegistry → RegistryStats
stats now r = get_stats now r

-- A round of the cleanup task.
unfoldable pub cleanup_round : ℕ → ℕ → NodeRegistry → NodeRegistry
cleanup_round stale_timeout_secs now r = (cleanup_stale_nodes now r stale_timeout_secs).0
