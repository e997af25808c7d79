-- ===== src/Discovery/Service.antt =====
-- services/discovery/src/api/grpc.rs with the counters and events: the handlers over `AppState`, whose
-- metrics are optional though `main` has them; and the cleanup task of services/discovery/src/main.rs.
-- What the handlers do to the registry and what they answer is Api. Counters are u64.
mod Counts
mod Counted
mod Tests
use mini_tor.Prelude.{
  ℕ, ◌+◌, ◌%◌, ◌^◌, List, [], ◌∷◌, Bool, Option, none, some, Result, ok, err, ltb, if◌then◌else◌,
}
use mini_tor.Types.{IpAddr, NodeDescriptor}
use mini_tor.Types.Hex.{show_node_type}
use mini_tor.Net.{Net}
use mini_tor.Proto.{Invalid, ProtoNodeDescriptor, ProtoNodeMetrics, descriptor_of}
use mini_tor.Discovery.{NodeRegistry}
use mini_tor.Discovery.Nodes.{is_ready, cleanup_stale_nodes}
use mini_tor.Discovery.Stats.{RegistryStats}
use mini_tor.Discovery.Events.{
  EventKind, DiscoveryMetrics, push_event, node_registered, node_removed, heartbeat, path_requested,
  stale_cleanup, stats_queried, health_check,
}
use mini_tor.Discovery.Api
use mini_tor.Discovery.Api.{Status, HealthCheckResponse}

pub record AppState : Type 0 where
  pub registry : NodeRegistry
  pub metrics : Option DiscoveryMetrics

-- `if let Some(m) = &self.state.metrics`
abbrev pub noted :
    (DiscoveryMetrics → DiscoveryMetrics) → Option DiscoveryMetrics → Option DiscoveryMetrics
noted note none = none
noted note (some m) = some (note m)

-- What stands behind a `?` on this result.
abbrev pub on_ok {ℓ} :
    {A : Type ℓ}
    → Result Status A
    → (DiscoveryMetrics → DiscoveryMetrics)
    → Option DiscoveryMetrics
    → Option DiscoveryMetrics
on_ok (ok a) note metrics = noted note metrics
on_ok (err e) note metrics = metrics

unfoldable pub note_removal : ℕ → List ℕ → DiscoveryMetrics → DiscoveryMetrics
note_removal now node_id m =
    push_event now (node_removed node_id) (record m { removals = (m.removals + 1) % 2 ^ 64 })

unfoldable pub note_heartbeat : ℕ → List ℕ → DiscoveryMetrics → DiscoveryMetrics
note_heartbeat now node_id m =
    push_event now (heartbeat node_id) (record m { heartbeats = (m.heartbeats + 1) % 2 ^ 64 })

unfoldable pub note_path : ℕ → DiscoveryMetrics → DiscoveryMetrics
note_path now m =
    push_event now path_requested (record m { path_requests = (m.path_requests + 1) % 2 ^ 64 })

unfoldable pub note_cleanup : ℕ → ℕ → DiscoveryMetrics → DiscoveryMetrics
note_cleanup now removed m =
    push_event now (stale_cleanup removed)
      (record m { stale_cleaned = (m.stale_cleaned + removed) % 2 ^ 64 })

unfoldable pub health_check_on : ℕ → AppState → AppState × HealthCheckResponse
health_check_on now s =
    let note = push_event now (EventKind.health_check (is_ready s.registry)) in
    (record s { metrics = noted note s.metrics }, Api.health_check s.registry)

unfoldable pub remove_node : ℕ → AppState → List ℕ → AppState × Result Status (Unit {0})
remove_node now s node_id =
    let (r, result) = Api.remove_node s.registry node_id in
    (record { registry = r; metrics = on_ok result (note_removal now node_id) s.metrics }, result)

unfoldable pub update_heartbeat :
    ℕ → AppState → List ℕ → Option ProtoNodeMetrics → AppState × Result Status (Unit {0})
update_heartbeat now s node_id metrics =
    let (r, result) = Api.update_heartbeat now s.registry node_id metrics in
    (record { registry = r; metrics = on_ok result (note_heartbeat now node_id) s.metrics }, result)

unfoldable pub get_stats : ℕ → AppState → AppState × RegistryStats
get_stats now s = (
  record s { metrics = noted (push_event now stats_queried) s.metrics },
  Api.stats now s.registry,
)

-- A round of the cleanup task.
unfoldable pub cleanup_round : ℕ → ℕ → AppState → AppState
cleanup_round stale_timeout_secs now s =
    let (r, removed) = cleanup_stale_nodes now s.registry stale_timeout_secs in
    let noted_ = noted (note_cleanup now removed) s.metrics in
    record { registry = r; metrics = if ltb 0 removed then noted_ else s.metrics }

module _ ⦃net : Net⦄ where
  unfoldable pub note_registration :
      ℕ → Result Invalid NodeDescriptor → DiscoveryMetrics → DiscoveryMetrics
  note_registration now (err e) m = m
  note_registration now (ok d) m =
      push_event now
        (node_registered d.node_id (show_node_type d.node_type) (net.show_addr d.address))
        (record m { registrations = (m.registrations + 1) % 2 ^ 64 })

  unfoldable pub register_node :
      ℕ → AppState → ProtoNodeDescriptor → AppState × Result Status (Unit {0})
  register_node now s d =
      let (r, result) = Api.register_node now s.registry d in
      (
        record {
          registry = r;
          metrics = on_ok result (note_registration now (descriptor_of d)) s.metrics;
        },
        result,
      )

  unfoldable pub get_random_path :
      (IpAddr → Bool)
      → (ℕ → ℕ → ℕ)
      → ℕ
      → AppState
      → ℕ
      → AppState × Result Status (List ProtoNodeDescriptor)
  get_random_path is_loopback draw now s count =
      let result = Api.random_path is_loopback draw s.registry count in
      (record s { metrics = on_ok result (note_path now) s.metrics }, result)

  -- What can come to the service, with the instant; a path with the draws that its choice makes.
  pub data Request : Type 0 where
    health stats_request : Request
    register : ProtoNodeDescriptor → Request
    remove : List ℕ → Request
    beat : List ℕ → Option ProtoNodeMetrics → Request
    path : (IpAddr → Bool) → (ℕ → ℕ → ℕ) → ℕ → Request
    clean : ℕ → Request

  unfoldable pub serve : ℕ → AppState → Request → AppState
  serve now s health = (health_check_on now s).0
  serve now s stats_request = (get_stats now s).0
  serve now s (register d) = (register_node now s d).0
  serve now s (remove node_id) = (remove_node now s node_id).0
  serve now s (beat node_id metrics) = (update_heartbeat now s node_id metrics).0
  serve now s (path is_loopback draw count) = (get_random_path is_loopback draw now s count).0
  serve now s (clean timeout) = cleanup_round timeout now s

  unfoldable pub serve_all : AppState → List (ℕ × Request) → AppState
  serve_all s [] = s
  serve_all s ((now, request) ∷ rest) = serve_all (serve now s request) rest
