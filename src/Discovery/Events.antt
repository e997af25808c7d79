-- ===== src/Discovery/Events.antt =====
-- services/discovery/src/core/metrics.rs: the events and counters of the discovery service.
use mini_tor.Prelude.{ℕ, List, Bool}
use mini_tor.Metrics
use mini_tor.Metrics.{EventBuffer}

pub data EventKind : Type 0 where
  node_registered : List ℕ → List ℕ → List ℕ → EventKind
  node_removed heartbeat : List ℕ → EventKind
  path_requested : EventKind
  stale_cleanup : ℕ → EventKind
  stats_queried : EventKind
  health_check : Bool → EventKind
  error : List ℕ → EventKind

abbrev pub event_buffer_capacity : ℕ
event_buffer_capacity = 200

pub record DiscoveryMetrics : Type 0 where
  pub registrations : ℕ
  pub removals : ℕ
  pub heartbeats : ℕ
  pub path_requests : ℕ
  pub stale_cleaned : ℕ
  pub events : EventBuffer EventKind
  pub start_time : ℕ

unfoldable pub new : ℕ → DiscoveryMetrics
new now = record {
  registrations = 0;
  removals = 0;
  heartbeats = 0;
  path_requests = 0;
  stale_cleaned = 0;
  events = Metrics.new event_buffer_capacity now;
  start_time = now;
}

unfoldable pub push_event : ℕ → EventKind → DiscoveryMetrics → DiscoveryMetrics
push_event now kind m = record m { events = Metrics.push now kind m.events }
