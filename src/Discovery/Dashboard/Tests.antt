-- ===== src/Discovery/Dashboard/Tests.antt =====
-- A page for a registry with three nodes, after two events.
use mathlib.Core.List.{reverse}
use mini_tor.Prelude.{
  ℕ, ◌+◌, ◌≡◌, List, [], ◌∷◌, map, length, take, some, leb, ◌&&◌, true, bytes_of,
}
use mini_tor.Metrics.{stamped}
use mini_tor.Discovery.Nodes.{get_all_nodes}
use mini_tor.Discovery.Events.{EventKind, new, node_removed, health_check}
use mini_tor.Discovery.Tests.{a_registry}
use mini_tor.Discovery.Dashboard.{
  NodeWithMetrics, DashboardResponse, dashboard_handler, event_to_entry,
}
use mini_tor.Discovery.Dashboard.Quiet.{push_events, dashboard_handler-quiet}

abbrev pushes : List (ℕ × EventKind)
pushes = (3, node_removed (bytes_of "relay-7")) ∷ (4, health_check true) ∷ []

abbrev page : DashboardResponse
page = dashboard_handler 5 a_registry a_registry a_registry (some (push_events (new 0) pushes))

dashboard_handler-quiet_example :
    (map (λ (n : NodeWithMetrics). n.descriptor) page.nodes ≡ get_all_nodes a_registry)
    × (length page.nodes ≡ page.stats.entry_count + page.stats.middle_count + page.stats.exit_count)
    × (page.ready ≡ (
        leb 1 page.stats.entry_count
        && leb 1 page.stats.middle_count
        && leb 1 page.stats.exit_count))
    × (page.events ≡ take 50 (reverse (map event_to_entry (stamped 0 pushes))))
dashboard_handler-quiet_example = dashboard_handler-quiet 5 0 a_registry pushes
