-- ===== src/Discovery/Dashboard/Quiet.antt =====
-- What the web page shows while the registry does not change.
use mathlib.Core.List.{reverse}
use mini_tor.Prelude.{
  ℕ, ◌+◌, ◌≡◌, refl, List, [], ◌∷◌, map, length, take, some, suc, sym, ◌∙◌, ap, arith, ◌&&◌, leb,
}
use mini_tor.Metrics.{EventBuffer, push_all, snapshot, stamped}
use mini_tor.Metrics.Newest.{newest-push_all}
use mini_tor.Discovery.{NodeEntry, NodeRegistry}
use mini_tor.Discovery.Nodes.{get_all_nodes}
use mini_tor.Discovery.Stats.{get_stats, get_all_entries, get_stats-counts}
use mini_tor.Discovery.Events.{EventKind, DiscoveryMetrics, new, push_event, event_buffer_capacity}
use mini_tor.Discovery.Dashboard.{
  NodeWithMetrics, dashboard_handler, event_to_entry, recent_events, node_of,
}

abbrev pub push_events : DiscoveryMetrics → List (ℕ × EventKind) → DiscoveryMetrics
push_events m [] = m
push_events m ((now, kind) ∷ rest) = push_events (push_event now kind m) rest

push_events-events :
    (m : DiscoveryMetrics) (pushes : List (ℕ × EventKind))
    → (push_events m pushes).events ≡ push_all pushes m.events
unfolding push_event push_all
push_events-events m [] = refl
push_events-events m ((now, kind) ∷ rest) = push_events-events (push_event now kind m) rest

recent_events-push_events :
    (start : ℕ) (pushes : List (ℕ × EventKind))
    → recent_events (some (push_events (new start) pushes))
      ≡ take 50 (reverse (map event_to_entry (stamped start pushes)))
unfolding recent_events new
recent_events-push_events start pushes =
    ap (λ (b : EventBuffer EventKind). take 50 (reverse (snapshot event_to_entry b)))
      (push_events-events (new start) pushes)
    ∙ newest-push_all event_to_entry 50 event_buffer_capacity start pushes (omega arith)
        (omega arith)

listed_all :
    (es : List (List ℕ × NodeEntry))
    → map
        (λ (n : NodeWithMetrics). n.descriptor)
        (map node_of (map (λ (e : List ℕ × NodeEntry). e.1) es))
      ≡ map (λ (e : List ℕ × NodeEntry). e.1.descriptor) es
listed_all [] = refl
listed_all ((id, e) ∷ es) = ap (λ ds. e.descriptor ∷ ds) (listed_all es)

listed_length :
    (es : List (List ℕ × NodeEntry))
    → length (map node_of (map (λ (e : List ℕ × NodeEntry). e.1) es)) ≡ length es
listed_length [] = refl
listed_length (e ∷ es) = ap suc (listed_length es)

-- A page that is served while the registry does not change agrees with itself and with the registry:
-- it lists the nodes of the registry, as many as its statistics count by type, it calls the registry ready
-- exactly when no type has a count of 0, and it shows the latest events, 50 at most, newest first, whatever
-- else came before.
pub dashboard_handler-quiet :
    (now start : ℕ) (r : NodeRegistry) (pushes : List (ℕ × EventKind))
    → let page = dashboard_handler now r r r (some (push_events (new start) pushes)) in
      (map (λ (n : NodeWithMetrics). n.descriptor) page.nodes ≡ get_all_nodes r)
      × (length page.nodes
          ≡ page.stats.entry_count + page.stats.middle_count + page.stats.exit_count)
      × (page.ready ≡ (
          leb 1 page.stats.entry_count
          && leb 1 page.stats.middle_count
          && leb 1 page.stats.exit_count))
      × (page.events ≡ take 50 (reverse (map event_to_entry (stamped start pushes))))
unfolding dashboard_handler get_all_nodes get_all_entries get_stats
dashboard_handler-quiet now start r pushes =
    let (entries, middles, exits, total, ready) = get_stats-counts now r in
    (
      listed_all r.nodes,
      listed_length r.nodes ∙ sym total,
      ready,
      recent_events-push_events start pushes,
    )
