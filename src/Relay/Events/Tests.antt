-- ===== src/Relay/Events/Tests.antt =====
-- Two events of a relay.
use mathlib.Core.List.{reverse}
use mini_tor.Prelude.{ℕ, ◌≡◌, ◌≤◌, List, [], ◌∷◌, map, take, length, bytes_of, to_string}
use mini_tor.Metrics.{stamped}
use mini_tor.Relay.Events.{
  EventKind, new, circuit_created, connection_accepted, event_text, event_snapshot,
}
use mini_tor.Relay.Events.Heartbeat.{push_events, event_snapshot-push_events}

abbrev whole : ℕ → ℕ → List ℕ
whole bytes unit = to_string bytes

abbrev pushes : List (ℕ × EventKind)
pushes = (11, connection_accepted (bytes_of "10.0.0.7:9001")) ∷ (75, circuit_created 1) ∷ []

event_snapshot-push_events_example :
    (event_snapshot whole (push_events (new 10) pushes)
      ≡ take 20 (reverse (map (event_text whole) (stamped 10 pushes))))
    × (length (event_snapshot whole (push_events (new 10) pushes)) ≤ 20)
event_snapshot-push_events_example = event_snapshot-push_events whole 10 pushes
