-- ===== src/Relay/Events/Heartbeat.antt =====
-- The events that a relay sends with its heartbeats (services/relay-node/src/core/metrics.rs).
use mathlib.Core.List.{reverse}
use mini_tor.Prelude.{
  ℕ, ◌≡◌, ◌≤◌, refl, ap, ◌∙◌, List, [], ◌∷◌, map, take, length, length-take, arith,
}
use mini_tor.Metrics.{EventBuffer, push_all, stamped, snapshot}
use mini_tor.Metrics.Newest.{newest-push_all}
use mini_tor.Relay.Events.{
  EventKind, RelayMetrics, new, push_event, event_buffer_capacity, event_text, event_snapshot,
}

-- The events that a relay pushes while it runs.
abbrev pub push_events : RelayMetrics → List (ℕ × EventKind) → RelayMetrics
push_events m [] = m
push_events m ((now, kind) ∷ rest) = push_events (push_event now kind m) rest

pub push_events-events :
    (m : RelayMetrics) (pushes : List (ℕ × EventKind))
    → (push_events m pushes).events ≡ push_all pushes m.events
unfolding push_event push_all
push_events-events m [] = refl
push_events-events m ((now, kind) ∷ rest) = push_events-events (push_event now kind m) rest

-- A heartbeat carries the texts of the latest events of the relay, 20 at most, newest first, whatever
-- else came before and whatever the buffer has dropped.
pub event_snapshot-push_events :
    (one_decimal : ℕ → ℕ → List ℕ) (start : ℕ) (pushes : List (ℕ × EventKind))
    → (event_snapshot one_decimal (push_events (new start) pushes)
        ≡ take 20 (reverse (map (event_text one_decimal) (stamped start pushes))))
      × (length (event_snapshot one_decimal (push_events (new start) pushes)) ≤ 20)
unfolding event_snapshot new
event_snapshot-push_events one_decimal start pushes =
    let text = event_text one_decimal in
    let shown : List (List ℕ) = reverse (snapshot text (push_events (new start) pushes).events) in
    (
      ap (λ (b : EventBuffer EventKind). take 20 (reverse (snapshot text b)))
            (push_events-events (new start) pushes)
          ∙ newest-push_all text 20 event_buffer_capacity start pushes (omega arith) (omega arith),
      omega (arith, length-take 20 shown),
    )
