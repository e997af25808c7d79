-- ===== src/Relay/Dashboard/Tests.antt =====
-- A dashboard that is paused, set to circuits and left.
use mini_tor.Prelude.{ℕ, ◌≡◌, List, [], ◌∷◌, map, true, false, bytes_of, to_string}
use mini_tor.Crypto.Tests.{toy}
use mini_tor.Net.Tests.{toy_net}
use mini_tor.Relay.Registry
use mini_tor.Relay.Events.{EventKind, connection_accepted, circuit_created}
use mini_tor.Relay.Dashboard.{TuiState, all, char, pressed, run_event_loop}
use mini_tor.Relay.Dashboard.Shown.{Moment, tick_at, logs, shown_lines, run_event_loop-logs}

abbrev whole : ℕ → ℕ → List ℕ
whole bytes unit = to_string bytes

abbrev pushes : List (ℕ × EventKind)
pushes = (11, connection_accepted (bytes_of "10.0.0.7:9001")) ∷ (75, circuit_created 1) ∷ []

abbrev unpaused : TuiState
unpaused = record { paused = false; filter = all }

abbrev at : ℕ → Moment whole ⦃prim = toy⦄ ⦃net = toy_net⦄
at key = record {
  registry = Registry.new ⦃prim = toy⦄ ⦃net = toy_net⦄;
  pushes = pushes;
  drawn = true;
  polled = pressed (char key false);
}

-- p, 2 and q
abbrev moments : List (Moment whole ⦃prim = toy⦄ ⦃net = toy_net⦄)
moments = at 112 ∷ at 50 ∷ at 113 ∷ []

run_event_loop-logs_example :
    shown_lines whole ⦃prim = toy⦄ ⦃net = toy_net⦄ (
      run_event_loop whole ⦃prim = toy⦄ ⦃net = toy_net⦄ unpaused
        (map (tick_at whole ⦃prim = toy⦄ ⦃net = toy_net⦄ 10) moments))
    ≡ logs whole ⦃prim = toy⦄ ⦃net = toy_net⦄ 10 all moments
run_event_loop-logs_example =
    run_event_loop-logs whole ⦃prim = toy⦄ ⦃net = toy_net⦄ 10 unpaused moments
