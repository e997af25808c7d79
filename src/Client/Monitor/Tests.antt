-- ===== src/Client/Monitor/Tests.antt =====
-- The pool's monitor at a concrete pool.
use mini_tor.Prelude.{ℕ, ◌≡◌, arith, [], ◌∷◌, lookup}
use mini_tor.Crypto.Tests.{toy}
use mini_tor.Net.Tests.{toy_net}
use mini_tor.Relay.{Draws}
use mini_tor.Relay.Tests.{draws}
use mini_tor.Client.Circuit.{dirty}
use mini_tor.Client.Tests.{a_circuit}
use mini_tor.Client.Pool.{CircuitPool}
use mini_tor.Client.Monitor.{remove_idle_dirty}
use mini_tor.Client.Monitor.Cleaning.{after_cleaning, remove_idle_dirty-exact}

abbrev pub a_pool : CircuitPool ⦃prim = toy⦄ ⦃net = toy_net⦄
a_pool = record {
  circuits = (1, a_circuit) ∷ (2, record a_circuit { state = dirty }) ∷ [];
  next_circuit_id = 3;
  pool_size = 2;
  hop_count = 3;
  max_rebuild_attempts = 5;
  rebuild_failure_counts = [];
  abandoned_slots = [];
  circuit_ages = [];
  max_circuit_age = 600;
}

abbrev each_draws : ℕ → Draws
each_draws n = draws

remove_idle_dirty-exact_example :
    lookup 2 (remove_idle_dirty ⦃prim = toy⦄ ⦃net = toy_net⦄ a_pool).circuits
    ≡ after_cleaning ⦃prim = toy⦄ ⦃net = toy_net⦄ (lookup 2 a_pool.circuits)
remove_idle_dirty-exact_example =
    remove_idle_dirty-exact ⦃prim = toy⦄ ⦃net = toy_net⦄ a_pool 2 ((omega arith, tt), (tt, tt))
