-- ===== src/Client/Tests.antt =====
-- Stream ids of a concrete circuit.
use mini_tor.Prelude.{ℕ, List, ◌∷◌, none, ◌≢◌, refl, arith, []}
use mini_tor.Crypto.Tests.{toy}
use mini_tor.Crypto.Digest
use mini_tor.Net.Tests.{toy_net}
use mini_tor.Client.Circuit.{Circuit, ready, allocate_stream_id}
use mini_tor.Client.Pool.{least_loaded}
use mini_tor.Client.LeastLoaded.{Best, least_loaded-Best}
use mini_tor.Client.StreamIds.{allocated, allocate_stream_id-distinct}

abbrev pub a_circuit : Circuit ⦃prim = toy⦄ ⦃net = toy_net⦄
a_circuit = record {
  circuit_id = 1;
  state = ready;
  entry_writer = [];
  onion_keys = record {
    session_keys = [];
    ciphers = [];
    forward_digest = Digest.new ⦃prim = toy⦄;
    backward_digest = Digest.new ⦃prim = toy⦄;
  };
  stream_senders = [];
  next_stream_id = 1;
}

-- Also after 70000 allocations.
allocate_stream_id-distinct_example :
    (allocate_stream_id ⦃prim = toy⦄ ⦃net = toy_net⦄
      (allocated ⦃prim = toy⦄ ⦃net = toy_net⦄ 3 a_circuit)).1
    ≢ (allocate_stream_id ⦃prim = toy⦄ ⦃net = toy_net⦄
        (allocated ⦃prim = toy⦄ ⦃net = toy_net⦄ 65537 a_circuit)).1
allocate_stream_id-distinct_example =
    allocate_stream_id-distinct ⦃prim = toy⦄ ⦃net = toy_net⦄ 3 65537 a_circuit refl (omega arith)
      (omega arith)

abbrev two_circuits : List (ℕ × Circuit ⦃prim = toy⦄ ⦃net = toy_net⦄)
two_circuits = (1, record a_circuit { stream_senders = (4, []) ∷ [] }) ∷ (2, a_circuit) ∷ []

least_loaded-Best_example :
    Best ⦃prim = toy⦄ ⦃net = toy_net⦄
      (least_loaded ⦃prim = toy⦄ ⦃net = toy_net⦄ none two_circuits)
      two_circuits
least_loaded-Best_example = least_loaded-Best ⦃prim = toy⦄ ⦃net = toy_net⦄ two_circuits
