-- ===== src/Relay/Connection/Tests.antt =====
-- The loops of a relay at concrete cells.
use mini_tor.Prelude.{
  ◌≡◌, refl, arith, List, [], ◌∷◌, ◌++◌, map, replicate, lookup, some, ok, false,
}
use mini_tor.Prelude.{◌≤◌, ◌↔◌, leb}
use mini_tor.Relay.Accept.{
  AcceptEvent, accept_failed, task_ended, start, accept_connections, accept_connections-bound,
}
use mini_tor.Protocol.{Message, command_eq, to_u8}
use mini_tor.Protocol.Cells
use mini_tor.Protocol.Codec.{to_bytes}
use mini_tor.Crypto.Tests.{toy, toy-IsStreamCipher}
use mini_tor.Types.{NodeType}
use mini_tor.Net.Tests.{toy_net}
use mini_tor.Relay.Registry
use mini_tor.Relay.Registry.{get_circuit}
use mini_tor.Relay.Reader.{
  ReaderTask, CircuitIoContext, entry_reader, run_reader, stops_at, reader_id,
}
use mini_tor.Relay.Reader.Backward.{
  keys, backward_cells, reads, closed_round, run_reader-backward_cells,
}
use mini_tor.Relay.Connection.{Incoming}
use mini_tor.Relay.Connection
use mini_tor.Relay.Connection.Coherence.{AllCoherent}
use mini_tor.Relay.Connection.Sound.{Sound, all_coherent}
use mini_tor.Relay.Connection.Rounds
use mini_tor.Relay.Connection.Rounds.{of_connection, of_reader, relay_rounds-Sound}
use mini_tor.Relay.Connection.Others.{on_message-keeps}
use mini_tor.Relay.Tests.{
  zeros, draws, pair, keypair, an_entry, data_message, destroy_message, a_registry,
}

abbrev shared : CircuitIoContext ⦃prim = toy⦄ ⦃net = toy_net⦄
shared = record { circuit_registry = a_registry; prev_hop_write = [] }

abbrev at_start : CircuitIoContext ⦃prim = toy⦄ ⦃net = toy_net⦄
at_start = record {
  circuit_registry = Registry.new ⦃prim = toy⦄ ⦃net = toy_net⦄;
  prev_hop_write = [];
}

abbrev task : ReaderTask ⦃prim = toy⦄ ⦃net = toy_net⦄
task = entry_reader 7 tt

abbrev incoming : Message → Incoming
incoming msg = record { read = ok (some msg); draws = draws; fill = zeros }

abbrev rounds : List (Rounds.RelayRound ⦃prim = toy⦄ ⦃net = toy_net⦄ NodeType.entry keypair)
rounds =
    of_connection (incoming (Cells.create 7 (replicate 32 1)))
    ∷ of_reader task (reads (data_message, zeros))
    ∷ of_connection (incoming destroy_message)
    ∷ []

at_start-Sound : Sound ⦃prim = toy⦄ ⦃net = toy_net⦄ at_start
unfolding AllCoherent Registry.new get_circuit lookup
at_start-Sound = all_coherent (λ j h found. cc)

relay_rounds-Sound_example :
    Sound ⦃prim = toy⦄ ⦃net = toy_net⦄
      (Rounds.relay_rounds ⦃prim = toy⦄ ⦃net = toy_net⦄ NodeType.entry keypair rounds at_start)
relay_rounds-Sound_example =
    relay_rounds-Sound ⦃prim = toy⦄ ⦃net = toy_net⦄ NodeType.entry keypair rounds at_start
      at_start-Sound

on_message-keeps_example :
    get_circuit ⦃prim = toy⦄ ⦃net = toy_net⦄
      (Connection.on_message ⦃prim = toy⦄ ⦃net = toy_net⦄ NodeType.entry keypair draws zeros
        data_message shared).0.circuit_registry
      8
    ≡ get_circuit ⦃prim = toy⦄ ⦃net = toy_net⦄ a_registry 8
on_message-keeps_example =
    on_message-keeps ⦃prim = toy⦄ ⦃net = toy_net⦄ NodeType.entry keypair draws zeros data_message
      shared 8 (λ e. omega (arith, e))

entry_found :
    get_circuit ⦃prim = toy⦄ ⦃net = toy_net⦄ a_registry 7 ≡ some (Registry.at_entry an_entry)
unfolding get_circuit lookup
entry_found = refl

entry_keyed : keys ⦃prim = toy⦄ ⦃net = toy_net⦄ (Registry.at_entry an_entry) ≡ some pair
unfolding keys
entry_keyed = refl

passed_on : stops_at ⦃prim = toy⦄ ⦃net = toy_net⦄ task data_message ≡ false
unfolding stops_at command_eq to_u8
passed_on = refl

run_reader-backward_cells_example :
    let (io', goes_on) =
      run_reader ⦃prim = toy⦄ ⦃net = toy_net⦄ task
        (map reads ((data_message, zeros) ∷ []) ++ (closed_round zeros ∷ []))
        shared in
    (io'.prev_hop_write
      ≡ backward_cells ⦃prim = toy⦄ ⦃net = toy_net⦄ pair ((data_message, zeros) ∷ []) []
        ++ to_bytes (Cells.destroy 7) zeros)
    × (goes_on ≡ false)
unfolding reader_id
run_reader-backward_cells_example =
    run_reader-backward_cells ⦃prim = toy⦄ ⦃net = toy_net⦄ toy-IsStreamCipher (λ w b. refl) task
      ((data_message, zeros) ∷ []) zeros shared (Registry.at_entry an_entry) pair entry_found
      entry_keyed (record { own_circuit = refl; passed_on = passed_on; fits = omega arith }, tt)

abbrev arrivals : List AcceptEvent
arrivals =
    AcceptEvent.incoming ∷ AcceptEvent.incoming ∷ accept_failed ∷ AcceptEvent.incoming ∷ task_ended
    ∷ AcceptEvent.incoming ∷ []

accept_connections-bound_example :
    ((accept_connections (start 2) arrivals).serving ≤ 2)
    × ((leb 1 (accept_connections (start 2) arrivals).permits ≡ false)
        ↔ ((accept_connections (start 2) arrivals).serving ≡ 2))
accept_connections-bound_example = accept_connections-bound 2 arrivals
