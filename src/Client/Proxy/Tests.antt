-- ===== src/Client/Proxy/Tests.antt =====
-- A SOCKS5 connection whose circuit closes before its stream is connected.
use mini_tor.Prelude.{ℕ, ◌≡◌, refl, arith, List, [], ◌∷◌, none, some, err, true, lookup}
use mini_tor.Protocol.{MessageCommand}
use mini_tor.Crypto.Tests.{toy}
use mini_tor.Net.Tests.{toy_net}
use mini_tor.Relay.Tests.{draws, zeros}
use mini_tor.Client.Circuit.{Circuit, closed, send_message, unregister_stream, active_stream_count}
use mini_tor.Client.Tests.{a_circuit}
use mini_tor.Client.Pool.{least_loaded, is_ready, select_circuit}
use mini_tor.Client.Monitor.{BuildInput, has_failed, is_closed}
use mini_tor.Client.Monitor.Tests.{a_pool}
use mini_tor.Client.Stream.{
  Course, Bridge, elapsed, timed_out, open_stream, begin_payload, cleanup_stream, after_answer,
  after_begin, await_connected, handle_stream,
}
use mini_tor.Client.Stream.Tests.{course, begin_sent}
use mini_tor.Client.Proxy.{Meeting, request, connect, stream_failed, handle_connection}
use mini_tor.Client.Proxy.Closed.{handle_connection-drops}

abbrev closing : Circuit ⦃prim = toy⦄ ⦃net = toy_net⦄ → Circuit ⦃prim = toy⦄ ⦃net = toy_net⦄
closing c = record c { state = closed }

abbrev broken : Course ⦃prim = toy⦄ ⦃net = toy_net⦄
broken = record course { until_answer = closing; answer = elapsed }

abbrev no_build : BuildInput
no_build = record { draws = λ (n : ℕ). draws; now = 0; path = none }

abbrev meeting : Meeting ⦃prim = toy⦄ ⦃net = toy_net⦄
meeting = record { selecting = no_build; replacing = no_build; course = broken; meanwhile = λ p. p }

abbrev host : List ℕ
host = 104 ∷ 58 ∷ 56 ∷ []

abbrev left : Bridge ⦃prim = toy⦄ ⦃net = toy_net⦄
left =
    let (c, id) = open_stream ⦃prim = toy⦄ ⦃net = toy_net⦄ [] a_circuit in
    let c' =
      (send_message ⦃prim = toy⦄ ⦃net = toy_net⦄ zeros c id MessageCommand.begin
        (begin_payload ⦃prim = toy⦄ ⦃net = toy_net⦄ host)).0 in
    cleanup_stream ⦃prim = toy⦄ ⦃net = toy_net⦄ zeros id
      (record { circuit = closing c'; socks = [] })

selected :
    select_circuit ⦃prim = toy⦄ ⦃net = toy_net⦄ no_build.draws 0 none a_pool ≡ (a_pool, some 1)
unfolding select_circuit least_loaded is_ready active_stream_count
selected = refl

found : lookup 1 a_pool.circuits ≡ some a_circuit
unfolding lookup
found = refl

failed :
    handle_stream ⦃prim = toy⦄ ⦃net = toy_net⦄ broken host
      (record { circuit = a_circuit; socks = [] })
    ≡ (left, some (err timed_out))
unfolding handle_stream after_begin after_answer await_connected
failed = rw begin_sent refl

is_closed_by_then : has_failed ⦃prim = toy⦄ ⦃net = toy_net⦄ left.circuit ≡ true
unfolding has_failed is_closed cleanup_stream unregister_stream send_message
is_closed_by_then = refl

handle_connection-drops_example :
    let (last, socks', r) =
      handle_connection ⦃prim = toy⦄ ⦃net = toy_net⦄ meeting (request connect host) a_pool [] in
    (lookup 1 last.circuits ≡ none) × (r ≡ some (err (stream_failed timed_out)))
handle_connection-drops_example =
    handle_connection-drops ⦃prim = toy⦄ ⦃net = toy_net⦄ meeting host a_pool a_pool [] 1 a_circuit
      left timed_out selected found failed is_closed_by_then (λ e. omega (arith, e))
