-- ===== src/Client/Proxy.antt =====
-- services/tor-client/src/client/socks_proxy.rs: `handle_connection`, from the request of a SOCKS5
-- client to the end of its stream. The SOCKS5 handshake is the crate's; the reader that is spawned for
-- a new circuit is in Circuit, and metrics events are not modelled.
pub mod Closed
pub mod Tests
use mini_tor.Prelude.{
  ℕ, List, [], ◌∷◌, Bool, true, false, Option, none, some, Result, ok, err, lookup, insert,
  if◌then◌else◌,
}
use mini_tor.Crypto.{Primitives}
use mini_tor.Net.{Net, command_not_supported}
use mini_tor.Client.Circuit.{Circuit}
use mini_tor.Client.Pool.{CircuitPool, select_circuit, replace_circuit}
use mini_tor.Client.Stream.{StreamError, Course, Bridge, handle_stream}
use mini_tor.Client.Monitor.{BuildInput, has_failed}

-- The command of a request, `CMD` of simple_socks5.
pub data Cmd : Type 0 where
  connect bind udp_associate : Cmd

-- What the handshake and the request come to: the destination is a text.
pub data Request : Type 0 where
  not_authenticated unreadable : Request
  request : Cmd → List ℕ → Request

pub data ProxyError : Type 0 where
  authentication_failed request_failed select_failed : ProxyError
  unsupported : Cmd → ProxyError
  stream_failed : StreamError → ProxyError

module _ ⦃prim : Primitives⦄ ⦃net : Net⦄ where
  -- What a connection meets with: the builds of select_circuit and replace_circuit, its stream's course,
  -- and what others make of the pool while the stream runs.
  pub record Meeting : Type 0 where
    pub selecting : BuildInput
    pub replacing : BuildInput
    pub course : Course
    pub meanwhile : CircuitPool → CircuitPool

  -- The pool, the SOCKS5 connection, and the result, `none` while the stream runs.
  abbrev pub Served : Type 0
  Served = CircuitPool × net.Socks × Option (Result ProxyError (Unit {0}))

  -- The circuit is shared with the pool: what the stream did to it is seen there, if it is still there.
  unfoldable pub put_back : ℕ → Circuit → CircuitPool → CircuitPool
  put_back circuit_id c p = elim (lookup circuit_id p.circuits) [
    | none ↦ p
    | some _ ↦ record p { circuits = insert circuit_id c p.circuits }
  ]

  unfoldable pub replace_if_closed : BuildInput → ℕ → Circuit → CircuitPool → CircuitPool
  replace_if_closed input circuit_id c p =
      let replaced = (replace_circuit input.draws input.now input.path circuit_id p).0 in
      if has_failed c then replaced else p

  unfoldable pub after_stream :
      Meeting → ℕ → CircuitPool → Bridge × Option (Result StreamError (Unit {0})) → Served
  after_stream m circuit_id p (b, none) =
      (put_back circuit_id b.circuit (m.meanwhile p), b.socks, none)
  after_stream m circuit_id p (b, some (ok _)) =
      (put_back circuit_id b.circuit (m.meanwhile p), b.socks, some (ok tt))
  after_stream m circuit_id p (b, some (err e)) = (
    replace_if_closed m.replacing circuit_id b.circuit
        (put_back circuit_id b.circuit (m.meanwhile p)),
    b.socks,
    some (err (stream_failed e)),
  )

  -- `None` of the lookup is the "disappeared" of select_circuit.
  unfoldable pub on_circuit :
      Meeting → List ℕ → net.Socks → ℕ → CircuitPool → Option Circuit → Served
  on_circuit m destination socks circuit_id p none = (p, socks, some (err select_failed))
  on_circuit m destination socks circuit_id p (some c) =
      after_stream m circuit_id p
        (handle_stream m.course destination (record { circuit = c; socks = socks }))

  unfoldable pub on_selected : Meeting → List ℕ → net.Socks → CircuitPool × Option ℕ → Served
  on_selected m destination socks (p, none) = (p, socks, some (err select_failed))
  on_selected m destination socks (p, some circuit_id) =
      on_circuit m destination socks circuit_id p (lookup circuit_id p.circuits)

  unfoldable pub refuse : Cmd → CircuitPool → net.Socks → Served
  refuse cmd p socks =
      (p, (net.send_conn_reply socks command_not_supported).0, some (err (unsupported cmd)))

  unfoldable pub handle_connection : Meeting → Request → CircuitPool → net.Socks → Served
  handle_connection m not_authenticated p socks = (p, socks, some (err authentication_failed))
  handle_connection m unreadable p socks = (p, socks, some (err request_failed))
  handle_connection m (request connect destination) p socks =
      on_selected m destination socks
        (select_circuit m.selecting.draws m.selecting.now m.selecting.path p)
  handle_connection m (request bind destination) p socks = refuse bind p socks
  handle_connection m (request udp_associate destination) p socks = refuse udp_associate p socks
