-- ===== src/Relay/Connection.antt =====
-- services/relay-node/src/main.rs: `handle_connection`, the loop over the cells of a connection. One
-- round is one step; metrics are not modelled.
pub mod Coherence
pub mod Sound
pub mod Rounds
pub mod Others
pub mod Tests
use mini_tor.Prelude.{
  ℕ, ◌+◌, ◌-◌, Bool, true, false, ◌||◌, List, [], ◌∷◌, Option, none, some, Result, ok, err, ltb,
  if◌then◌else◌,
}
use mini_tor.Protocol.{MessageCommand, Message, create, extend, extended, command_eq}
use mini_tor.Protocol.Wire.{IoError}
use mini_tor.Crypto.{Primitives}
use mini_tor.Crypto.Ntor.{KeyPair}
use mini_tor.Types.{NodeType}
use mini_tor.Net.{Net}
use mini_tor.Relay.{Draws, Reply}
use mini_tor.Relay.Entry
use mini_tor.Relay.Middle
use mini_tor.Relay.Exit
use mini_tor.Relay.Registry.{
  CircuitHandler, CircuitRegistry, at_entry, at_middle, at_exit, handler_message, handle_message,
  Handled, add_circuit, get_circuit,
}
use mini_tor.Relay.Reader.{
  ReaderTask, CircuitIoContext, spawn_nexthop_reader, write_prev, answer_prev,
}

-- What a read comes to, and what is drawn for the handler and for the reply's cell.
pub record Incoming : Type 0 where
  pub read : Result IoError (Option Message)
  pub draws : Draws
  pub fill : ℕ → List ℕ

module _ ⦃prim : Primitives⦄ ⦃net : Net⦄ where
  unfoldable pub new_handler : NodeType → ℕ → KeyPair → CircuitHandler
  new_handler NodeType.entry circuit_id keypair = at_entry (Entry.new circuit_id keypair)
  new_handler NodeType.middle circuit_id keypair = at_middle (Middle.new circuit_id keypair)
  new_handler NodeType.exit circuit_id keypair = at_exit (Exit.new circuit_id keypair)

  -- What a round leaves: the shared context, a task that it spawned, and whether the loop goes on.
  abbrev pub Turn : Type 0
  Turn = CircuitIoContext × Option ReaderTask × Bool

  -- The writer was lent to the handler.
  abbrev give_back : CircuitIoContext → Option net.WriteHalf → CircuitIoContext
  give_back io none = io
  give_back io (some w) = record io { prev_hop_write = w }

  -- The new circuit is registered only once its CREATED is written.
  unfoldable pub register : ℕ → CircuitHandler → CircuitIoContext × Bool → Turn
  register circuit_id handler (io, true) =
      let registry' = add_circuit io.circuit_registry circuit_id handler in
      (record io { circuit_registry = registry' }, none, true)
  register circuit_id handler (io, false) = (io, none, false)

  unfoldable pub after_create : (ℕ → List ℕ) → ℕ → CircuitIoContext → Handled → Turn
  after_create fill circuit_id io (handler, w, ok (some response)) =
      register circuit_id handler (write_prev fill response (give_back io w))
  after_create fill circuit_id io (handler, w, ok none) = (give_back io w, none, true)
  after_create fill circuit_id io (handler, w, err e) = (give_back io w, none, false)

  unfoldable pub on_create :
      NodeType → KeyPair → Draws → (ℕ → List ℕ) → Message → CircuitIoContext → Turn
  on_create node_type keypair draws fill msg io = after_create fill msg.circuit_id io (
      handler_message draws (new_handler node_type msg.circuit_id keypair) msg
        (some io.prev_hop_write))

  -- The handler is borrowed mutably: what it has become is put back.
  unfoldable pub spawn_reader : ℕ → CircuitIoContext → CircuitIoContext × Option ReaderTask
  spawn_reader circuit_id io = elim (get_circuit io.circuit_registry circuit_id) [
    | none ↦ (io, none)
    | some handler ↦
        let (handler', task) = spawn_nexthop_reader handler in
        let registry' = add_circuit io.circuit_registry circuit_id handler' in
        (record io { circuit_registry = registry' }, task)
  ]

  unfoldable pub should_spawn_reader : MessageCommand → Bool
  should_spawn_reader command = command_eq command extended || command_eq command extend

  unfoldable pub after_reply : Message → CircuitIoContext × Bool → Turn
  after_reply msg (io, false) = (io, none, false)
  after_reply msg (io, true) =
      if should_spawn_reader msg.command
      then (let (io', task) = spawn_reader msg.circuit_id io in (io', task, true))
      else (io, none, true)

  unfoldable pub after_message :
      (ℕ → List ℕ)
      → Message
      → CircuitIoContext
      → CircuitRegistry × Option net.WriteHalf × Reply
      → Turn
  after_message fill msg io (registry', w, ok response) =
      after_reply msg
        (answer_prev fill response (record (give_back io w) { circuit_registry = registry' }))
  after_message fill msg io (registry', w, err e) =
      (record (give_back io w) { circuit_registry = registry' }, none, false)

  unfoldable pub on_other : Draws → (ℕ → List ℕ) → Message → CircuitIoContext → Turn
  on_other draws fill msg io =
      after_message fill msg io
        (handle_message draws io.circuit_registry msg (some io.prev_hop_write))

  module _ (node_type : NodeType) (keypair : KeyPair) where
    unfoldable pub on_message : Draws → (ℕ → List ℕ) → Message → CircuitIoContext → Turn
    on_message draws fill msg io =
        if command_eq msg.command create
        then on_create node_type keypair draws fill msg io
        else on_other draws fill msg io

    unfoldable pub on_read : Incoming → Result IoError (Option Message) → CircuitIoContext → Turn
    on_read incoming (ok (some msg)) io = on_message incoming.draws incoming.fill msg io
    on_read incoming (ok none) io = (io, none, false)
    on_read incoming (err e) io = (io, none, false)

    unfoldable pub connection_round : Incoming → CircuitIoContext → Turn
    connection_round incoming io = on_read incoming incoming.read io

    -- The loop, with the tasks that it has spawned; whether it is still running.
    unfoldable pub handle_connection :
        List Incoming → CircuitIoContext → CircuitIoContext × List (Option ReaderTask) × Bool
    handle_connection [] io = (io, [], true)
    handle_connection (incoming ∷ rest) io =
        let first = connection_round incoming io in
        let more = handle_connection rest first.0 in
        if first.2 then (more.0, first.1 ∷ more.1, more.2) else (first.0, first.1 ∷ [], false)
