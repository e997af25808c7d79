-- ===== src/Relay/Connection/Rounds.antt =====
-- A relay while several loops share its registry: the connection's (relay-node/src/main.rs) and the
-- next-hop readers' (relay-node/src/circuit), in any order of their rounds.
use mini_tor.Prelude.{
  ℕ, List, [], ◌∷◌, Bool, true, false, Bool-cases, Option, none, some, Option-cases, inl, inr,
  Result, ok, err,
}
use mini_tor.Protocol.{Message, create, command_eq}
use mini_tor.Protocol.Wire.{IoError}
use mini_tor.Crypto.{Primitives}
use mini_tor.Crypto.Ntor.{KeyPair}
use mini_tor.Types.{NodeType}
use mini_tor.Net.{Net}
use mini_tor.Relay.{Draws, Reply}
use mini_tor.Relay.Registry.{
  CircuitHandler, CircuitRegistry, Handled, handler_message, handle_message, get_circuit,
}
use mini_tor.Relay.Reader.{
  ReaderTask, CircuitIoContext, Round, spawn_nexthop_reader, write_prev, answer_prev, reader_round,
}
use mini_tor.Relay.Connection
use mini_tor.Relay.Connection.{
  Incoming, new_handler, register, after_create, on_create, spawn_reader, after_reply,
  after_message, on_other, connection_round, should_spawn_reader,
}
use mini_tor.Relay.Connection.Coherence.{
  CoherentHandler, AllCoherent, coherent, add_circuit-AllCoherent, new_handler-CoherentHandler,
  handler_message-CoherentHandler, spawn_nexthop_reader-CoherentHandler, handle_message-AllCoherent,
}
use mini_tor.Relay.Connection.Sound.{
  Sound, all_coherent, answer_prev-Sound, write_prev-Sound, reader_round-Sound,
}
use mini_tor.Relay.Connection.Others.{spawn_reader_absent, spawn_reader_present}

module _ ⦃prim : Primitives⦄ ⦃net : Net⦄ where
  register-Sound :
      (id : ℕ) (h : CircuitHandler) (t : CircuitIoContext × Bool)
      → Sound t.0
      → CoherentHandler h
      → Sound (register id h t).0
  unfolding register
  register-Sound id h (io, true) (all_coherent all) coh =
      all_coherent (add_circuit-AllCoherent io.circuit_registry id h all coh)
  register-Sound id h (io, false) sound coh = sound

  give_back-Sound :
      (io : CircuitIoContext) (w : Option net.WriteHalf)
      → Sound io
      → Sound (Connection.give_back io w)
  give_back-Sound io none sound = sound
  give_back-Sound io (some w) (all_coherent all) = all_coherent all

  after_create-Sound :
      (fill : ℕ → List ℕ) (id : ℕ) (io : CircuitIoContext) (handled : Handled)
      → Sound io
      → CoherentHandler handled.0
      → Sound (after_create fill id io handled).0
  unfolding after_create
  after_create-Sound fill id io (h, w, ok (some response)) sound coh =
      let io' = Connection.give_back io w in
      register-Sound id h (write_prev fill response io')
        (write_prev-Sound fill response io' (give_back-Sound io w sound)) coh
  after_create-Sound fill id io (h, w, ok none) sound coh = give_back-Sound io w sound
  after_create-Sound fill id io (h, w, err e) sound coh = give_back-Sound io w sound

  spawn_reader-Sound : (id : ℕ) (io : CircuitIoContext) → Sound io → Sound (spawn_reader id io).0
  spawn_reader-Sound id io (all_coherent all) =
      elim (Option-cases (get_circuit io.circuit_registry id)) [
        | inl absent ↦ rw (spawn_reader_absent id io absent) (all_coherent all)
        | inr (h, present) ↦ rw (spawn_reader_present id io h present) (
            all_coherent (
              add_circuit-AllCoherent io.circuit_registry id (spawn_nexthop_reader h).0 all (
                spawn_nexthop_reader-CoherentHandler h
                  (coherent io.circuit_registry id h all present))))
      ]

  after_reply-Sound :
      (msg : Message) (t : CircuitIoContext × Bool) → Sound t.0 → Sound (after_reply msg t).0
  unfolding after_reply
  after_reply-Sound msg (io, false) sound = sound
  after_reply-Sound msg (io, true) sound = elim (Bool-cases (should_spawn_reader msg.command)) [
    | inl spawns ↦ rw spawns (spawn_reader-Sound msg.circuit_id io sound)
    | inr other ↦ rw other sound
  ]

  after_message-Sound :
      (fill : ℕ → List ℕ) (msg : Message) (io : CircuitIoContext)
      (handled : CircuitRegistry × Option net.WriteHalf × Reply)
      → AllCoherent handled.0
      → Sound (after_message fill msg io handled).0
  unfolding after_message
  after_message-Sound fill msg io (r, w, ok response) all =
      let io' : CircuitIoContext = record (Connection.give_back io w) { circuit_registry = r } in
      after_reply-Sound msg (answer_prev fill response io')
        (answer_prev-Sound fill response io' (all_coherent all))
  after_message-Sound fill msg io (r, w, err e) all = all_coherent all

  module _ (node_type : NodeType) (keypair : KeyPair) where
    on_message-Sound :
        (draws : Draws) (fill : ℕ → List ℕ) (msg : Message) (io : CircuitIoContext)
        → Sound io
        → Sound (Connection.on_message node_type keypair draws fill msg io).0
    unfolding Connection.on_message on_create on_other
    on_message-Sound draws fill msg io (all_coherent all) =
        let fresh = new_handler node_type msg.circuit_id keypair in
        let w = some io.prev_hop_write in
        elim (Bool-cases (command_eq msg.command create)) [
          | inl made ↦ rw made (
              after_create-Sound fill msg.circuit_id io (handler_message draws fresh msg w)
                (all_coherent all)
                (handler_message-CoherentHandler draws fresh msg w
                  (new_handler-CoherentHandler node_type msg.circuit_id keypair)))
          | inr other ↦ rw other (
              after_message-Sound fill msg io (handle_message draws io.circuit_registry msg w)
                (handle_message-AllCoherent draws io.circuit_registry msg w all))
        ]

    on_read-Sound :
        (incoming : Incoming) (r : Result IoError (Option Message)) (io : CircuitIoContext)
        → Sound io
        → Sound (Connection.on_read node_type keypair incoming r io).0
    unfolding Connection.on_read
    on_read-Sound incoming (ok (some msg)) io sound =
        on_message-Sound incoming.draws incoming.fill msg io sound
    on_read-Sound incoming (ok none) io sound = sound
    on_read-Sound incoming (err e) io sound = sound

    -- A round of one of the loops: the connection's, or that of a next-hop reader.
    pub data RelayRound : Type 0 where
      of_connection : Incoming → RelayRound
      of_reader : ReaderTask → Round → RelayRound

    unfoldable pub relay_round : RelayRound → CircuitIoContext → CircuitIoContext
    relay_round (of_connection incoming) io = (connection_round node_type keypair incoming io).0
    relay_round (of_reader task round) io = (reader_round task round io).0

    unfoldable pub relay_rounds : List RelayRound → CircuitIoContext → CircuitIoContext
    relay_rounds [] io = io
    relay_rounds (r ∷ rs) io = relay_rounds rs (relay_round r io)

    -- Whatever the previous hop and the next hops send, and in whatever order the rounds of the
    -- connection's loop and of the next-hop readers come, every circuit of the relay stays coherent,
    -- if each was before: it is active exactly while it has its keys.
    pub relay_rounds-Sound :
        (rounds : List RelayRound) (io : CircuitIoContext)
        → Sound io
        → Sound (relay_rounds rounds io)
    unfolding relay_rounds relay_round connection_round
    relay_rounds-Sound [] io sound = sound
    relay_rounds-Sound (of_connection incoming ∷ rs) io sound =
        relay_rounds-Sound rs (connection_round node_type keypair incoming io).0
          (on_read-Sound incoming incoming.read io sound)
    relay_rounds-Sound (of_reader task round ∷ rs) io sound =
        relay_rounds-Sound rs (reader_round task round io).0
          (reader_round-Sound task round io sound)
