-- ===== src/Relay/Connection/Others.antt =====
-- What a connection of relay-node/src/main.rs does to the circuits that a cell is not for.
use mini_tor.Prelude.{
  ℕ, ◌≡◌, ◌≢◌, ◌∙◌, refl, List, Bool, true, false, Bool-cases, Option, none, some, Option-cases,
  inl, inr, ok, err,
}
use mini_tor.Protocol.{Message, create, command_eq}
use mini_tor.Crypto.{Primitives}
use mini_tor.Crypto.Ntor.{KeyPair}
use mini_tor.Types.{NodeType}
use mini_tor.Net.{Net}
use mini_tor.Relay.{Draws, Reply}
use mini_tor.Relay.Registry.{
  CircuitHandler, CircuitRegistry, Handled, handler_message, handle_message, other_circuit,
  handle_message-keeps, get_circuit, add_circuit,
}
use mini_tor.Relay.Reader.{CircuitIoContext, spawn_nexthop_reader, write_prev, answer_prev}
use mini_tor.Relay.Connection
use mini_tor.Relay.Connection.{
  Incoming, new_handler, register, after_create, on_create, spawn_reader, after_reply,
  after_message, on_other, connection_round, should_spawn_reader,
}

module _ ⦃prim : Primitives⦄ ⦃net : Net⦄ where
  pub spawn_reader_absent :
      (id : ℕ) (io : CircuitIoContext)
      → get_circuit io.circuit_registry id ≡ none
      → spawn_reader id io ≡ (io, none)
  unfolding spawn_reader
  spawn_reader_absent id io e = rw (spawn_reader, e) refl

  pub spawn_reader_present :
      (id : ℕ) (io : CircuitIoContext) (h : CircuitHandler)
      → get_circuit io.circuit_registry id ≡ some h
      → spawn_reader id io ≡ (
        record io {
          circuit_registry = add_circuit io.circuit_registry id (spawn_nexthop_reader h).0;
        },
        (spawn_nexthop_reader h).1,
      )
  unfolding spawn_reader
  spawn_reader_present id io h e = rw (spawn_reader, e) refl

  -- The circuit with this id is looked up in one as in the other.
  abbrev Keeps : ℕ → CircuitIoContext → CircuitRegistry → Type 0
  Keeps j io r = get_circuit io.circuit_registry j ≡ get_circuit r j

  spawn_reader-Keeps :
      (id j : ℕ) (io : CircuitIoContext)
      → id ≢ j
      → Keeps j (spawn_reader id io).0 io.circuit_registry
  spawn_reader-Keeps id j io differ = elim (Option-cases (get_circuit io.circuit_registry id)) [
    | inl absent ↦ rw (spawn_reader_absent id io absent) refl
    | inr (h, present) ↦
        rw (spawn_reader_present id io h present)
          (other_circuit io.circuit_registry id j (spawn_nexthop_reader h).0 differ)
  ]

  answer_prev-Keeps :
      (fill : ℕ → List ℕ) (response : Option Message) (io : CircuitIoContext) (j : ℕ)
      → Keeps j (answer_prev fill response io).0 io.circuit_registry
  unfolding answer_prev write_prev
  answer_prev-Keeps fill none io j = refl
  answer_prev-Keeps fill (some response) io j = refl

  give_back-Keeps :
      (io : CircuitIoContext) (w : Option net.WriteHalf) (j : ℕ)
      → Keeps j (Connection.give_back io w) io.circuit_registry
  give_back-Keeps io none j = refl
  give_back-Keeps io (some w) j = refl

  after_reply-Keeps :
      (msg : Message) (t : CircuitIoContext × Bool) (j : ℕ)
      → msg.circuit_id ≢ j
      → Keeps j (after_reply msg t).0 t.0.circuit_registry
  unfolding after_reply
  after_reply-Keeps msg (io, false) j differ = refl
  after_reply-Keeps msg (io, true) j differ = elim (Bool-cases (should_spawn_reader msg.command)) [
    | inl spawns ↦ rw spawns (spawn_reader-Keeps msg.circuit_id j io differ)
    | inr other ↦ rw other refl
  ]

  after_message-Keeps :
      (fill : ℕ → List ℕ) (msg : Message) (io : CircuitIoContext)
      (handled : CircuitRegistry × Option net.WriteHalf × Reply) (j : ℕ)
      → msg.circuit_id ≢ j
      → Keeps j (after_message fill msg io handled).0 handled.0
  unfolding after_message
  after_message-Keeps fill msg io (r, w, ok response) j differ =
      let io' : CircuitIoContext = record (Connection.give_back io w) { circuit_registry = r } in
      after_reply-Keeps msg (answer_prev fill response io') j differ
      ∙ answer_prev-Keeps fill response io' j
  after_message-Keeps fill msg io (r, w, err e) j differ = refl

  register-Keeps :
      (id : ℕ) (h : CircuitHandler) (t : CircuitIoContext × Bool) (j : ℕ)
      → id ≢ j
      → Keeps j (register id h t).0 t.0.circuit_registry
  unfolding register
  register-Keeps id h (io, true) j differ = other_circuit io.circuit_registry id j h differ
  register-Keeps id h (io, false) j differ = refl

  after_create-Keeps :
      (fill : ℕ → List ℕ) (id : ℕ) (io : CircuitIoContext) (handled : Handled) (j : ℕ)
      → id ≢ j
      → Keeps j (after_create fill id io handled).0 io.circuit_registry
  unfolding after_create write_prev
  after_create-Keeps fill id io (h, w, ok (some response)) j differ =
      let io' = Connection.give_back io w in
      register-Keeps id h (write_prev fill response io') j differ ∙ give_back-Keeps io w j
  after_create-Keeps fill id io (h, w, ok none) j differ = give_back-Keeps io w j
  after_create-Keeps fill id io (h, w, err e) j differ = give_back-Keeps io w j

  -- A cell, CREATE and EXTEND included, whether it is handled or ends the connection, leaves the circuits
  -- that the relay has under other ids than the cell's as they were. Of the circuit under the cell's id,
  -- whichever client made it, nothing is said.
  pub on_message-keeps :
      (node_type : NodeType) (keypair : KeyPair) (draws : Draws) (fill : ℕ → List ℕ) (msg : Message)
      (io : CircuitIoContext) (j : ℕ)
      → msg.circuit_id ≢ j
      → get_circuit (Connection.on_message node_type keypair draws fill msg io).0.circuit_registry j
        ≡ get_circuit io.circuit_registry j
  unfolding Connection.on_message on_create on_other
  on_message-keeps node_type keypair draws fill msg io j differ =
      let fresh = new_handler node_type msg.circuit_id keypair in
      let w = some io.prev_hop_write in
      elim (Bool-cases (command_eq msg.command create)) [
        | inl made ↦
            rw made (
              after_create-Keeps fill msg.circuit_id io (handler_message draws fresh msg w) j
                differ)
        | inr other ↦ rw other (
            after_message-Keeps fill msg io (handle_message draws io.circuit_registry msg w) j
              differ
            ∙ (handle_message-keeps draws io.circuit_registry msg w j differ).0)
      ]
