-- ===== src/Relay/Registry.antt =====
-- services/relay-node/src/circuit/handler.rs: `CircuitHandler` and `CircuitRegistry`.
use mini_tor.Prelude.{
  ℕ, ◌+◌, ◌%◌, ◌^◌, ◌≡◌, ◌≢◌, refl, ◌∙◌, List, [], length, false, inl, inr, Option, none, some,
  Option-cases, ok, err, lookup, insert, remove, lookup-insert, ◌==◌, if◌then◌else◌, arith, map,
  Bool-cases,
}
use mini_tor.Protocol.{Message, create, command_eq}
use mini_tor.Crypto.{Primitives}
use mini_tor.Net.{Net}
use mini_tor.Relay.{Draws, Reply, circuit_not_found}
use mini_tor.Relay.Context.{CircuitState}
use mini_tor.Relay.Entry
use mini_tor.Relay.Entry.{EntryCircuitHandler}
use mini_tor.Relay.Middle
use mini_tor.Relay.Middle.{MiddleCircuitHandler}
use mini_tor.Relay.Exit.{ExitCircuitHandler}
use mini_tor.Relay.Exit.Handlers

module _ ⦃prim : Primitives⦄ ⦃net : Net⦄ where
  pub data CircuitHandler : Type 0 where
    at_entry : EntryCircuitHandler → CircuitHandler
    at_middle : MiddleCircuitHandler → CircuitHandler
    at_exit : ExitCircuitHandler → CircuitHandler

  -- A handler's circuit afterwards, the writer of the previous hop, and the reply.
  abbrev pub Handled : Type 0
  Handled = CircuitHandler × Option net.WriteHalf × Reply

  unfoldable pub handler_message : Draws → CircuitHandler → Message → Option net.WriteHalf → Handled
  handler_message draws (at_entry h) msg prev =
      let (h', r) = Entry.handle_message draws h msg in (at_entry h', prev, r)
  handler_message draws (at_middle h) msg prev =
      let (h', r) = Middle.handle_message draws h msg in (at_middle h', prev, r)
  handler_message draws (at_exit h) msg prev =
      let (h', prev', r) = Handlers.handle_message draws h msg prev in (at_exit h', prev', r)

  unfoldable pub state : CircuitHandler → CircuitState
  state (at_entry h) = h.context.state
  state (at_middle h) = h.context.state
  state (at_exit h) = h.context.state

  unfoldable pub close : CircuitHandler → CircuitHandler
  close (at_entry h) = at_entry (Entry.close h)
  close (at_middle h) = at_middle (Middle.close h)
  close (at_exit h) = at_exit (Handlers.close h)

  unfoldable pub handler_backward : CircuitHandler → Message → CircuitHandler × Reply
  handler_backward (at_entry h) msg =
      let (h', r) = Entry.handle_backward_relay h msg in (at_entry h', r)
  handler_backward (at_middle h) msg =
      let (h', r) = Middle.handle_backward_relay h msg in (at_middle h', r)
  handler_backward (at_exit h) msg = (at_exit h, ok (some msg))

  pub record CircuitRegistry : Type 0 where
    pub circuits : List (ℕ × CircuitHandler)
    pub next_circuit_id : ℕ

  unfoldable pub new : CircuitRegistry
  new = record { circuits = []; next_circuit_id = 1 }

  -- u32, with wrap-around
  unfoldable pub allocate_circuit_id : CircuitRegistry → CircuitRegistry × ℕ
  allocate_circuit_id r =
      (record r { next_circuit_id = (r.next_circuit_id + 1) % 2 ^ 32 }, r.next_circuit_id)

  unfoldable pub add_circuit : CircuitRegistry → ℕ → CircuitHandler → CircuitRegistry
  add_circuit r circuit_id handler = record r { circuits = insert circuit_id handler r.circuits }

  unfoldable pub get_circuit : CircuitRegistry → ℕ → Option CircuitHandler
  get_circuit r circuit_id = lookup circuit_id r.circuits

  unfoldable pub remove_circuit : CircuitRegistry → ℕ → CircuitRegistry × Option CircuitHandler
  remove_circuit r circuit_id =
      (record r { circuits = remove circuit_id r.circuits }, lookup circuit_id r.circuits)

  unfoldable pub circuit_count : CircuitRegistry → ℕ
  circuit_count r = length r.circuits

  unfoldable pub circuit_summaries : CircuitRegistry → List (ℕ × CircuitState)
  circuit_summaries r = map (λ (e : ℕ × CircuitHandler). (e.0, state e.1)) r.circuits

  -- The handler is borrowed mutably: what it has become is put back.
  unfoldable pub handle_message :
      Draws
      → CircuitRegistry
      → Message
      → Option net.WriteHalf
      → CircuitRegistry × Option net.WriteHalf × Reply
  unfolding handler_message add_circuit get_circuit
  handle_message draws r msg prev = elim (get_circuit r msg.circuit_id) [
    | some handler ↦
        let (handler', prev', reply) = handler_message draws handler msg prev in
        (add_circuit r msg.circuit_id handler', prev', reply)
    | none ↦
        if command_eq msg.command create
        then (r, prev, ok none)
        else (r, prev, err (circuit_not_found msg.circuit_id))
  ]

  unfoldable pub handle_backward_message : CircuitRegistry → Message → CircuitRegistry × Reply
  unfolding handler_backward add_circuit get_circuit
  handle_backward_message r msg = elim (get_circuit r msg.circuit_id) [
    | some handler ↦
        let (handler', reply) = handler_backward handler msg in
        (add_circuit r msg.circuit_id handler', reply)
    | none ↦ (r, err (circuit_not_found msg.circuit_id))
  ]

  pub get_circuit-add_circuit :
      (r : CircuitRegistry) (i j : ℕ) (h : CircuitHandler)
      → get_circuit (add_circuit r i h) j ≡ (if i == j then some h else get_circuit r j)
  unfolding get_circuit add_circuit
  get_circuit-add_circuit r i j h = lookup-insert i j h r.circuits

  pub other_circuit :
      (r : CircuitRegistry) (i j : ℕ) (h : CircuitHandler)
      → i ≢ j
      → get_circuit (add_circuit r i h) j ≡ get_circuit r j
  other_circuit r i j h differ =
      let apart : (i == j) ≡ false = ground arith in get_circuit-add_circuit r i j h ∙ rw apart

  -- A message, forward or backward, changes the handler of its own circuit only: every other
  -- circuit of the registry is looked up as before.
  pub handle_message-keeps :
      (draws : Draws) (r : CircuitRegistry) (msg : Message) (prev : Option net.WriteHalf) (j : ℕ)
      → msg.circuit_id ≢ j
      → (get_circuit (handle_message draws r msg prev).0 j ≡ get_circuit r j)
        × (get_circuit (handle_backward_message r msg).0 j ≡ get_circuit r j)
  unfolding handle_message handle_backward_message
  handle_message-keeps draws r msg prev j differ =
      elim (Option-cases (get_circuit r msg.circuit_id)) [
        | inl absent ↦ elim (Bool-cases (command_eq msg.command create)) [
          | inl yes_create ↦ (
            rw (handle_message, absent, yes_create) refl,
            rw (handle_backward_message, absent) refl,
          )
          | inr other ↦
              (rw (handle_message, absent, other) refl, rw (handle_backward_message, absent) refl)
        ]
        | inr (h, present) ↦ (
          rw (handle_message, present)
              (other_circuit r msg.circuit_id j (handler_message draws h msg prev).0 differ),
          rw (handle_backward_message, present)
              (other_circuit r msg.circuit_id j (handler_backward h msg).0 differ),
        )
      ]
