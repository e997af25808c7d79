-- ===== src/Relay/Connection/Coherence.antt =====
-- The circuits of a relay while its connection (relay-node/src/main.rs) and its next-hop readers run.
use mini_tor.Prelude.{
  ℕ, ◌≡◌, refl, ◌∙◌, sym, subst, Bool-cases, Option, some, Option-cases, inl, inr, ◌==◌,
}
use mini_tor.Protocol.{Message, create, command_eq}
use mini_tor.Crypto.{Primitives}
use mini_tor.Crypto.Ntor.{KeyPair}
use mini_tor.Types.{NodeType}
use mini_tor.Net.{Net}
use mini_tor.Relay.{Draws}
use mini_tor.Relay.Entry
use mini_tor.Relay.Entry.{EntryCircuitHandler}
use mini_tor.Relay.Entry.States as EntryStates
use mini_tor.Relay.Middle
use mini_tor.Relay.Middle.States as MiddleStates
use mini_tor.Relay.Exit.States as ExitStates
use mini_tor.Relay.Registry.{
  CircuitHandler, CircuitRegistry, at_entry, at_middle, at_exit, handler_message, handler_backward,
  handle_message, handle_backward_message, add_circuit, get_circuit, get_circuit-add_circuit,
}
use mini_tor.Relay.Reader.{spawn_nexthop_reader}
use mini_tor.Relay.Connection.{new_handler}

module _ ⦃prim : Primitives⦄ ⦃net : Net⦄ where
  unfoldable pub CoherentHandler : CircuitHandler → Type 0
  CoherentHandler (at_entry h) = EntryStates.Coherent h
  CoherentHandler (at_middle h) = MiddleStates.Coherent h
  CoherentHandler (at_exit h) = ExitStates.Coherent h

  -- Every circuit of the registry is active exactly while it has its keys.
  unfoldable pub AllCoherent : CircuitRegistry → Type 0
  AllCoherent r = (j : ℕ) (h : CircuitHandler) → get_circuit r j ≡ some h → CoherentHandler h

  pub coherent :
      (r : CircuitRegistry) (j : ℕ) (h : CircuitHandler)
      → AllCoherent r
      → get_circuit r j ≡ some h
      → CoherentHandler h
  unfolding AllCoherent
  coherent r j h all found = all j h found

  pub add_circuit-AllCoherent :
      (r : CircuitRegistry) (i : ℕ) (h : CircuitHandler)
      → AllCoherent r
      → CoherentHandler h
      → AllCoherent (add_circuit r i h)
  unfolding AllCoherent
  add_circuit-AllCoherent r i h all coh j k found = elim (Bool-cases (i == j)) [
    | inl same ↦
        let e : some h ≡ some k = sym (get_circuit-add_circuit r i j h ∙ rw same refl) ∙ found in
        let e' : h ≡ k = cc in subst CoherentHandler e' coh
    | inr other ↦
        let e : get_circuit r j ≡ some k =
          sym (get_circuit-add_circuit r i j h ∙ rw other refl) ∙ found in
        all j k e
  ]

  pub new_handler-CoherentHandler :
      (node_type : NodeType) (id : ℕ) (kp : KeyPair) → CoherentHandler (new_handler node_type id kp)
  unfolding CoherentHandler new_handler
  new_handler-CoherentHandler NodeType.entry id kp = EntryStates.new-Coherent id kp
  new_handler-CoherentHandler NodeType.middle id kp = MiddleStates.new-Coherent id kp
  new_handler-CoherentHandler NodeType.exit id kp = ExitStates.new-Coherent id kp

  pub handler_message-CoherentHandler :
      (draws : Draws) (h : CircuitHandler) (msg : Message) (w : Option net.WriteHalf)
      → CoherentHandler h
      → CoherentHandler (handler_message draws h msg w).0
  unfolding CoherentHandler handler_message Entry.handle_message Middle.handle_message
  handler_message-CoherentHandler draws (at_entry h) msg w coh =
      EntryStates.dispatch-Coherent msg.command draws h msg coh
  handler_message-CoherentHandler draws (at_middle h) msg w coh =
      MiddleStates.dispatch-Coherent msg.command draws h msg coh
  handler_message-CoherentHandler draws (at_exit h) msg w coh =
      ExitStates.handle_message-Coherent draws h msg w coh

  handler_backward-CoherentHandler :
      (h : CircuitHandler) (msg : Message)
      → CoherentHandler h
      → CoherentHandler (handler_backward h msg).0
  unfolding CoherentHandler handler_backward
  handler_backward-CoherentHandler (at_entry h) msg coh =
      EntryStates.handle_backward_relay-Coherent h msg coh
  handler_backward-CoherentHandler (at_middle h) msg coh =
      MiddleStates.handle_backward_relay-Coherent h msg coh
  handler_backward-CoherentHandler (at_exit h) msg coh = coh

  -- Only the read half of the next hop is taken.
  pub spawn_nexthop_reader-CoherentHandler :
      (h : CircuitHandler) → CoherentHandler h → CoherentHandler (spawn_nexthop_reader h).0
  unfolding CoherentHandler spawn_nexthop_reader
  spawn_nexthop_reader-CoherentHandler (at_entry h) (EntryStates.keyed c e act) =
      EntryStates.keyed c e act
  spawn_nexthop_reader-CoherentHandler (at_entry h) (EntryStates.unkeyed e act last) =
      EntryStates.unkeyed e act (rw last refl)
  spawn_nexthop_reader-CoherentHandler (at_middle h) (MiddleStates.keyed c e act) =
      MiddleStates.keyed c e act
  spawn_nexthop_reader-CoherentHandler (at_middle h) (MiddleStates.unkeyed e act last) =
      MiddleStates.unkeyed e act (rw last refl)
  spawn_nexthop_reader-CoherentHandler (at_exit h) coh = coh

  pub handle_message-AllCoherent :
      (draws : Draws) (r : CircuitRegistry) (msg : Message) (w : Option net.WriteHalf)
      → AllCoherent r
      → AllCoherent (handle_message draws r msg w).0
  unfolding handle_message
  handle_message-AllCoherent draws r msg w all =
      elim (Option-cases (get_circuit r msg.circuit_id)) [
        | inl absent ↦ elim (Bool-cases (command_eq msg.command create)) [
          | inl made ↦ rw (handle_message, absent, made) all
          | inr other ↦ rw (handle_message, absent, other) all
        ]
        | inr (h, present) ↦
            rw (handle_message, present)
              (add_circuit-AllCoherent r msg.circuit_id (handler_message draws h msg w).0 all (
                handler_message-CoherentHandler draws h msg w
                  (coherent r msg.circuit_id h all present)))
      ]

  pub handle_backward_message-AllCoherent :
      (r : CircuitRegistry) (msg : Message)
      → AllCoherent r
      → AllCoherent (handle_backward_message r msg).0
  unfolding handle_backward_message
  handle_backward_message-AllCoherent r msg all =
      elim (Option-cases (get_circuit r msg.circuit_id)) [
        | inl absent ↦ rw (handle_backward_message, absent) all
        | inr (h, present) ↦
            rw (handle_backward_message, present)
              (add_circuit-AllCoherent r msg.circuit_id (handler_backward h msg).0 all
                (handler_backward-CoherentHandler h msg (coherent r msg.circuit_id h all present)))
      ]
