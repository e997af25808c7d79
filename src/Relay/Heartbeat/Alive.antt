-- ===== src/Relay/Heartbeat/Alive.antt =====
-- A relay (services/relay-node/src/main.rs) stays in the discovery service's registry while it runs.
use mini_tor.Prelude.{
  ℕ, ◌+◌, ◌≡◌, ◌≤◌, refl, List, [], ◌∷◌, false, inl, inr, none, ok, Result-cases, bytes_eq,
  bytes_eq_self, subst, arith, Option-cases, ◌==◌,
}
use mini_tor.Types.{NodeDescriptor}
use mini_tor.Net.{Net}
use mini_tor.Proto.RoundTrip.{IsOnWire, descriptor_of-proto_descriptor}
use mini_tor.Proto.{ProtoNodeDescriptor, descriptor_of}
use mini_tor.Discovery.{NodeRegistry}
use mini_tor.Discovery.Nodes
use mini_tor.Discovery.Nodes.{
  retain, find_node, update_node, put_node, refreshed, keeps_address, is_empty, is_fresh,
  cleanup_stale_nodes,
}
use mini_tor.Discovery.Lookup.{find_node-retain_gone, find_node-update_node}
use mini_tor.Discovery.Api
use mini_tor.Discovery.Api.{accept, if_converted, cleanup_round}
use mini_tor.Discovery.Api.Reachable.{registration, removal, heartbeat, cleanup, change}
use mini_tor.Relay.Heartbeat.{
  heartbeat_round, heartbeat_loop, register_with_directory, unregister_from_directory, Happening,
  tick, meanwhile,
}
use mini_tor.Relay.Heartbeat.Listed.{
  IsListed, IsOther, IsOtherIfRead, heartbeat-IsListed, other_heartbeat-IsListed, removal-IsListed,
  cleanup-IsListed, accept-IsListed,
}

module _ ⦃net : Net⦄ where
  -- What may happen while a relay runs: others register, leave and send heartbeats under their own ids
  -- and addresses, and the registry is cleaned up no later than the timeout after the last tick.
  abbrev pub Undisturbed : NodeDescriptor → ℕ → List Happening → Type 0
  Undisturbed d last [] = Unit
  Undisturbed d last (tick now metrics ∷ hs) = Undisturbed d now hs
  Undisturbed d last (meanwhile (registration now other) ∷ hs) =
      IsOtherIfRead d (descriptor_of other) × Undisturbed d last hs
  Undisturbed d last (meanwhile (removal id) ∷ hs) =
      (bytes_eq d.node_id id ≡ false) × Undisturbed d last hs
  Undisturbed d last (meanwhile (heartbeat now id metrics) ∷ hs) =
      (bytes_eq id d.node_id ≡ false) × Undisturbed d last hs
  Undisturbed d last (meanwhile (cleanup timeout now) ∷ hs) =
      (now ≤ last + timeout) × Undisturbed d last hs

  abbrev pub last_tick : ℕ → List Happening → ℕ
  last_tick last [] = last
  last_tick last (tick now metrics ∷ hs) = last_tick now hs
  last_tick last (meanwhile c ∷ hs) = last_tick last hs

  other_registration-IsListed :
      (d : NodeDescriptor) (last now : ℕ) (other : ProtoNodeDescriptor) (r : NodeRegistry)
      → IsOtherIfRead d (descriptor_of other)
      → IsListed d last r
      → IsListed d last (Api.register_node now r other).0
  unfolding Api.register_node if_converted
  other_registration-IsListed d last now other r apart is =
      elim (Result-cases (descriptor_of other)) [
        | inr (e, refused) ↦ rw refused is
        | inl (n, read) ↦
            let differs : IsOther d n = subst (IsOtherIfRead d) read apart in
            rw read (accept-IsListed d n last now r differs is)
      ]

  heartbeat_loop-IsListed :
      (d : NodeDescriptor) (last : ℕ) (r : NodeRegistry) (hs : List Happening)
      → Undisturbed d last hs
      → IsListed d last r
      → IsListed d (last_tick last hs) (heartbeat_loop d.node_id r hs)
  unfolding heartbeat_loop change
  heartbeat_loop-IsListed d last r [] calm is = is
  heartbeat_loop-IsListed d last r (tick now m ∷ hs) calm is =
      heartbeat_loop-IsListed d now (heartbeat_round now d.node_id m r) hs calm
        (heartbeat-IsListed d last now m r is)
  heartbeat_loop-IsListed d last r (meanwhile (registration now other) ∷ hs) (apart, calm) is =
      heartbeat_loop-IsListed d last (Api.register_node now r other).0 hs calm
        (other_registration-IsListed d last now other r apart is)
  heartbeat_loop-IsListed d last r (meanwhile (removal id) ∷ hs) (apart, calm) is =
      heartbeat_loop-IsListed d last (Api.remove_node r id).0 hs calm
        (removal-IsListed d last id r apart is)
  heartbeat_loop-IsListed d last r (meanwhile (heartbeat now id m) ∷ hs) (apart, calm) is =
      heartbeat_loop-IsListed d last (Api.update_heartbeat now r id m).0 hs calm
        (other_heartbeat-IsListed d last now id m r apart is)
  heartbeat_loop-IsListed d last r (meanwhile (cleanup timeout now) ∷ hs) (in_time, calm) is =
      heartbeat_loop-IsListed d last (cleanup_round timeout now r) hs calm
        (cleanup-IsListed d last timeout now r in_time is)

pub own_registration-IsListed :
    (d : NodeDescriptor) (now : ℕ) (r : NodeRegistry) → IsListed d now (Nodes.register_node now r d)
unfolding Nodes.register_node find_node
own_registration-IsListed d now r =
    let kept = retain (keeps_address d) r.nodes in
    elim (Option-cases (find_node d.node_id kept)) [
      | inl absent ↦ rw absent record {
        node = record { descriptor = d; registered_at = now; last_heartbeat = now; metrics = none };
        found = rw (bytes_eq_self d.node_id) refl;
        described = refl;
        fresh = refl;
      }
      | inr (e, present) ↦ rw present record {
        node = refreshed now d e;
        found = find_node-update_node d.node_id (refreshed now d) kept e present;
        described = refl;
        fresh = refl;
      }
    ]

unregistered :
    (d : NodeDescriptor) (last : ℕ) (r : NodeRegistry)
    → IsListed d last r
    → (find_node d.node_id (unregister_from_directory r d.node_id).0.nodes ≡ none)
      × ((unregister_from_directory r d.node_id).1 ≡ ok tt)
unfolding unregister_from_directory Api.remove_node Nodes.remove_node
unregistered d last r is = rw (is.found) (find_node-retain_gone d.node_id r.nodes, refl)

module _ ⦃net : Net⦄ where
  -- The service takes the descriptor as it is.
  pub registered :
      (d : NodeDescriptor) (now : ℕ) (r : NodeRegistry)
      → IsOnWire d
      → is_empty d.node_id ≡ false
      → 1 ≤ d.bandwidth
      → register_with_directory now r d ≡ (Nodes.register_node now r d, ok tt)
  unfolding register_with_directory Api.register_node if_converted accept
  registered d now r wire named weighted =
      let wide : (d.bandwidth == 0) ≡ false = ground (arith, weighted) in
      let read = descriptor_of-proto_descriptor d wire.key wire.policy wire.address in
      rw (read, named, wide) refl

  -- A relay that registers is in the registry under its descriptor, with the instant of its last
  -- heartbeat, for as long as it runs, and it is gone once it unregisters; both requests succeed. This
  -- is for a descriptor that protobuf can carry, with an id and a bandwidth, other nodes that have
  -- neither its id nor its address, and clean-ups that come within the timeout after its last heartbeat.
  pub heartbeat_loop-registered :
      (d : NodeDescriptor) (start : ℕ) (r : NodeRegistry) (hs : List Happening)
      → IsOnWire d
      → is_empty d.node_id ≡ false
      → 1 ≤ d.bandwidth
      → Undisturbed d start hs
      → let r' = heartbeat_loop d.node_id (register_with_directory start r d).0 hs in
        ((register_with_directory start r d).1 ≡ ok tt)
        × IsListed d (last_tick start hs) r'
        × (find_node d.node_id (unregister_from_directory r' d.node_id).0.nodes ≡ none)
        × ((unregister_from_directory r' d.node_id).1 ≡ ok tt)
  heartbeat_loop-registered d start r hs wire named weighted calm =
      let done = registered d start r wire named weighted in
      let listed : IsListed d (last_tick start hs)
          (heartbeat_loop d.node_id (register_with_directory start r d).0 hs) =
        rw done (
          heartbeat_loop-IsListed d start (Nodes.register_node start r d) hs calm
            (own_registration-IsListed d start r)) in
      let (gone, answered) =
        unregistered d (last_tick start hs)
          (heartbeat_loop d.node_id (register_with_directory start r d).0 hs) listed in
      (rw done refl, listed, gone, answered)
