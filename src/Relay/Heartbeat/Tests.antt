-- ===== src/Relay/Heartbeat/Tests.antt =====
-- The life of a relay in the registry, at concrete inputs.
use mini_tor.Prelude.{
  ℕ, ◌≡◌, refl, arith, [], ◌∷◌, List, none, ok, length-replicate, bytes_eq, subst, sym,
}
use mini_tor.Types.{NodeType, NodeDescriptor, NodeMetrics, middle, exit, addr_eq, ip_eq}
use mini_tor.Net.Tests.{toy_net, parse-print}
use mini_tor.Proto.{proto_descriptor, descriptor_of}
use mini_tor.Proto.RoundTrip.{IsOnWire, descriptor_of-proto_descriptor}
use mini_tor.Discovery.{NodeRegistry}
use mini_tor.Discovery.Nodes.{find_node}
use mini_tor.Discovery.Tests.{node, a_registry}
use mini_tor.Discovery.Api.Reachable.{registration, removal, heartbeat, cleanup}
use mini_tor.Relay.Heartbeat.{
  Happening, tick, meanwhile, heartbeat_loop, register_with_directory, unregister_from_directory,
}
use mini_tor.Relay.Heartbeat.Listed.{IsListed, IsOther, IsOtherIfRead}
use mini_tor.Relay.Heartbeat.Alive.{heartbeat_loop-registered}

abbrev a_relay : NodeDescriptor
a_relay = node 9 exit 100

abbrev newcomer : NodeDescriptor
newcomer = node 8 middle 3

abbrev idle : NodeMetrics
idle = record {
  connections_accepted = 0;
  circuits_active = 0;
  circuits_created = 0;
  circuits_destroyed = 0;
  bytes_forwarded = 0;
  bytes_received = 0;
  streams_opened = 0;
  uptime_secs = 0;
  event_snapshot = [];
}

node-IsOnWire :
    (id : ℕ) (kind : NodeType) (bandwidth : ℕ) → IsOnWire ⦃net = toy_net⦄ (node id kind bandwidth)
node-IsOnWire id kind bandwidth = record {
  key = length-replicate 32 id;
  policy = tt;
  address = parse-print (node id kind bandwidth).address;
}

newcomer_read :
    descriptor_of ⦃net = toy_net⦄ (proto_descriptor ⦃net = toy_net⦄ newcomer) ≡ ok newcomer
newcomer_read =
    let wire = node-IsOnWire 8 middle 3 in
    descriptor_of-proto_descriptor ⦃net = toy_net⦄ newcomer wire.key wire.policy wire.address

abbrev events : List (Happening ⦃net = toy_net⦄)
events =
    tick 60 idle
    ∷ meanwhile (registration 61 (proto_descriptor ⦃net = toy_net⦄ newcomer))
    ∷ meanwhile (cleanup 120 180)
    ∷ meanwhile (removal (1 ∷ []))
    ∷ tick 190 idle
    ∷ meanwhile (heartbeat 191 (8 ∷ []) none)
    ∷ []

newcomer-IsOther : IsOther a_relay newcomer
unfolding bytes_eq addr_eq ip_eq
newcomer-IsOther = record { own_id = refl; own_address = refl }

abbrev registered_at_zero : NodeRegistry
registered_at_zero = (register_with_directory ⦃net = toy_net⦄ 0 a_registry a_relay).0

heartbeat_loop-registered_example :
    ((register_with_directory ⦃net = toy_net⦄ 0 a_registry a_relay).1 ≡ ok tt)
    × IsListed a_relay 190 (heartbeat_loop ⦃net = toy_net⦄ (9 ∷ []) registered_at_zero events)
    × (find_node
          (9 ∷ [])
          (unregister_from_directory
            (heartbeat_loop ⦃net = toy_net⦄ (9 ∷ []) registered_at_zero events)
            (9 ∷ [])).0.nodes
        ≡ none)
    × ((unregister_from_directory
          (heartbeat_loop ⦃net = toy_net⦄ (9 ∷ []) registered_at_zero events)
          (9 ∷ [])).1
        ≡ ok tt)
unfolding bytes_eq
heartbeat_loop-registered_example =
    heartbeat_loop-registered ⦃net = toy_net⦄ a_relay 0 a_registry events (node-IsOnWire 9 exit 100)
      refl (omega arith)
      (
        subst (IsOtherIfRead a_relay) (sym newcomer_read) newcomer-IsOther,
        (omega arith, (refl, (refl, tt))),
      )
