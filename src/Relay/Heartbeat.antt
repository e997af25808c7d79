-- ===== src/Relay/Heartbeat.antt =====
-- services/relay-node/src/main.rs: a relay and the discovery service. Registration, the heartbeat loop
-- and the request that takes the relay out again, each on the service's registry as its API changes it.
-- A heartbeat that fails is only logged.
pub mod Listed
pub mod Alive
mod Lost
pub mod Tests
use mini_tor.Prelude.{ℕ, List, [], ◌∷◌, Bool, Option, some, Result, err, ok}
use mini_tor.Types.{NodeDescriptor, NodeMetrics}
use mini_tor.Net.{Net}
use mini_tor.Proto.{ProtoNodeDescriptor, ProtoNodeMetrics, proto_descriptor, proto_metrics}
use mini_tor.Discovery.{NodeRegistry}
use mini_tor.Discovery.Api
use mini_tor.Discovery.Api.{Status}
use mini_tor.Discovery.Api.Reachable.{Change, change}

pub record HeartbeatRequest : Type 0 where
  pub node_id : List ℕ
  pub metrics : Option ProtoNodeMetrics

unfoldable pub heartbeat_request : List ℕ → NodeMetrics → HeartbeatRequest
heartbeat_request node_id metrics = record {
  node_id = node_id;
  metrics = some (proto_metrics metrics);
}

-- A tick of the loop; the answer changes nothing.
unfoldable pub heartbeat_round : ℕ → List ℕ → NodeMetrics → NodeRegistry → NodeRegistry
heartbeat_round now node_id metrics r =
    let request = heartbeat_request node_id metrics in
    (Api.update_heartbeat now r request.node_id request.metrics).0

unfoldable pub unregister_from_directory :
    NodeRegistry → List ℕ → NodeRegistry × Result Status (Unit {0})
unregister_from_directory r node_id = Api.remove_node r node_id

module _ ⦃net : Net⦄ where
  unfoldable pub register_with_directory :
      ℕ → NodeRegistry → NodeDescriptor → NodeRegistry × Result Status (Unit {0})
  register_with_directory now r descriptor = Api.register_node now r (proto_descriptor descriptor)

  -- While the relay runs: its loop ticks, and the registry changes otherwise.
  pub data Happening : Type 0 where
    tick : ℕ → NodeMetrics → Happening
    meanwhile : Change → Happening

  unfoldable pub heartbeat_loop : List ℕ → NodeRegistry → List Happening → NodeRegistry
  heartbeat_loop node_id r [] = r
  heartbeat_loop node_id r (tick now metrics ∷ hs) =
      heartbeat_loop node_id (heartbeat_round now node_id metrics r) hs
  heartbeat_loop node_id r (meanwhile c ∷ hs) = heartbeat_loop node_id (change r c) hs
