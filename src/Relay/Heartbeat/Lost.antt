-- ===== src/Relay/Heartbeat/Lost.antt =====
-- A relay (services/relay-node/src/main.rs) that the discovery service has dropped. The heartbeat loop
-- only logs the error, and does not register again.
use mini_tor.Prelude.{ℕ, ◌≡◌, List, [], ◌∷◌, false, none, Result, ok, err, bytes_eq}
use mini_tor.Types.{NodeDescriptor}
use mini_tor.Net.{Net}
use mini_tor.Proto.{Invalid, descriptor_of}
use mini_tor.Discovery.{NodeRegistry}
use mini_tor.Discovery.Nodes
use mini_tor.Discovery.Nodes.{find_node, update_node}
use mini_tor.Discovery.Api
use mini_tor.Discovery.Api.{Status, not_found}
use mini_tor.Discovery.Api.Reachable.{registration}
use mini_tor.Relay.Heartbeat.{Happening, meanwhile}

abbrev pub IsLost : List ℕ → NodeRegistry → Type 0
IsLost id r = find_node id r.nodes ≡ none

abbrev pub HasOtherId : List ℕ → Result Invalid NodeDescriptor → Type 0
HasOtherId id (ok other) = bytes_eq other.node_id id ≡ false
HasOtherId id (err e) = Unit

module _ ⦃net : Net⦄ where
  -- Whatever happens, but no registration of this id.
  abbrev pub NotRegistered : List ℕ → List Happening → Type 0
  NotRegistered id [] = Unit
  NotRegistered id (meanwhile (registration now other) ∷ hs) =
      HasOtherId id (descriptor_of other) × NotRegistered id hs
  NotRegistered id (h ∷ hs) = NotRegistered id hs
