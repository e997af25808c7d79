-- ===== src/Discovery.antt =====
-- services/discovery/src/core/registry.rs: the registry of relays. Instants are numbers, and what
-- `Instant::now()` returns is an argument. The map from node ids is a list of entries.
pub mod Nodes
pub mod Lookup
pub mod Keys
pub mod Stale
pub mod Paths
pub mod Selection
pub mod Clashes
pub mod Middles
pub mod PathRules
pub mod Stats
pub mod Events
pub mod Dashboard
pub mod Service
pub mod Api
pub mod Tests
use mini_tor.Prelude.{ℕ, List, Option, Bool}
use mini_tor.Types.{NodeDescriptor, NodeMetrics}

pub record NodeEntry : Type 0 where
  pub descriptor : NodeDescriptor
  pub registered_at : ℕ
  pub last_heartbeat : ℕ
  pub metrics : Option NodeMetrics

pub record NodeRegistry : Type 0 where
  pub nodes : List (List ℕ × NodeEntry)
  pub allow_same_ip : Bool

pub data Insufficient : Type 0 where
  hop_count_too_small : ℕ → Insufficient
  no_entry_nodes no_middle_nodes no_exit_nodes empty_node_list : Insufficient
  need_unique_middles : ℕ → ℕ → Insufficient
  same_ip same_operator : Insufficient
  not_enough_middles : ℕ → ℕ → Insufficient
  -- `Vec::remove` panics
  index_out_of_range : Insufficient

pub data RegistryError : Type 0 where
  node_not_found : List ℕ → RegistryError
  insufficient_nodes : Insufficient → RegistryError
