-- ===== src/Discovery/Tests.antt =====
-- A registry of four nodes.
use mini_tor.Prelude.{
  ℕ, ◌+◌, length, ◌≡◌, refl, List, [], ◌∷◌, Bool, false, none, ok, bytes_eq, replicate,
}
use mini_tor.Types.{
  NodeType, NodeDescriptor, IpAddr, v4, entry, middle, exit, node_type_eq, addr_eq, ip_eq,
}
use mini_tor.Types.Policy.{contains_ip}
use mini_tor.Discovery.{NodeEntry, NodeRegistry}
use mini_tor.Discovery.Nodes.{retain, get_nodes_by_type}
use mini_tor.Discovery.Nodes.{find_node, cleanup_stale_nodes}
use mini_tor.Discovery.Stale.{after_cleanup, cleanup_stale_nodes-exact}
use mini_tor.Discovery.Keys.{Distinct}
use mini_tor.Discovery.Paths.{
  total_bandwidth, weighted_position, select_weighted_index, select_weighted_node, take_out,
  contains_op, commit, eligible, pick_middles, choose_path, get_random_path,
}
use mini_tor.Discovery.PathRules.{IsPath, get_random_path-IsPath}

abbrev pub node : ℕ → NodeType → ℕ → NodeDescriptor
node id kind bandwidth = record {
  node_id = id ∷ [];
  node_type = kind;
  address = record { ip = v4 (10 ∷ 0 ∷ 0 ∷ id ∷ []); port = 9000 };
  public_key = replicate 32 id;
  bandwidth = bandwidth;
  exit_policy = none;
  operator_id = none;
  tls_cert_fingerprint = [];
}

abbrev pub placed : NodeDescriptor → List ℕ × NodeEntry
placed n =
    (n.node_id, record { descriptor = n; registered_at = 1; last_heartbeat = 2; metrics = none })

abbrev pub a_registry : NodeRegistry
a_registry = record {
  nodes = placed (node 1 entry 5) ∷ placed (node 2 middle 7) ∷ placed (node 4 exit 0) ∷ [];
  allow_same_ip = false;
}

a_registry-Distinct : Distinct a_registry.nodes
unfolding bytes_eq addr_eq ip_eq
a_registry-Distinct = (
  refl,
  (refl, (refl, tt)),
  (refl, (refl, tt)),
  (refl, (refl, tt), (refl, tt), (refl, tt, tt, tt)),
)

abbrev pub lowest : ℕ → ℕ → ℕ
lowest k n = 0

abbrev pub no_loopback : IpAddr → Bool
no_loopback ip = false

abbrev pub a_path : List NodeDescriptor
a_path = node 1 entry 5 ∷ node 2 middle 7 ∷ node 4 exit 0 ∷ []

pub path_found : get_random_path no_loopback lowest a_registry 3 ≡ ok a_path
unfolding get_random_path get_nodes_by_type retain node_type_eq choose_path select_weighted_node
    select_weighted_index total_bandwidth weighted_position pick_middles commit eligible contains_ip
    contains_op ip_eq bytes_eq take_out
path_found = refl

get_random_path-IsPath_example : IsPath no_loopback false 3 a_path
get_random_path-IsPath_example =
    get_random_path-IsPath no_loopback lowest a_registry 3 a_path path_found

cleanup_stale_nodes-exact_example :
    let done = cleanup_stale_nodes 9 a_registry 5 in
    ((id : List ℕ) → find_node id done.0.nodes ≡ after_cleanup 9 5 (find_node id a_registry.nodes))
    × Distinct done.0.nodes
    × (length done.0.nodes + done.1 ≡ length a_registry.nodes)
cleanup_stale_nodes-exact_example = cleanup_stale_nodes-exact 9 5 a_registry a_registry-Distinct
