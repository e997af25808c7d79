-- ===== src/Discovery/Nodes.antt =====
-- services/discovery/src/core/registry.rs: the operations on the registered nodes.
use mini_tor.Prelude.{
  ℕ, ◌-◌, List, [], ◌∷◌, length, Bool, true, false, not, ◌&&◌, ◌||◌, Option, none, some, Result, ok,
  err, ltb, if◌then◌else◌, bytes_eq, map,
}
use mini_tor.Types.{
  NodeType, NodeDescriptor, NodeMetrics, entry, middle, exit, node_type_eq, addr_eq,
}
use mini_tor.Discovery.{NodeEntry, NodeRegistry, RegistryError, node_not_found}

-- `HashMap::retain`
unfoldable pub retain {ℓ} : {A : Type ℓ} → (A → Bool) → List A → List A
retain keep [] = []
retain keep (x ∷ xs) = let rest = retain keep xs in if keep x then x ∷ rest else rest

unfoldable pub find_node : List ℕ → List (List ℕ × NodeEntry) → Option NodeEntry
find_node id [] = none
find_node id ((k, e) ∷ es) = if bytes_eq k id then some e else find_node id es

-- `get_mut`: change the entry of a key in place.
unfoldable pub update_node :
    List ℕ → (NodeEntry → NodeEntry) → List (List ℕ × NodeEntry) → List (List ℕ × NodeEntry)
update_node id f [] = []
update_node id f ((k, e) ∷ es) =
    let rest = update_node id f es in if bytes_eq k id then (k, f e) ∷ es else (k, e) ∷ rest

unfoldable pub keeps_address : NodeDescriptor → List ℕ × NodeEntry → Bool
keeps_address d (id, e) = bytes_eq id d.node_id || not (addr_eq e.descriptor.address d.address)

abbrev pub refreshed : ℕ → NodeDescriptor → NodeEntry → NodeEntry
refreshed now d e = record e { descriptor = d; last_heartbeat = now }

abbrev pub put_node :
    ℕ → NodeDescriptor → Option NodeEntry → List (List ℕ × NodeEntry) → List (List ℕ × NodeEntry)
put_node now d none kept =
    (
      d.node_id,
      record { descriptor = d; registered_at = now; last_heartbeat = now; metrics = none },
    )
    ∷ kept
put_node now d (some _) kept = update_node d.node_id (refreshed now d) kept

-- Another node at the same address is dropped; a known id is updated, a new one inserted.
unfoldable pub register_node : ℕ → NodeRegistry → NodeDescriptor → NodeRegistry
unfolding keeps_address
register_node now r d =
    let kept = retain (keeps_address d) r.nodes in
    record r { nodes = put_node now d (find_node d.node_id kept) kept }

unfoldable pub get_all_nodes : NodeRegistry → List NodeDescriptor
get_all_nodes r = map (λ (e : List ℕ × NodeEntry). e.1.descriptor) r.nodes

abbrev pub has_type : NodeType → List ℕ × NodeEntry → Bool
has_type t e = node_type_eq e.1.descriptor.node_type t

unfoldable pub get_nodes_by_type : NodeRegistry → NodeType → List NodeDescriptor
get_nodes_by_type r node_type =
    map (λ (e : List ℕ × NodeEntry). e.1.descriptor) (retain (has_type node_type) r.nodes)

abbrev with_found :
    Option NodeEntry
    → NodeRegistry
    → List ℕ
    → List (List ℕ × NodeEntry)
    → NodeRegistry × Result RegistryError (Unit {0})
with_found none r id changed = (r, err (node_not_found id))
with_found (some _) r id changed = (record r { nodes = changed }, ok tt)

unfoldable pub update_heartbeat :
    ℕ → NodeRegistry → List ℕ → NodeRegistry × Result RegistryError (Unit {0})
update_heartbeat now r id =
    with_found (find_node id r.nodes) r id
      (update_node id (λ e. record e { last_heartbeat = now }) r.nodes)

unfoldable pub update_heartbeat_with_metrics :
    ℕ → NodeRegistry → List ℕ → NodeMetrics → NodeRegistry × Result RegistryError (Unit {0})
update_heartbeat_with_metrics now r id metrics =
    with_found (find_node id r.nodes) r id
      (update_node id (λ e. record e { last_heartbeat = now; metrics = some metrics }) r.nodes)

unfoldable pub remove_node : NodeRegistry → List ℕ → NodeRegistry × Result RegistryError (Unit {0})
remove_node r id =
    with_found (find_node id r.nodes) r id (retain (λ e. not (bytes_eq e.0 id)) r.nodes)

-- `now.duration_since(last) > timeout`: the duration is 0 for a later instant.
abbrev pub is_fresh : ℕ → ℕ → List ℕ × NodeEntry → Bool
is_fresh now timeout e = not (ltb timeout (now - e.1.last_heartbeat))

unfoldable pub cleanup_stale_nodes : ℕ → NodeRegistry → ℕ → NodeRegistry × ℕ
cleanup_stale_nodes now r timeout =
    let kept = retain (is_fresh now timeout) r.nodes in
    (record r { nodes = kept }, length r.nodes - length kept)

abbrev pub is_empty {ℓ} : {A : Type ℓ} → List A → Bool
is_empty [] = true
is_empty (x ∷ xs) = false

unfoldable pub is_ready : NodeRegistry → Bool
unfolding get_nodes_by_type
is_ready r =
    not (is_empty (get_nodes_by_type r entry))
    && not (is_empty (get_nodes_by_type r middle))
    && not (is_empty (get_nodes_by_type r exit))
