-- ===== src/Discovery/Paths.antt =====
-- services/discovery/src/core/registry.rs: the choice of a path. `draw k n` is the number below n that the
-- random generator returns for the k-th choice: the exit's, the entry's, and then the middles'. The
-- sum of u64 bandwidths wraps around, as in a release build. `is_loopback` is std's.
use mini_tor.Prelude.{
  ℕ, zero, suc, ◌+◌, ◌-◌, ◌%◌, ◌^◌, List, [], ◌∷◌, ◌++◌, length, get_elem?, Bool, true, false, not,
  ◌&&◌, ◌||◌, ◌==◌, Option, none, some, Result, ok, err, ok_or, guard, ◌>>=◌, ◌>>◌, ltb,
  if◌then◌else◌, bytes_eq,
}
use mini_tor.Types.{NodeDescriptor, IpAddr, entry, middle, exit}
use mini_tor.Types.Policy.{contains_ip}
use mini_tor.Discovery.{
  NodeRegistry, Insufficient, hop_count_too_small, no_entry_nodes, no_middle_nodes, no_exit_nodes,
  empty_node_list, need_unique_middles, same_ip, same_operator, not_enough_middles,
  index_out_of_range,
}
use mini_tor.Discovery.Nodes.{retain, get_nodes_by_type, is_empty}

unfoldable pub total_bandwidth : List NodeDescriptor → ℕ
total_bandwidth [] = 0
total_bandwidth (n ∷ ns) = (n.bandwidth + total_bandwidth ns) % 2 ^ 64

-- The loop over the nodes: the position where the weight falls.
unfoldable pub weighted_position : ℕ → List NodeDescriptor → Option ℕ
weighted_position weight [] = none
weighted_position weight (n ∷ ns) =
    let rest = weighted_position (weight - n.bandwidth) ns in
    if ltb weight n.bandwidth then some 0 else (elim rest [ none ↦ none | some i ↦ some (suc i) ])

abbrev pub or_last : Option ℕ → ℕ → ℕ
or_last none len = len - 1
or_last (some i) len = i

unfoldable pub select_weighted_index : (ℕ → ℕ) → List NodeDescriptor → Result Insufficient ℕ
unfolding total_bandwidth weighted_position
select_weighted_index draw nodes =
    if is_empty nodes
    then err empty_node_list
    else let total = total_bandwidth nodes in
      if total == 0
      then ok (draw (length nodes))
      else ok (or_last (weighted_position (draw total) nodes) (length nodes))

unfoldable pub select_weighted_node :
    (ℕ → ℕ) → List NodeDescriptor → Result Insufficient NodeDescriptor
unfolding select_weighted_index
select_weighted_node draw nodes = do
  idx ← select_weighted_index draw nodes
  ok_or (get_elem? nodes idx) empty_node_list

-- `Vec::remove`, which panics out of range.
unfoldable pub take_out : ℕ → List NodeDescriptor → Option (NodeDescriptor × List NodeDescriptor)
take_out i [] = none
take_out zero (n ∷ ns) = some (n, ns)
take_out (suc i) (n ∷ ns) = elim (take_out i ns) [
  | none ↦ none
  | some (m, rest) ↦ some (m, n ∷ rest)
]

unfoldable pub contains_op : List (List ℕ) → List ℕ → Bool
contains_op [] op = false
contains_op (x ∷ xs) op = bytes_eq x op || contains_op xs op

pub record Excluded : Type 0 where
  pub ips : List IpAddr
  pub ops : List (List ℕ)

module _ (is_loopback : IpAddr → Bool) (allow_same_ip : Bool) where
  abbrev pub ip_ok : List IpAddr → NodeDescriptor → Bool
  ip_ok ips n = allow_same_ip || (is_loopback n.address.ip || not (contains_ip ips n.address.ip))

  abbrev pub op_ok : List (List ℕ) → Option (List ℕ) → Bool
  op_ok ops none = true
  op_ok ops (some op) = not (contains_op ops op)

  abbrev pub add_ip : List IpAddr → NodeDescriptor → List IpAddr
  add_ip ips n =
      if not allow_same_ip && not (is_loopback n.address.ip) then n.address.ip ∷ ips else ips

  abbrev pub add_op : List (List ℕ) → Option (List ℕ) → List (List ℕ)
  add_op ops none = ops
  add_op ops (some op) = op ∷ ops

  -- The sets after a node is committed to the circuit.
  unfoldable pub commit : Excluded → NodeDescriptor → Excluded
  commit ex n = record { ips = add_ip ex.ips n; ops = add_op ex.ops n.operator_id }

  unfoldable pub eligible : Excluded → NodeDescriptor → Bool
  eligible ex n = ip_ok ex.ips n && op_ok ex.ops n.operator_id

  -- `remaining` middles are still to be picked, and `k` is the number of the choice.
  unfoldable pub pick_middles :
      (ℕ → ℕ → ℕ)
      → ℕ
      → ℕ
      → List NodeDescriptor
      → Excluded
      → Result Insufficient (List NodeDescriptor)
  unfolding commit eligible
  pick_middles draw k zero available ex = ok []
  pick_middles draw k (suc left) available ex = do
    let available' = retain (eligible ex) available
    guard (not (ltb (length available') (suc left)))
        (not_enough_middles (suc left) (length available'))
    idx ← select_weighted_index (draw k) available'
    (node, rest) ← ok_or (take_out idx available') index_out_of_range
    more ← pick_middles draw (suc k) left rest (commit ex node)
    ok (node ∷ more)

  -- Exit first, then the entry, then the middles.
  unfoldable pub choose_path :
      (ℕ → ℕ → ℕ)
      → ℕ
      → List NodeDescriptor
      → List NodeDescriptor
      → List NodeDescriptor
      → Result Insufficient (List NodeDescriptor)
  unfolding pick_middles select_weighted_node
  choose_path draw middle_count entry_nodes middle_nodes exit_nodes = do
    exit_node ← select_weighted_node (draw 0) exit_nodes
    let ex = commit (record { ips = []; ops = [] }) exit_node
    entry_node ← select_weighted_node (draw 1) entry_nodes
    guard (ip_ok ex.ips entry_node) same_ip
    guard (op_ok ex.ops entry_node.operator_id) same_operator
    middles ← pick_middles draw 2 middle_count middle_nodes (commit ex entry_node)
    ok (entry_node ∷ (middles ++ exit_node ∷ []))

unfoldable pub get_random_path :
    (IpAddr → Bool) → (ℕ → ℕ → ℕ) → NodeRegistry → ℕ → Result Insufficient (List NodeDescriptor)
unfolding choose_path
get_random_path is_loopback draw r count = do
  guard (not (ltb count 3)) (hop_count_too_small count)
  let entry_nodes = get_nodes_by_type r entry
  let middle_nodes = get_nodes_by_type r middle
  let exit_nodes = get_nodes_by_type r exit
  guard (not (is_empty entry_nodes)) no_entry_nodes
  let middle_count = count - 2
  guard (not (is_empty middle_nodes)) no_middle_nodes
  guard (not (ltb (length middle_nodes) middle_count))
      (need_unique_middles middle_count (length middle_nodes))
  guard (not (is_empty exit_nodes)) no_exit_nodes
  choose_path is_loopback r.allow_same_ip draw middle_count entry_nodes middle_nodes exit_nodes
