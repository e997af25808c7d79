-- ===== src/Relay/Heartbeat/Listed.antt =====
-- A relay in the registry, and what requests and clean-ups do to it (discovery/src/api/grpc.rs).
use mini_tor.Prelude.{
  ℕ, ◌+◌, ◌≡◌, ◌≤◌, refl, ◌∙◌, List, true, false, Bool-cases, inl, inr, Option, none, some, not,
  Result, ok, err, bytes_eq, arith, Option-cases, ◌==◌,
}
use mini_tor.Types.{NodeDescriptor, NodeMetrics, addr_eq}
use mini_tor.Proto.{ProtoNodeMetrics, Invalid, proto_metrics, metrics_of}
use mini_tor.Discovery.{NodeEntry, NodeRegistry}
use mini_tor.Discovery.Nodes
use mini_tor.Discovery.Nodes.{
  retain, find_node, update_node, put_node, refreshed, keeps_address, is_empty, is_fresh,
  cleanup_stale_nodes,
}
use mini_tor.Discovery.Lookup.{find_node-retain, find_node-update_node, find_node-update_other}
use mini_tor.Discovery.Api
use mini_tor.Discovery.Api.{accept, if_converted, cleanup_round}
use mini_tor.Relay.Heartbeat.{heartbeat_request, heartbeat_round}

-- The relay's entry: its descriptor, and the instant of its last heartbeat.
pub record IsListed (d : NodeDescriptor) (last : ℕ) (r : NodeRegistry) : Type 0 where
  pub node : NodeEntry
  pub found : find_node d.node_id r.nodes ≡ some node
  pub described : node.descriptor ≡ d
  pub fresh : node.last_heartbeat ≡ last

-- Another node: neither the id nor the address of this one.
pub record IsOther (d other : NodeDescriptor) : Type 0 where
  pub own_id : bytes_eq other.node_id d.node_id ≡ false
  pub own_address : addr_eq d.address other.address ≡ false

abbrev pub IsOtherIfRead : NodeDescriptor → Result Invalid NodeDescriptor → Type 0
IsOtherIfRead d (ok other) = IsOther d other
IsOtherIfRead d (err e) = Unit

pub heartbeat-IsListed :
    (d : NodeDescriptor) (last now : ℕ) (metrics : NodeMetrics) (r : NodeRegistry)
    → IsListed d last r
    → IsListed d now (heartbeat_round now d.node_id metrics r)
unfolding heartbeat_round heartbeat_request Api.update_heartbeat Nodes.update_heartbeat_with_metrics
heartbeat-IsListed d last now metrics r is =
    let m = metrics_of (proto_metrics metrics) in
    let f : NodeEntry → NodeEntry = λ e. record e { last_heartbeat = now; metrics = some m } in
    rw (heartbeat_round, is.found)
      record {
        node = f is.node;
        found = find_node-update_node d.node_id f r.nodes is.node is.found;
        described = is.described;
        fresh = refl;
      }

pub other_heartbeat-IsListed :
    (d : NodeDescriptor) (last now : ℕ) (id : List ℕ) (metrics : Option ProtoNodeMetrics)
    (r : NodeRegistry)
    → bytes_eq id d.node_id ≡ false
    → IsListed d last r
    → IsListed d last (Api.update_heartbeat now r id metrics).0
unfolding Api.update_heartbeat Nodes.update_heartbeat_with_metrics
other_heartbeat-IsListed d last now id none r other is = is
other_heartbeat-IsListed d last now id (some metrics) r other is =
    let f : NodeEntry → NodeEntry =
      λ e. record e { last_heartbeat = now; metrics = some (metrics_of metrics) } in
    elim (Option-cases (find_node id r.nodes)) [
      | inl absent ↦ rw absent is
      | inr (e, present) ↦ rw present record {
        node = is.node;
        found = find_node-update_other d.node_id id f r.nodes other ∙ is.found;
        described = is.described;
        fresh = is.fresh;
      }
    ]

pub removal-IsListed :
    (d : NodeDescriptor) (last : ℕ) (id : List ℕ) (r : NodeRegistry)
    → bytes_eq d.node_id id ≡ false
    → IsListed d last r
    → IsListed d last (Api.remove_node r id).0
unfolding Api.remove_node Nodes.remove_node
removal-IsListed d last id r other is = elim (Option-cases (find_node id r.nodes)) [
  | inl absent ↦ rw absent is
  | inr (e, present) ↦ rw present record {
    node = is.node;
    found =
        find_node-retain d.node_id (λ x. not (bytes_eq x.0 id)) r.nodes is.node is.found
          (rw other refl);
    described = is.described;
    fresh = is.fresh;
  }
]

pub cleanup-IsListed :
    (d : NodeDescriptor) (last timeout now : ℕ) (r : NodeRegistry)
    → now ≤ last + timeout
    → IsListed d last r
    → IsListed d last (cleanup_round timeout now r)
unfolding cleanup_round cleanup_stale_nodes
cleanup-IsListed d last timeout now r in_time is = record {
  node = is.node;
  found =
      find_node-retain d.node_id (is_fresh now timeout) r.nodes is.node is.found
        (rw is.fresh (ground (arith, in_time)));
  described = is.described;
  fresh = is.fresh;
}

pub registration-IsListed :
    (d other : NodeDescriptor) (last now : ℕ) (r : NodeRegistry)
    → IsOther d other
    → IsListed d last r
    → IsListed d last (Nodes.register_node now r other)
unfolding Nodes.register_node keeps_address find_node
registration-IsListed d other last now r apart is =
    let kept = retain (keeps_address other) r.nodes in
    let stays : keeps_address other (d.node_id, is.node) ≡ true =
      rw (is.described, apart.own_address) (ground arith) in
    let found = find_node-retain d.node_id (keeps_address other) r.nodes is.node is.found stays in
    elim (Option-cases (find_node other.node_id kept)) [
      | inl absent ↦ rw absent record {
        node = is.node;
        found = rw apart.own_id found;
        described = is.described;
        fresh = is.fresh;
      }
      | inr (e, present) ↦ rw present record {
        node = is.node;
        found =
            find_node-update_other d.node_id other.node_id (refreshed now other) kept apart.own_id
            ∙ found;
        described = is.described;
        fresh = is.fresh;
      }
    ]

pub accept-IsListed :
    (d other : NodeDescriptor) (last now : ℕ) (r : NodeRegistry)
    → IsOther d other
    → IsListed d last r
    → IsListed d last (accept now r other).0
unfolding accept
accept-IsListed d other last now r apart is = elim (Bool-cases (is_empty other.node_id)) [
  | inl nameless ↦ rw nameless is
  | inr named ↦ elim (Bool-cases (other.bandwidth == 0)) [
    | inl idle ↦ rw (named, idle) is
    | inr wide ↦ rw (named, wide) (registration-IsListed d other last now r apart is)
  ]
]
