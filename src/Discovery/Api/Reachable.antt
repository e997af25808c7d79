-- ===== src/Discovery/Api/Reachable.antt =====
-- The registry of discovery/src/core/registry.rs under the requests of discovery/src/api/grpc.rs.
use mini_tor.Prelude.{
  ℕ, ◌≡◌, refl, List, [], length, Bool, Bool-cases, Option, none, some, Option-cases, Result-cases,
  inl, inr, ok, err, OnOk, OnOk-of, bytes_eq, arith, ◌==◌, ==_iff, not,
}
use mini_tor.Types.{NodeDescriptor}
use mini_tor.Net.{Net}
use mini_tor.Proto
use mini_tor.Proto.{
  ProtoPublicKey, Invalid, key_length, ProtoNodeDescriptor, ProtoNodeMetrics, descriptor_of,
  public_key_of, metrics_of, from_enum_number, node_type_of, exit_policy_of,
}
use mini_tor.Discovery.{NodeEntry, NodeRegistry}
use mini_tor.Discovery.Nodes
use mini_tor.Discovery.Nodes.{
  retain, find_node, update_node, put_node, refreshed, keeps_address, is_empty, is_fresh,
  cleanup_stale_nodes,
}
use mini_tor.Discovery.Keys.{Distinct, retain-Distinct, register_node-Distinct}
use mini_tor.Discovery.Api.{
  accept, if_converted, register_node, remove_node, update_heartbeat, cleanup_round,
}
use mini_tor.Discovery.Api.Accepted.{
  IsAccepted, AllAccepted, retain-AllAccepted, update_node-AllAccepted, register_node-AllAccepted,
  update_node-Distinct,
}

-- A registry that requests have made: no doubles, and only descriptors that the API lets in.
pub record IsSound (r : NodeRegistry) : Type 0 where
  pub distinct : Distinct r.nodes
  pub accepted : AllAccepted r.nodes

public_key_of-length :
    (pk : ProtoPublicKey) (key : List ℕ) → public_key_of pk ≡ ok key → length key ≡ 32
unfolding public_key_of
public_key_of-length pk key e = elim (Bool-cases (length pk.bytes == 32)) [
  | inl right ↦
      let read : public_key_of pk ≡ ok pk.bytes = rw (public_key_of, right) refl in
      let same : pk.bytes ≡ key = cc in
      let n : length pk.bytes ≡ 32 = (==_iff (length pk.bytes) 32).0 right in rw (← same) n
  | inr wrong ↦
      let refused : public_key_of pk ≡ err key_length = rw (public_key_of, wrong) refl in cc
]

abbrev HasKey : NodeDescriptor → Type 0
HasKey n = length n.public_key ≡ 32

module _ ⦃net : Net⦄ where
  -- A descriptor that was converted has a key of 32 bytes.
  descriptor_of-HasKey : (d : ProtoNodeDescriptor) → OnOk HasKey (descriptor_of d)
  unfolding descriptor_of
  descriptor_of-HasKey d = elim (Result-cases (from_enum_number d.node_type)) [
    | inr (x, e1) ↦ rw e1 tt
    | inl (t, e1) ↦ elim (Result-cases (node_type_of t)) [
      | inr (x, e2) ↦ rw (e1, e2) tt
      | inl (kind, e2) ↦ elim (Option-cases (net.parse_addr d.address)) [
        | inl e3 ↦ rw (e1, e2, e3) tt
        | inr (address, e3) ↦ elim (Option-cases d.public_key) [
          | inl e4 ↦ rw (e1, e2, e3, e4) tt
          | inr (pk, e4) ↦ elim (Result-cases (public_key_of pk)) [
            | inr (x, e5) ↦ rw (e1, e2, e3, e4, e5) tt
            | inl (key, e5) ↦ elim (Result-cases (Proto.optionally exit_policy_of d.exit_policy)) [
              | inr (x, e6) ↦ rw (e1, e2, e3, e4, e5, e6) tt
              | inl (policy, e6) ↦ rw (e1, e2, e3, e4, e5, e6) (public_key_of-length pk key e5)
            ]
          ]
        ]
      ]
    ]
  ]

  accept-IsSound :
      (now : ℕ) (r : NodeRegistry) (d : NodeDescriptor)
      → HasKey d
      → IsSound r
      → IsSound (accept now r d).0
  unfolding accept
  accept-IsSound now r d key sound = elim (Bool-cases (is_empty d.node_id)) [
    | inl nameless ↦ rw nameless sound
    | inr named ↦ elim (Bool-cases (d.bandwidth == 0)) [
      | inl idle ↦ rw (named, idle) sound
      | inr wide ↦
          let good : IsAccepted d = record {
            named = named;
            weighted = ground (arith, wide);
            keyed = key;
          } in
          rw (named, wide)
            record {
              distinct = register_node-Distinct now d r sound.distinct;
              accepted = register_node-AllAccepted now r d good sound.accepted;
            }
    ]
  ]

  register_node-IsSound :
      (now : ℕ) (r : NodeRegistry) (d : ProtoNodeDescriptor)
      → IsSound r
      → IsSound (register_node now r d).0
  unfolding register_node if_converted
  register_node-IsSound now r d sound = elim (Result-cases (descriptor_of d)) [
    | inr (e, refused) ↦ rw refused sound
    | inl (n, converted) ↦
        let key : HasKey n =
          OnOk-of HasKey (descriptor_of d) n (descriptor_of-HasKey d) converted in
        rw converted (accept-IsSound now r n key sound)
  ]

  remove_node-IsSound : (r : NodeRegistry) (id : List ℕ) → IsSound r → IsSound (remove_node r id).0
  unfolding remove_node Nodes.remove_node
  remove_node-IsSound r id sound = elim (Option-cases (find_node id r.nodes)) [
    | inl absent ↦ rw absent sound
    | inr (e, present) ↦ rw present record {
      distinct = retain-Distinct (λ e. not (bytes_eq e.0 id)) r.nodes sound.distinct;
      accepted = retain-AllAccepted (λ e. not (bytes_eq e.0 id)) r.nodes sound.accepted;
    }
  ]

  heartbeat-IsSound :
      (now : ℕ) (r : NodeRegistry) (id : List ℕ) (metrics : Option ProtoNodeMetrics)
      → IsSound r
      → IsSound (update_heartbeat now r id metrics).0
  unfolding update_heartbeat Nodes.update_heartbeat_with_metrics
  heartbeat-IsSound now r id none sound = sound
  heartbeat-IsSound now r id (some m) sound =
      let f : NodeEntry → NodeEntry =
        λ e. record e { last_heartbeat = now; metrics = some (metrics_of m) } in
      elim (Option-cases (find_node id r.nodes)) [
        | inl absent ↦ rw absent sound
        | inr (e, present) ↦ rw present record {
          distinct = update_node-Distinct f (λ x. refl) id r.nodes sound.distinct;
          accepted = update_node-AllAccepted id f r.nodes (λ x a. a) sound.accepted;
        }
      ]

  cleanup_round-IsSound :
      (timeout now : ℕ) (r : NodeRegistry) → IsSound r → IsSound (cleanup_round timeout now r)
  unfolding cleanup_round cleanup_stale_nodes
  cleanup_round-IsSound timeout now r sound = record {
    distinct = retain-Distinct (is_fresh now timeout) r.nodes sound.distinct;
    accepted = retain-AllAccepted (is_fresh now timeout) r.nodes sound.accepted;
  }

  -- What changes the registry.
  pub data Change : Type 0 where
    registration : ℕ → ProtoNodeDescriptor → Change
    removal : List ℕ → Change
    heartbeat : ℕ → List ℕ → Option ProtoNodeMetrics → Change
    cleanup : ℕ → ℕ → Change

  unfoldable pub change : NodeRegistry → Change → NodeRegistry
  change r (registration now d) = (register_node now r d).0
  change r (removal id) = (remove_node r id).0
  change r (heartbeat now id metrics) = (update_heartbeat now r id metrics).0
  change r (cleanup timeout now) = cleanup_round timeout now r

  change-IsSound : (r : NodeRegistry) (c : Change) → IsSound r → IsSound (change r c)
  unfolding change
  change-IsSound r (registration now d) sound = register_node-IsSound now r d sound
  change-IsSound r (removal id) sound = remove_node-IsSound r id sound
  change-IsSound r (heartbeat now id metrics) sound = heartbeat-IsSound now r id metrics sound
  change-IsSound r (cleanup timeout now) sound = cleanup_round-IsSound timeout now r sound

  -- The registries that requests and cleanups can make of an empty one, in any order.
  pub data Reachable (allow_same_ip : Bool) : NodeRegistry → Type 0 where
    empty : Reachable allow_same_ip (record { nodes = []; allow_same_ip = allow_same_ip })
    then_change :
        {r : NodeRegistry} (c : Change)
        → Reachable allow_same_ip r
        → Reachable allow_same_ip (change r c)

  -- Every registry that the API's requests and the cleanup task can reach from an empty one is free of
  -- doubles, and holds only nodes with an id that is not empty, a bandwidth that is not 0 and a key of
  -- 32 bytes.
  pub Reachable-IsSound :
      {allow_same_ip : Bool} {r : NodeRegistry} → Reachable allow_same_ip r → IsSound r
  Reachable-IsSound empty = record { distinct = tt; accepted = tt }
  Reachable-IsSound (then_change {r} c reach) = change-IsSound r c (Reachable-IsSound reach)
