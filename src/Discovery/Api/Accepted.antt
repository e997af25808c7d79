-- ===== src/Discovery/Api/Accepted.antt =====
-- The nodes of the registry (discovery/src/core/registry.rs) that the API has let in.
use mini_tor.Prelude.{
  ℕ, ◌≡◌, ◌≤◌, List, [], ◌∷◌, length, Bool, false, Bool-cases, Option-cases, inl, inr, bytes_eq,
}
use mini_tor.Types.{NodeDescriptor, SocketAddr}
use mini_tor.Discovery.{NodeEntry, NodeRegistry}
use mini_tor.Discovery.Nodes
use mini_tor.Discovery.Nodes.{
  retain, find_node, update_node, put_node, refreshed, keeps_address, is_empty, is_fresh,
  cleanup_stale_nodes,
}
use mini_tor.Discovery.Keys.{NoId, NoAddress, Distinct}

-- What the API lets in: an id that is not empty, a bandwidth that is not 0 and a key of 32 bytes.
pub record IsAccepted (d : NodeDescriptor) : Type 0 where
  pub named : is_empty d.node_id ≡ false
  pub weighted : 1 ≤ d.bandwidth
  pub keyed : length d.public_key ≡ 32

abbrev pub AllAccepted : List (List ℕ × NodeEntry) → Type 0
AllAccepted [] = Unit
AllAccepted ((id, e) ∷ es) = IsAccepted e.descriptor × AllAccepted es

pub retain-AllAccepted :
    (keep : List ℕ × NodeEntry → Bool) (es : List (List ℕ × NodeEntry))
    → AllAccepted es
    → AllAccepted (retain keep es)
unfolding retain
retain-AllAccepted keep [] all = tt
retain-AllAccepted keep ((k, e) ∷ es) (first, all) = elim (Bool-cases (keep (k, e))) [
  | inl stays ↦ rw stays (first, retain-AllAccepted keep es all)
  | inr goes ↦ rw goes (retain-AllAccepted keep es all)
]

pub update_node-AllAccepted :
    (id : List ℕ) (f : NodeEntry → NodeEntry) (es : List (List ℕ × NodeEntry))
    → ((e : NodeEntry) → IsAccepted e.descriptor → IsAccepted (f e).descriptor)
    → AllAccepted es
    → AllAccepted (update_node id f es)
unfolding update_node
update_node-AllAccepted id f [] keeps all = tt
update_node-AllAccepted id f ((k, e) ∷ es) keeps (first, all) = elim (Bool-cases (bytes_eq k id)) [
  | inl here ↦ rw here (keeps e first, all)
  | inr later ↦ rw later (first, update_node-AllAccepted id f es keeps all)
]

pub register_node-AllAccepted :
    (now : ℕ) (r : NodeRegistry) (d : NodeDescriptor)
    → IsAccepted d
    → AllAccepted r.nodes
    → AllAccepted (Nodes.register_node now r d).nodes
unfolding Nodes.register_node
register_node-AllAccepted now r d good all =
    let kept = retain (keeps_address d) r.nodes in
    let still = retain-AllAccepted (keeps_address d) r.nodes all in
    elim (Option-cases (find_node d.node_id kept)) [
      | inl absent ↦ rw absent (good, still)
      | inr (e, present) ↦
          rw present (update_node-AllAccepted d.node_id (refreshed now d) kept (λ x a. good) still)
    ]

-- A change of entries that leaves the descriptors alone.
module _ (f : NodeEntry → NodeEntry) (same : (e : NodeEntry) → (f e).descriptor ≡ e.descriptor)
    (id : List ℕ) where
  pub update_node-NoId :
      (j : List ℕ) (es : List (List ℕ × NodeEntry)) → NoId j es → NoId j (update_node id f es)
  unfolding update_node
  update_node-NoId j [] no_id = tt
  update_node-NoId j ((k, e) ∷ es) no_id = elim (Bool-cases (bytes_eq k id)) [
    | inl here ↦ rw here no_id
    | inr later ↦ rw later (no_id.0, update_node-NoId j es no_id.1)
  ]

  pub update_node-NoAddress :
      (a : SocketAddr) (es : List (List ℕ × NodeEntry))
      → NoAddress a es
      → NoAddress a (update_node id f es)
  unfolding update_node
  update_node-NoAddress a [] free = tt
  update_node-NoAddress a ((k, e) ∷ es) free = elim (Bool-cases (bytes_eq k id)) [
    | inl here ↦ rw (here, same e) free
    | inr later ↦ rw later (free.0, update_node-NoAddress a es free.1)
  ]

  pub update_node-Distinct :
      (es : List (List ℕ × NodeEntry)) → Distinct es → Distinct (update_node id f es)
  unfolding update_node
  update_node-Distinct [] distinct = tt
  update_node-Distinct ((k, e) ∷ es) (own, no_id, free, distinct) =
      elim (Bool-cases (bytes_eq k id)) [
        | inl here ↦ rw (here, same e) (own, no_id, free, distinct)
        | inr later ↦ rw later (
          own,
          update_node-NoId k es no_id,
          update_node-NoAddress e.descriptor.address es free,
          update_node-Distinct es distinct,
        )
      ]
