-- ===== src/Discovery/Keys.antt =====
-- The registry's map: one entry for an id, and one for an address.
use mini_tor.Prelude.{
  ℕ, ◌≡◌, refl, sym, List, [], ◌∷◌, Bool, true, false, none, bytes_eq, bytes_eq_iff, subst, arith,
  Bool-cases, inl, inr, Option-cases,
}
use mini_tor.Types.{NodeDescriptor, SocketAddr, addr_eq, addr_eq_iff}
use mini_tor.Discovery.{NodeEntry, NodeRegistry}
use mini_tor.Discovery.Nodes.{
  retain, find_node, update_node, refreshed, keeps_address, register_node,
}

-- No entry of the list has this id, or this address.
abbrev pub NoId : List ℕ → List (List ℕ × NodeEntry) → Type 0
NoId id [] = Unit
NoId id ((k, e) ∷ es) = (bytes_eq k id ≡ false) × NoId id es

abbrev pub NoAddress : SocketAddr → List (List ℕ × NodeEntry) → Type 0
NoAddress a [] = Unit
NoAddress a ((k, e) ∷ es) = (addr_eq e.descriptor.address a ≡ false) × NoAddress a es

-- Every id and every address stands once, and an entry stands under its node's own id.
abbrev pub Distinct : List (List ℕ × NodeEntry) → Type 0
Distinct [] = Unit
Distinct ((k, e) ∷ es) =
    (e.descriptor.node_id ≡ k) × NoId k es × NoAddress e.descriptor.address es × Distinct es

module _ (keep : List ℕ × NodeEntry → Bool) where
  retain-NoId :
      (id : List ℕ) (es : List (List ℕ × NodeEntry)) → NoId id es → NoId id (retain keep es)
  unfolding retain
  retain-NoId id [] no_id = tt
  retain-NoId id ((k, e) ∷ es) no_id = elim (Bool-cases (keep (k, e))) [
    | inl stays ↦ rw stays (no_id.0, retain-NoId id es no_id.1)
    | inr goes ↦ rw goes (retain-NoId id es no_id.1)
  ]

  retain-NoAddress :
      (a : SocketAddr) (es : List (List ℕ × NodeEntry))
      → NoAddress a es
      → NoAddress a (retain keep es)
  unfolding retain
  retain-NoAddress a [] free = tt
  retain-NoAddress a ((k, e) ∷ es) free = elim (Bool-cases (keep (k, e))) [
    | inl stays ↦ rw stays (free.0, retain-NoAddress a es free.1)
    | inr goes ↦ rw goes (retain-NoAddress a es free.1)
  ]

  pub retain-Distinct : (es : List (List ℕ × NodeEntry)) → Distinct es → Distinct (retain keep es)
  unfolding retain
  retain-Distinct [] d = tt
  retain-Distinct ((k, e) ∷ es) (own, no_id, free, d) = elim (Bool-cases (keep (k, e))) [
    | inl stays ↦ rw stays (
      own,
      retain-NoId k es no_id,
      retain-NoAddress e.descriptor.address es free,
      retain-Distinct es d,
    )
    | inr goes ↦ rw goes (retain-Distinct es d)
  ]

-- An address that is compared the other way round.
addr_eq_sym : (a b : SocketAddr) → addr_eq a b ≡ false → addr_eq b a ≡ false
addr_eq_sym a b h = ground (arith, addr_eq_iff a b, addr_eq_iff b a)

module _ (now : ℕ) (d : NodeDescriptor) where
  abbrev AllKeep : List (List ℕ × NodeEntry) → Type 0
  AllKeep [] = Unit
  AllKeep (x ∷ es) = (keeps_address d x ≡ true) × AllKeep es

  retain-AllKeep : (es : List (List ℕ × NodeEntry)) → AllKeep (retain (keeps_address d) es)
  unfolding retain
  retain-AllKeep [] = tt
  retain-AllKeep (x ∷ es) = elim (Bool-cases (keeps_address d x)) [
    | inl stays ↦ rw stays (stays, retain-AllKeep es)
    | inr goes ↦ rw goes (retain-AllKeep es)
  ]

  -- Of the nodes that stay, only the one with the new node's id can have its address.
  free_address :
      (es : List (List ℕ × NodeEntry)) → AllKeep es → NoId d.node_id es → NoAddress d.address es
  unfolding keeps_address
  free_address [] kept no_id = tt
  free_address ((k, e) ∷ es) kept no_id =
      (ground (arith, kept.0, no_id.0), free_address es kept.1 no_id.1)

  find_node-none :
      (es : List (List ℕ × NodeEntry)) → find_node d.node_id es ≡ none → NoId d.node_id es
  unfolding find_node
  find_node-none [] absent = tt
  find_node-none ((k, e) ∷ es) absent =
      (ground (arith, absent), find_node-none es (ground (arith, absent)))

  update_node-NoId :
      (id : List ℕ) (es : List (List ℕ × NodeEntry))
      → NoId id es
      → NoId id (update_node d.node_id (refreshed now d) es)
  unfolding update_node
  update_node-NoId id [] no_id = tt
  update_node-NoId id ((k, e) ∷ es) no_id = elim (Bool-cases (bytes_eq k d.node_id)) [
    | inl here ↦ rw here no_id
    | inr later ↦ rw later (no_id.0, update_node-NoId id es no_id.1)
  ]

  update_node-NoAddress :
      (a : SocketAddr) (es : List (List ℕ × NodeEntry))
      → addr_eq d.address a ≡ false
      → NoAddress a es
      → NoAddress a (update_node d.node_id (refreshed now d) es)
  unfolding update_node
  update_node-NoAddress a [] other free = tt
  update_node-NoAddress a ((k, e) ∷ es) other free = elim (Bool-cases (bytes_eq k d.node_id)) [
    | inl here ↦ rw here (other, free.1)
    | inr later ↦ rw later (free.0, update_node-NoAddress a es other free.1)
  ]

  update_node-Distinct :
      (es : List (List ℕ × NodeEntry))
      → AllKeep es
      → Distinct es
      → Distinct (update_node d.node_id (refreshed now d) es)
  unfolding update_node keeps_address
  update_node-Distinct [] kept distinct = tt
  update_node-Distinct ((k, e) ∷ es) kept (own, no_id, free, distinct) =
      elim (Bool-cases (bytes_eq k d.node_id)) [
        | inl here ↦
            let same : k ≡ d.node_id = (bytes_eq_iff k d.node_id).0 here in
            let others : NoId d.node_id es = subst (λ (i : List ℕ). NoId i es) same no_id in
            rw here (sym same, no_id, free_address es kept.1 others, distinct)
        | inr later ↦
            let apart : addr_eq e.descriptor.address d.address ≡ false =
              ground (arith, kept.0, later) in
            rw later (
              own,
              update_node-NoId k es no_id,
              update_node-NoAddress e.descriptor.address es
                  (addr_eq_sym e.descriptor.address d.address apart) free,
              update_node-Distinct es kept.1 distinct,
            )
      ]

  -- Registering any node keeps a registry that is free of doubles free of doubles: every id and every
  -- address stands once, and each node stands under its own id.
  pub register_node-Distinct :
      (r : NodeRegistry) → Distinct r.nodes → Distinct (register_node now r d).nodes
  unfolding register_node
  register_node-Distinct r distinct =
      let kept = retain (keeps_address d) r.nodes in
      let still = retain-Distinct (keeps_address d) r.nodes distinct in
      elim (Option-cases (find_node d.node_id kept)) [
        | inl absent ↦
            let no_id = find_node-none kept absent in
            rw absent (refl, no_id, free_address kept (retain-AllKeep r.nodes) no_id, still)
        | inr (e, present) ↦ rw present (update_node-Distinct kept (retain-AllKeep r.nodes) still)
      ]
