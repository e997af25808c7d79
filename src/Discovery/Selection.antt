-- ===== src/Discovery/Selection.antt =====
-- Choices from a list of nodes in discovery/src/core/registry.rs.
use mini_tor.Prelude.{
  ℕ, zero, suc, ◌-◌, ◌<◌, ◌≡◌, ◌≢◌, refl, sym, ◌∙◌, subst, List, [], ◌∷◌, length, get_elem?, Bool,
  true, ◌==◌, some, ok, ltb, arith, Bool-cases, Option-cases, Result-cases, inl, inr, map, OnOk,
}
use mini_tor.Types.{NodeType, NodeDescriptor, node_type_eq}
use mini_tor.Discovery.{NodeEntry, NodeRegistry}
use mini_tor.Discovery.Nodes.{retain, has_type, get_nodes_by_type}
use mini_tor.Discovery.Paths.{
  total_bandwidth, weighted_position, select_weighted_index, select_weighted_node, take_out,
}

weighted_position-bound :
    (weight : ℕ) (ns : List NodeDescriptor) (i : ℕ)
    → weighted_position weight ns ≡ some i
    → i < length ns
unfolding weighted_position
weighted_position-bound weight [] i e = cc
weighted_position-bound weight (n ∷ ns) i e = elim (Bool-cases (ltb weight n.bandwidth)) [
  | inl here ↦ ground (arith, e, here)
  | inr later ↦ elim (Option-cases (weighted_position (weight - n.bandwidth) ns)) [
    | inl nowhere ↦ ground (arith, e, later, nowhere)
    | inr (j, there) ↦
        let low = weighted_position-bound (weight - n.bandwidth) ns j there in
        ground (arith, e, later, there, low)
  ]
]

-- Every node of the list passes the test.
abbrev pub AllTrue : (NodeDescriptor → Bool) → List NodeDescriptor → Type 0
AllTrue test [] = Unit
AllTrue test (n ∷ ns) = (test n ≡ true) × AllTrue test ns

pub retain-AllTrue :
    (test : NodeDescriptor → Bool) (ns : List NodeDescriptor) → AllTrue test (retain test ns)
unfolding retain
retain-AllTrue test [] = tt
retain-AllTrue test (n ∷ ns) = elim (Bool-cases (test n)) [
  | inl stays ↦ rw stays (stays, retain-AllTrue test ns)
  | inr goes ↦ rw goes (retain-AllTrue test ns)
]

pub AllTrue-retain :
    (test keep : NodeDescriptor → Bool) (ns : List NodeDescriptor)
    → AllTrue test ns
    → AllTrue test (retain keep ns)
unfolding retain
AllTrue-retain test keep [] all = tt
AllTrue-retain test keep (n ∷ ns) all = elim (Bool-cases (keep n)) [
  | inl stays ↦ rw stays (all.0, AllTrue-retain test keep ns all.1)
  | inr goes ↦ rw goes (AllTrue-retain test keep ns all.1)
]

take_out-suc :
    (i : ℕ) (n : NodeDescriptor) (ns : List NodeDescriptor)
    (r : NodeDescriptor × List NodeDescriptor)
    → take_out i ns ≡ some r
    → take_out (suc i) (n ∷ ns) ≡ some (r.0, n ∷ r.1)
unfolding take_out
take_out-suc i n ns r out = rw out refl

pub AllTrue-take_out :
    (test : NodeDescriptor → Bool) (i : ℕ) (ns : List NodeDescriptor) (m : NodeDescriptor)
    (rest : List NodeDescriptor)
    → AllTrue test ns
    → take_out i ns ≡ some (m, rest)
    → (test m ≡ true) × AllTrue test rest
unfolding take_out
AllTrue-take_out test i [] m rest all e = cc
AllTrue-take_out test zero (n ∷ ns) m rest all e =
    let same : n ≡ m = cc in
    let tail : ns ≡ rest = cc in
    (subst (λ x. test x ≡ true) same all.0, subst (AllTrue test) tail all.1)
AllTrue-take_out test (suc i) (n ∷ ns) m rest all e = elim (Option-cases (take_out i ns)) [
  | inl gone ↦ absurd (cc)
  | inr (r, out) ↦
      let below = AllTrue-take_out test i ns r.0 r.1 all.1 out in
      let found = sym (take_out-suc i n ns r out) ∙ e in
      let same : r.0 ≡ m = cc in
      let tail : n ∷ r.1 ≡ rest = cc in
      (subst (λ x. test x ≡ true) same below.0, subst (AllTrue test) tail (all.0, below.1))
]

get_elem?-AllTrue :
    (test : NodeDescriptor → Bool) (ns : List NodeDescriptor) (i : ℕ) (n : NodeDescriptor)
    → AllTrue test ns
    → get_elem? ns i ≡ some n
    → test n ≡ true
get_elem?-AllTrue test [] i n all e = cc
get_elem?-AllTrue test (m ∷ ms) zero n all e =
    let same : m ≡ n = cc in subst (λ x. test x ≡ true) same all.0
get_elem?-AllTrue test (m ∷ ms) (suc i) n all e = get_elem?-AllTrue test ms i n all.1 e

pub select_weighted_node-AllTrue :
    (test : NodeDescriptor → Bool) (draw : ℕ → ℕ) (ns : List NodeDescriptor)
    → AllTrue test ns
    → OnOk (λ n. test n ≡ true) (select_weighted_node draw ns)
unfolding select_weighted_node
select_weighted_node-AllTrue test draw ns all =
    elim (Result-cases (select_weighted_index draw ns)) [
      | inr (e, bad) ↦ rw bad tt
      | inl (i, at) ↦ elim (Option-cases (get_elem? ns i)) [
        | inl gone ↦ rw (at, gone) tt
        | inr (n, there) ↦ rw (at, there) (get_elem?-AllTrue test ns i n all there)
      ]
    ]

-- The test for a node's type.
abbrev pub of_type : NodeType → NodeDescriptor → Bool
of_type t n = node_type_eq n.node_type t

of_type-map :
    (t : NodeType) (es : List (List ℕ × NodeEntry))
    → AllTrue
        (of_type t)
        (map (λ (e : List ℕ × NodeEntry). e.1.descriptor) (retain (has_type t) es))
unfolding retain
of_type-map t [] = tt
of_type-map t (e ∷ es) = elim (Bool-cases (has_type t e)) [
  | inl stays ↦ rw stays (stays, of_type-map t es)
  | inr goes ↦ rw goes (of_type-map t es)
]

pub get_nodes_by_type-AllTrue :
    (r : NodeRegistry) (t : NodeType) → AllTrue (of_type t) (get_nodes_by_type r t)
unfolding get_nodes_by_type
get_nodes_by_type-AllTrue r t = of_type-map t r.nodes

-- For a list that is not empty, a draw below the bound that it is given picks a position of the list,
-- whatever the bandwidths are: also when their sum is 0 or wraps around.
pub select_weighted_index-bound :
    (draw : ℕ → ℕ) (ns : List NodeDescriptor)
    → ((n : ℕ) → 0 < n → draw n < n)
    → ns ≢ []
    → (i : ℕ) × (select_weighted_index draw ns ≡ ok i) × (i < length ns)
unfolding select_weighted_index
select_weighted_index-bound draw [] low some_node = absurd (some_node refl)
select_weighted_index-bound draw (n ∷ ns) low some_node =
    let w = draw (total_bandwidth (n ∷ ns)) in
    elim (Bool-cases (total_bandwidth (n ∷ ns) == 0)) [
      | inl nothing ↦ (draw (length (n ∷ ns)), rw nothing refl, low (length (n ∷ ns)) (omega arith))
      | inr weight ↦ elim (Option-cases (weighted_position w (n ∷ ns))) [
        | inl past ↦ (length (n ∷ ns) - 1, rw (weight, past) refl, omega arith)
        | inr (i, at) ↦ (i, rw (weight, at) refl, weighted_position-bound w (n ∷ ns) i at)
      ]
    ]
