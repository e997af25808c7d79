-- ===== src/Discovery/PathRules.antt =====
-- The paths that get_random_path of discovery/src/core/registry.rs returns.
use mini_tor.Prelude.{
  ℕ, ◌+◌, ◌-◌, ◌≡◌, refl, ap, subst, List, [], ◌∷◌, ◌++◌, length, Bool, true, not, ok, guard, ◌>>◌,
  ltb, arith, Bool-cases, Result-cases, inl, inr, OnOk, OnOk-of, OnOk-guard,
}
use mini_tor.Types.{NodeDescriptor, IpAddr, entry, middle, exit}
use mini_tor.Discovery.{
  NodeRegistry, hop_count_too_small, no_entry_nodes, no_middle_nodes, no_exit_nodes,
  need_unique_middles,
}
use mini_tor.Discovery.Nodes.{get_nodes_by_type, is_empty}
use mini_tor.Discovery.Selection.{
  AllTrue, select_weighted_node-AllTrue, of_type, get_nodes_by_type-AllTrue,
}
use mini_tor.Discovery.Paths.{
  select_weighted_node, Excluded, ip_ok, op_ok, commit, eligible, pick_middles, choose_path,
  get_random_path,
}
use mini_tor.Discovery.Clashes.{Apart, commit-eligible, Covers}
use mini_tor.Discovery.Middles.{Good, pick_middles-Good}

module _ (is_loopback : IpAddr → Bool) (allow_same_ip : Bool) where
  -- A path: an entry, middles and an exit, as many nodes as asked for, no two of which clash.
  pub record IsPath (count : ℕ) (path : List NodeDescriptor) : Type 0 where
    pub entry_node : NodeDescriptor
    pub middles : List NodeDescriptor
    pub exit_node : NodeDescriptor
    pub shape : path ≡ entry_node ∷ (middles ++ exit_node ∷ [])
    pub hops : length middles + 2 ≡ count
    pub entry_kind : of_type entry entry_node ≡ true
    pub middle_kinds : AllTrue (of_type middle) middles
    pub exit_kind : of_type exit exit_node ≡ true
    pub apart : Apart is_loopback allow_same_ip (exit_node ∷ entry_node ∷ middles)

  both-eligible :
      (ex : Excluded) (n : NodeDescriptor)
      → ip_ok is_loopback allow_same_ip ex.ips n ≡ true
      → op_ok is_loopback allow_same_ip ex.ops n.operator_id ≡ true
      → eligible is_loopback allow_same_ip ex n ≡ true
  unfolding eligible
  both-eligible ex n ip op = rw (ip, op) refl

  chosen_path :
      (count : ℕ) (n x : NodeDescriptor) (zs : List NodeDescriptor)
      → length zs ≡ count
      → of_type entry n ≡ true
      → AllTrue (of_type middle) zs
      → of_type exit x ≡ true
      → Apart is_loopback allow_same_ip (x ∷ n ∷ zs)
      → IsPath (count + 2) (n ∷ (zs ++ x ∷ []))
  chosen_path count n x zs as_many kind_n kinds kind_x apart = record {
    entry_node = n;
    middles = zs;
    exit_node = x;
    shape = refl;
    hops = ap (λ (c : ℕ). c + 2) as_many;
    entry_kind = kind_n;
    middle_kinds = kinds;
    exit_kind = kind_x;
    apart = apart;
  }

  choose_path-IsPath :
      (draw : ℕ → ℕ → ℕ) (count : ℕ) (es ms xs : List NodeDescriptor)
      → AllTrue (of_type entry) es
      → AllTrue (of_type middle) ms
      → AllTrue (of_type exit) xs
      → OnOk (IsPath (count + 2)) (choose_path is_loopback allow_same_ip draw count es ms xs)
  unfolding choose_path eligible
  choose_path-IsPath draw count es ms xs all_entry all_middle all_exit =
      elim (Result-cases (select_weighted_node (draw 0) xs)) [
        | inr (e, bad) ↦ rw bad tt
        | inl (x, at_x) ↦ elim (Result-cases (select_weighted_node (draw 1) es)) [
          | inr (e, bad) ↦ rw (at_x, bad) tt
          | inl (n, at_n) ↦
              let none_yet : Excluded = record { ips = []; ops = [] } in
              let ex = commit is_loopback allow_same_ip none_yet x in
              elim (Bool-cases (ip_ok is_loopback allow_same_ip ex.ips n)) [
                | inr same ↦ rw (at_x, at_n, same) tt
                | inl ip ↦
                    elim (Bool-cases (op_ok is_loopback allow_same_ip ex.ops n.operator_id)) [
                      | inr same ↦ rw (at_x, at_n, ip, same) tt
                      | inl op ↦
                          let fits = both-eligible ex n ip op in
                          let clash =
                            (commit-eligible is_loopback allow_same_ip none_yet x n fits).1 in
                          let ex' = commit is_loopback allow_same_ip ex n in
                          let cov : Covers is_loopback allow_same_ip ex' (n ∷ x ∷ []) = (
                            λ m f. (commit-eligible is_loopback allow_same_ip ex n m f).1,
                            (
                              λ m f.
                                  (commit-eligible is_loopback allow_same_ip none_yet x m
                                    (commit-eligible is_loopback allow_same_ip ex n m f).0).1,
                              tt,
                            ),
                          ) in
                          let mids = pick_middles is_loopback allow_same_ip draw 2 count ms ex' in
                          let good =
                            pick_middles-Good is_loopback allow_same_ip (of_type middle) draw 2
                              count ms ex' (n ∷ x ∷ []) cov all_middle in
                          let kind_x =
                            OnOk-of (λ m. of_type exit m ≡ true) (select_weighted_node (draw 0) xs)
                              x (select_weighted_node-AllTrue (of_type exit) (draw 0) xs all_exit)
                              at_x in
                          let kind_n =
                            OnOk-of (λ m. of_type entry m ≡ true) (select_weighted_node (draw 1) es)
                              n (select_weighted_node-AllTrue (of_type entry) (draw 1) es all_entry)
                              at_n in
                          elim (Result-cases mids) [
                            | inr (e, bad) ↦ rw (at_x, at_n, ip, op, bad) tt
                            | inl (zs, done) ↦
                                let (as_many, kinds, apart, (from_n, (from_x, end))) =
                                  OnOk-of
                                    (Good is_loopback allow_same_ip (of_type middle) (n ∷ x ∷ [])
                                      count)
                                    mids zs good done in
                                rw (at_x, at_n, ip, op, done)
                                  (chosen_path count n x zs as_many kind_n kinds kind_x
                                    ((clash, from_x), (from_n, apart)))
                          ]
                    ]
              ]
        ]
      ]

module _ (is_loopback : IpAddr → Bool) (draw : ℕ → ℕ → ℕ) (r : NodeRegistry) (count : ℕ) where
  chosen :
      count - 2 + 2 ≡ count
      → OnOk (IsPath is_loopback r.allow_same_ip count) (
          choose_path is_loopback r.allow_same_ip draw
            (count - 2)
            (get_nodes_by_type r entry)
            (get_nodes_by_type r middle)
            (get_nodes_by_type r exit))
  chosen whole =
      let es = get_nodes_by_type r entry in
      let ms = get_nodes_by_type r middle in
      let xs = get_nodes_by_type r exit in
      subst
        (λ (c : ℕ).
          OnOk (IsPath is_loopback r.allow_same_ip c)
            (choose_path is_loopback r.allow_same_ip draw (count - 2) es ms xs))
        whole
        (choose_path-IsPath is_loopback r.allow_same_ip draw (count - 2) es ms xs
          (get_nodes_by_type-AllTrue r entry) (get_nodes_by_type-AllTrue r middle)
          (get_nodes_by_type-AllTrue r exit))

  get_random_path-OnOk :
      OnOk (IsPath is_loopback r.allow_same_ip count) (get_random_path is_loopback draw r count)
  unfolding get_random_path
  get_random_path-OnOk =
      let es = get_nodes_by_type r entry in
      let ms = get_nodes_by_type r middle in
      let xs = get_nodes_by_type r exit in
      let P = IsPath is_loopback r.allow_same_ip count in
      let k5 = choose_path is_loopback r.allow_same_ip draw (count - 2) es ms xs in
      let k4 = guard (not (is_empty xs)) no_exit_nodes >> k5 in
      let room = not (ltb (length ms) (count - 2)) in
      let too_few = need_unique_middles (count - 2) (length ms) in
      let k3 = guard room too_few >> k4 in
      let k2 = guard (not (is_empty ms)) no_middle_nodes >> k3 in
      let k1 = guard (not (is_empty es)) no_entry_nodes >> k2 in
      OnOk-guard P (not (ltb count 3)) (hop_count_too_small count) k1 (λ long.
        OnOk-guard P (not (is_empty es)) no_entry_nodes k2 (λ _.
          OnOk-guard P (not (is_empty ms)) no_middle_nodes k3 (λ _.
            OnOk-guard P room too_few k4 (λ _.
              OnOk-guard P (not (is_empty xs)) no_exit_nodes k5
                (λ _. chosen (ground (arith, long)))))))

-- A path that the registry returns has as many nodes as were asked for: an entry, middles and an
-- exit. No two of its nodes share an operator, and no two share an IP address, unless the address is
-- a loopback address or the registry allows equal addresses.
pub get_random_path-IsPath :
    (is_loopback : IpAddr → Bool) (draw : ℕ → ℕ → ℕ) (r : NodeRegistry) (count : ℕ)
    (path : List NodeDescriptor)
    → get_random_path is_loopback draw r count ≡ ok path
    → IsPath is_loopback r.allow_same_ip count path
get_random_path-IsPath is_loopback draw r count path e =
    OnOk-of (IsPath is_loopback r.allow_same_ip count) (get_random_path is_loopback draw r count)
      path (get_random_path-OnOk is_loopback draw r count) e
