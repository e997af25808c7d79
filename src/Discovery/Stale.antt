-- ===== src/Discovery/Stale.antt =====
-- What cleanup_stale_nodes of discovery/src/core/registry.rs leaves.
use mini_tor.Prelude.{
  ℕ, ltb, leb, not, true, false, ◌+◌, ◌-◌, ◌≤◌, length, Bool, arith, ◌≡◌, refl, ◌∙◌, List, [], ◌∷◌,
  Bool-cases, inl, inr, Option, none, some, bytes_eq, bytes_eq_iff, if◌then◌else◌, subst,
}
use mini_tor.Discovery.{NodeEntry, NodeRegistry}
use mini_tor.Discovery.Nodes.{retain, find_node, is_fresh, cleanup_stale_nodes}
use mini_tor.Discovery.Keys.{NoId, Distinct, retain-Distinct}

-- What a cleanup leaves of an entry: it stays, unchanged, where at most the timeout has passed since its
-- last heartbeat.
abbrev pub after_cleanup : ℕ → ℕ → Option NodeEntry → Option NodeEntry
after_cleanup now timeout none = none
after_cleanup now timeout (some e) = if leb now (e.last_heartbeat + timeout) then some e else none

find_node-NoId :
    (id : List ℕ) (es : List (List ℕ × NodeEntry)) → NoId id es → find_node id es ≡ none
unfolding find_node
find_node-NoId id [] no_id = refl
find_node-NoId id ((k, e) ∷ es) no_id = rw no_id.0 (find_node-NoId id es no_id.1)

length-retain {ℓ} :
    {A : Type ℓ} (keep : A → Bool) (xs : List A) → length (retain keep xs) ≤ length xs
unfolding retain
length-retain keep [] = omega arith
length-retain keep (x ∷ xs) =
    let shorter = length-retain keep xs in
    elim (Bool-cases (keep x)) [
      | inl kept ↦ rw kept (omega (arith, shorter))
      | inr dropped ↦ rw dropped (omega (arith, shorter))
    ]

module _ (now timeout : ℕ) where
  -- The test of the code, and a comparison of instants.
  fresh-leb :
      (last : ℕ) (b : Bool) → ltb timeout (now - last) ≡ b → leb now (last + timeout) ≡ not b
  fresh-leb last true e = ground (arith, e)
  fresh-leb last false e = ground (arith, e)

  find_node-after_cleanup :
      (id : List ℕ) (es : List (List ℕ × NodeEntry))
      → Distinct es
      → find_node id (retain (is_fresh now timeout) es)
        ≡ after_cleanup now timeout (find_node id es)
  unfolding find_node retain
  find_node-after_cleanup id [] distinct = refl
  find_node-after_cleanup id ((k, e) ∷ es) (own, no_id, free, distinct) =
      let ih = find_node-after_cleanup id es distinct in
      elim (Bool-cases (bytes_eq k id)) [
        | inl here ↦
            let same : k ≡ id = (bytes_eq_iff k id).0 here in
            let gone = find_node-NoId id es (subst (λ (i : List ℕ). NoId i es) same no_id) in
            elim (Bool-cases (ltb timeout (now - e.last_heartbeat))) [
              | inr fresh ↦ rw (fresh, here) (rw (fresh-leb e.last_heartbeat false fresh) refl)
              | inl stale ↦
                  rw (stale, here) (rw (fresh-leb e.last_heartbeat true stale) (ih ∙ rw gone refl))
            ]
        | inr later ↦ elim (Bool-cases (ltb timeout (now - e.last_heartbeat))) [
          | inr fresh ↦ rw (fresh, later) ih
          | inl stale ↦ rw (stale, later) ih
        ]
      ]

  -- In a registry free of doubles, a cleanup keeps a node, unchanged, exactly when at most the timeout
  -- has passed since its last heartbeat; an id that was not there is not there afterwards. The registry
  -- stays free of doubles, and the number that is returned is that of the nodes that went.
  pub cleanup_stale_nodes-exact :
      (r : NodeRegistry)
      → Distinct r.nodes
      → let done = cleanup_stale_nodes now r timeout in
        ((id : List ℕ)
          → find_node id done.0.nodes ≡ after_cleanup now timeout (find_node id r.nodes))
        × Distinct done.0.nodes
        × (length done.0.nodes + done.1 ≡ length r.nodes)
  unfolding cleanup_stale_nodes
  cleanup_stale_nodes-exact r distinct = (
    (λ id. find_node-after_cleanup id r.nodes distinct),
    retain-Distinct (is_fresh now timeout) r.nodes distinct,
    omega (arith, length-retain (is_fresh now timeout) r.nodes),
  )
