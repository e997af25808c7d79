-- ===== src/Client/Monitor/Cleaning.antt =====
-- What the monitor of tor-client/src/core/circuit.rs removes from the pool.
use mini_tor.Prelude.{
  ℕ, ◌≡◌, ◌≢◌, refl, subst, ◌∙◌, List, [], ◌∷◌, Bool, false, Bool-cases, inl, inr, Option, none,
  some, lookup, remove, lookup-remove, ◌==◌, ◌&&◌, ◌||◌, length, if◌then◌else◌, arith,
}
use mini_tor.Crypto.{Primitives}
use mini_tor.Net.{Net}
use mini_tor.Client.Circuit.{
  Circuit, CircuitState, building, ready, dirty, closing, closed, active_stream_count,
}
use mini_tor.Client.Pool.{CircuitPool}
use mini_tor.Client.Monitor.{ids_where, is_dirty, is_idle_dirty, remove_each, remove_idle_dirty}

module _ ⦃prim : Primitives⦄ ⦃net : Net⦄ where
  -- The description: what is left of the circuit under an id. A dirty circuit without streams goes.
  abbrev spare : CircuitState → List (ℕ × net.MsgSender) → Circuit → Option Circuit
  spare dirty [] c = none
  spare dirty (sender ∷ senders) c = some c
  spare building senders c = some c
  spare ready senders c = some c
  spare closing senders c = some c
  spare closed senders c = some c

  abbrev pub after_cleaning : Option Circuit → Option Circuit
  after_cleaning none = none
  after_cleaning (some c) = spare c.state c.stream_senders c

  -- A pool maps each id to one circuit.
  abbrev pub NoId : ℕ → List (ℕ × Circuit) → Type 0
  NoId j [] = Unit
  NoId j ((id, c) ∷ cs) = (id ≢ j) × NoId j cs

  abbrev pub UniqueIds : List (ℕ × Circuit) → Type 0
  UniqueIds [] = Unit
  UniqueIds ((id, c) ∷ cs) = NoId id cs × UniqueIds cs

  is_idle_dirty-spare :
      (state : CircuitState) (senders : List (ℕ × net.MsgSender)) (c : Circuit)
      → (if is_dirty state && (length senders == 0) then none else some c) ≡ spare state senders c
  unfolding is_dirty
  is_idle_dirty-spare building senders c = refl
  is_idle_dirty-spare ready senders c = refl
  is_idle_dirty-spare dirty [] c = refl
  is_idle_dirty-spare dirty (sender ∷ senders) c =
      let used : (length (sender ∷ senders) == 0) ≡ false = ground arith in rw used refl
  is_idle_dirty-spare closing senders c = refl
  is_idle_dirty-spare closed senders c = refl

  abbrev has : ℕ → List ℕ → Bool
  has j [] = false
  has j (i ∷ is_) = (i == j) || has j is_

  lookup-remove_each :
      (j : ℕ) (ids : List ℕ) (cs : List (ℕ × Circuit))
      → lookup j (remove_each ids cs) ≡ (if has j ids then none else lookup j cs)
  unfolding remove_each
  lookup-remove_each j [] cs = refl
  lookup-remove_each j (i ∷ ids) cs =
      let rest = lookup-remove_each j ids (remove i cs) in
      elim (Bool-cases (i == j)) [
        | inl here ↦ elim (Bool-cases (has j ids)) [
          | inl again ↦ rw (rest, lookup-remove i j cs, here, again) refl
          | inr once ↦ rw (rest, lookup-remove i j cs, here, once) refl
        ]
        | inr other ↦ rw (rest, lookup-remove i j cs, other) refl
      ]

  NoId-lookup : (j : ℕ) (cs : List (ℕ × Circuit)) → NoId j cs → lookup j cs ≡ none
  unfolding lookup
  NoId-lookup j [] no_id = refl
  NoId-lookup j ((id, c) ∷ cs) (differ, no_id) =
      let other : (id == j) ≡ false = ground (arith, differ) in rw other (NoId-lookup j cs no_id)

  NoId-has :
      (test : Circuit → Bool) (j : ℕ) (cs : List (ℕ × Circuit))
      → NoId j cs
      → has j (ids_where test cs) ≡ false
  unfolding ids_where
  NoId-has test j [] no_id = refl
  NoId-has test j ((id, c) ∷ cs) (differ, no_id) =
      let other : (id == j) ≡ false = ground (arith, differ) in
      elim (Bool-cases (test c)) [
        | inl passes ↦ rw (passes, other) (NoId-has test j cs no_id)
        | inr fails ↦ rw fails (NoId-has test j cs no_id)
      ]

  abbrev unless : (Circuit → Bool) → Option Circuit → Option Circuit
  unless test none = none
  unless test (some c) = if test c then none else some c

  ids_where-unless :
      (test : Circuit → Bool) (j : ℕ) (cs : List (ℕ × Circuit))
      → UniqueIds cs
      → (if has j (ids_where test cs) then none else lookup j cs) ≡ unless test (lookup j cs)
  unfolding ids_where lookup
  ids_where-unless test j [] unique = refl
  ids_where-unless test j ((id, c) ∷ cs) (no_id, unique) = elim (Bool-cases (id == j)) [
    | inl here ↦
        let same : id ≡ j = ground (arith, here) in
        let once : has j (ids_where test cs) ≡ false =
          NoId-has test j cs (subst (λ (i : ℕ). NoId i cs) same no_id) in
        elim (Bool-cases (test c)) [
          | inl passes ↦ rw (passes, here) (rw passes refl)
          | inr fails ↦ rw (fails, here, once) (rw fails refl)
        ]
    | inr other ↦ elim (Bool-cases (test c)) [
      | inl passes ↦ rw (passes, other) (ids_where-unless test j cs unique)
      | inr fails ↦ rw (fails, other) (ids_where-unless test j cs unique)
    ]
  ]

  unless-after_cleaning : (o : Option Circuit) → unless is_idle_dirty o ≡ after_cleaning o
  unfolding is_idle_dirty active_stream_count
  unless-after_cleaning none = refl
  unless-after_cleaning (some c) = is_idle_dirty-spare c.state c.stream_senders c

  -- The monitor's clean-up of a pool whose ids are unique takes a circuit out exactly when it is dirty and
  -- has no streams: under every id there is afterwards what was there before, or nothing if that was
  -- such a circuit.
  pub remove_idle_dirty-exact :
      (p : CircuitPool) (j : ℕ)
      → UniqueIds p.circuits
      → lookup j (remove_idle_dirty p).circuits ≡ after_cleaning (lookup j p.circuits)
  unfolding remove_idle_dirty
  remove_idle_dirty-exact p j unique =
      lookup-remove_each j (ids_where is_idle_dirty p.circuits) p.circuits
      ∙ ids_where-unless is_idle_dirty j p.circuits unique
      ∙ unless-after_cleaning (lookup j p.circuits)
