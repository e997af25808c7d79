-- ===== src/Client/LeastLoaded.antt =====
-- The circuit that select_circuit of tor-client/src/core/circuit.rs picks.
use mini_tor.Prelude.{
  ℕ, ◌≤◌, ◌≡◌, ◌⊎◌, refl, List, [], ◌∷◌, ltb, true, false, Bool-cases, inl, inr, Option, none, some,
  arith,
}
use mini_tor.Crypto.{Primitives}
use mini_tor.Net.{Net}
use mini_tor.Client.Circuit.{Circuit, active_stream_count}
use mini_tor.Client.Pool.{is_ready, least_loaded}

module _ ⦃prim : Primitives⦄ ⦃net : Net⦄ where
  -- No ready circuit has fewer streams than this.
  abbrev pub AtLeast : ℕ → List (ℕ × Circuit) → Type 0
  AtLeast n [] = Unit
  AtLeast n ((id, c) ∷ cs) = (is_ready c.state ≡ true → n ≤ active_stream_count c) × AtLeast n cs

  -- A ready circuit with this id and as many streams stands in the list.
  pub data HasReady (id n : ℕ) : List (ℕ × Circuit) → Type 0 where
    here :
        (c : Circuit) (cs : List (ℕ × Circuit))
        → is_ready c.state ≡ true
        → active_stream_count c ≡ n
        → HasReady id n ((id, c) ∷ cs)
    there : (e : ℕ × Circuit) (cs : List (ℕ × Circuit)) → HasReady id n cs → HasReady id n (e ∷ cs)

  abbrev pub NoneReady : List (ℕ × Circuit) → Type 0
  NoneReady [] = Unit
  NoneReady ((id, c) ∷ cs) = (is_ready c.state ≡ false) × NoneReady cs

  -- A pick from the list: nobody is ready, or a ready circuit with the fewest streams.
  abbrev pub Best : Option (ℕ × ℕ) → List (ℕ × Circuit) → Type 0
  Best none cs = NoneReady cs
  Best (some r) cs = HasReady r.0 r.1 cs × AtLeast r.1 cs

  -- What the loop does from a circuit that it has already.
  record Pick (b m : ℕ) (cs : List (ℕ × Circuit)) : Type 0 where
    id : ℕ
    n : ℕ
    found : least_loaded (some (b, m)) cs ≡ some (id, n)
    below : n ≤ m
    least : AtLeast n cs
    where_from : ((id ≡ b) × (n ≡ m)) ⊎ HasReady id n cs

  least_loaded-Pick : (b m : ℕ) (cs : List (ℕ × Circuit)) → Pick b m cs
  unfolding least_loaded
  least_loaded-Pick b m [] = record {
    id = b;
    n = m;
    found = refl;
    below = omega arith;
    least = tt;
    where_from = inl (refl, refl);
  }
  least_loaded-Pick b m ((i, c) ∷ cs) =
      let count = active_stream_count c in
      let skip = least_loaded-Pick b m cs in
      let take_it = least_loaded-Pick i count cs in
      elim (Bool-cases (is_ready c.state)) [
        | inr waits ↦ record {
          id = skip.id;
          n = skip.n;
          found = rw waits skip.found;
          below = skip.below;
          least = ((λ h. cc), skip.least);
          where_from = elim skip.where_from [ inl e ↦ inl e | inr h ↦ inr (there (i, c) cs h) ];
        }
        | inl is_there ↦ elim (Bool-cases (ltb count m)) [
          | inl fewer ↦ record {
            id = take_it.id;
            n = take_it.n;
            found = rw (is_there, fewer) take_it.found;
            below = ground (arith, fewer, take_it.below);
            least = ((λ h. take_it.below), take_it.least);
            where_from = elim take_it.where_from [
              | inl e ↦ inr (rw (e.0, e.1) (here c cs is_there refl))
              | inr h ↦ inr (there (i, c) cs h)
            ];
          }
          | inr more ↦ record {
            id = skip.id;
            n = skip.n;
            found = rw (is_there, more) skip.found;
            below = skip.below;
            least = ((λ h. ground (arith, more, skip.below)), skip.least);
            where_from = elim skip.where_from [ inl e ↦ inl e | inr h ↦ inr (there (i, c) cs h) ];
          }
        ]
      ]

  skipped :
      (i : ℕ) (c : Circuit) (cs : List (ℕ × Circuit))
      → is_ready c.state ≡ false
      → (r : Option (ℕ × ℕ)) → Best r cs
      → Best r ((i, c) ∷ cs)
  skipped i c cs waits none best = (waits, best)
  skipped i c cs waits (some r) best = (there (i, c) cs best.0, ((λ h. cc), best.1))

  -- The loop of select_circuit ends without a circuit only if none is ready, and otherwise with a
  -- ready circuit that has as few streams as any ready circuit, in whatever order they are tried.
  pub least_loaded-Best : (cs : List (ℕ × Circuit)) → Best (least_loaded none cs) cs
  unfolding least_loaded
  least_loaded-Best [] = tt
  least_loaded-Best ((i, c) ∷ cs) = elim (Bool-cases (is_ready c.state)) [
    | inl is_there ↦
        let f = least_loaded-Pick i (active_stream_count c) cs in
        rw (is_there, f.found)
          (
            elim f.where_from [
              | inl e ↦ rw (e.0, e.1) (here c cs is_there refl)
              | inr h ↦ there (i, c) cs h
            ],
            ((λ h. f.below), f.least),
          )
    | inr waits ↦ rw waits (skipped i c cs waits (least_loaded none cs) (least_loaded-Best cs))
  ]
