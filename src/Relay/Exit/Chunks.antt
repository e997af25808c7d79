-- ===== src/Relay/Exit/Chunks.antt =====
-- The chunks of a read from a destination, in spawn_stream_tasks of relay-node/src/circuit/exit.rs.
use mini_tor.Prelude.{
  ℕ, zero, suc, ◌≤◌, ◌≡◌, refl, ap, ◌∙◌, List, [], ◌∷◌, ◌++◌, length, take, drop, length-take,
  length-drop, take-append-drop, arith,
}
use mini_tor.Relay.Exit.Task.{chunks, chunks_upto}

-- The chunks put together again.
abbrev pub joined : List (List ℕ) → List ℕ
joined [] = []
joined (c ∷ cs) = c ++ joined cs

-- Every chunk has at least one byte, and n at most.
abbrev pub AllFit : ℕ → List (List ℕ) → Type 0
AllFit n [] = Unit
AllFit n (c ∷ cs) = (1 ≤ length c) × (length c ≤ n) × AllFit n cs

joined-chunks_upto :
    (fuel n : ℕ) (xs : List ℕ) → 1 ≤ n → length xs ≤ fuel → joined (chunks_upto fuel n xs) ≡ xs
unfolding chunks_upto
joined-chunks_upto zero n [] pos enough = refl
joined-chunks_upto zero n (x ∷ xs) pos enough = absurd (omega arith)
joined-chunks_upto (suc fuel) n [] pos enough = refl
joined-chunks_upto (suc fuel) n (x ∷ xs) pos enough =
    ap (λ (rest : List ℕ). take n (x ∷ xs) ++ rest)
      (joined-chunks_upto fuel n (drop n (x ∷ xs)) pos (omega (arith, length-drop n (x ∷ xs))))
    ∙ take-append-drop n (x ∷ xs)

AllFit-chunks_upto : (fuel n : ℕ) (xs : List ℕ) → 1 ≤ n → AllFit n (chunks_upto fuel n xs)
unfolding chunks_upto
AllFit-chunks_upto zero n xs pos = tt
AllFit-chunks_upto (suc fuel) n [] pos = tt
AllFit-chunks_upto (suc fuel) n (x ∷ xs) pos = (
  omega (arith, length-take n (x ∷ xs)),
  omega (arith, length-take n (x ∷ xs)),
  AllFit-chunks_upto fuel n (drop n (x ∷ xs)) pos,
)

-- For a positive chunk size, the chunks of any data are the data cut up in order: together they are
-- the data, and each has at least one byte and at most the chunk size.
pub joined-chunks :
    (n : ℕ) (xs : List ℕ) → 1 ≤ n → (joined (chunks n xs) ≡ xs) × AllFit n (chunks n xs)
unfolding chunks
joined-chunks n xs pos =
    (joined-chunks_upto (length xs) n xs pos (omega arith), AllFit-chunks_upto (length xs) n xs pos)
