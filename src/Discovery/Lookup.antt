-- ===== src/Discovery/Lookup.antt =====
-- What the operations of the registry's map do to the entry of one id.
use mini_tor.Prelude.{
  ℕ, ◌≡◌, refl, ap, List, [], ◌∷◌, Bool, true, false, Bool-cases, inl, inr, none, some, not,
  bytes_eq, bytes_eq_iff,
}
use mini_tor.Discovery.{NodeEntry}
use mini_tor.Discovery.Nodes.{retain, find_node, update_node}

module _ (id : List ℕ) where
  -- The entry of an id stays where it is kept.
  pub find_node-retain :
      (keep : List ℕ × NodeEntry → Bool) (es : List (List ℕ × NodeEntry)) (e : NodeEntry)
      → find_node id es ≡ some e
      → keep (id, e) ≡ true
      → find_node id (retain keep es) ≡ some e
  unfolding find_node retain
  find_node-retain keep [] e found kept = cc
  find_node-retain keep ((k, x) ∷ es) e found kept = elim (Bool-cases (bytes_eq k id)) [
    | inl here ↦
        let named : k ≡ id = (bytes_eq_iff k id).0 here in
        let first : some x ≡ some e = rw here at found in
        let same : x ≡ e = cc in
        let stays : keep (k, x) ≡ true = rw (named, same) kept in rw (stays, here) first
    | inr later ↦
        let rest : find_node id es ≡ some e = rw later at found in
        elim (Bool-cases (keep (k, x))) [
          | inl stays ↦ rw (stays, later) (find_node-retain keep es e rest kept)
          | inr goes ↦ rw goes (find_node-retain keep es e rest kept)
        ]
  ]

  pub find_node-retain-none :
      (keep : List ℕ × NodeEntry → Bool) (es : List (List ℕ × NodeEntry))
      → find_node id es ≡ none
      → find_node id (retain keep es) ≡ none
  unfolding find_node retain
  find_node-retain-none keep [] absent = refl
  find_node-retain-none keep ((k, x) ∷ es) absent = elim (Bool-cases (bytes_eq k id)) [
    | inl here ↦ let found : some x ≡ none = rw here at absent in cc
    | inr later ↦
        let rest : find_node id es ≡ none = rw later at absent in
        elim (Bool-cases (keep (k, x))) [
          | inl stays ↦ rw (stays, later) (find_node-retain-none keep es rest)
          | inr goes ↦ rw goes (find_node-retain-none keep es rest)
        ]
  ]

  pub find_node-retain_gone :
      (es : List (List ℕ × NodeEntry))
      → find_node id (retain (λ e. not (bytes_eq e.0 id)) es) ≡ none
  unfolding find_node retain
  find_node-retain_gone [] = refl
  find_node-retain_gone ((k, x) ∷ es) = elim (Bool-cases (bytes_eq k id)) [
    | inl here ↦ rw here (find_node-retain_gone es)
    | inr later ↦ rw (later, later) (find_node-retain_gone es)
  ]

  pub find_node-update_node :
      (f : NodeEntry → NodeEntry) (es : List (List ℕ × NodeEntry)) (e : NodeEntry)
      → find_node id es ≡ some e
      → find_node id (update_node id f es) ≡ some (f e)
  unfolding find_node update_node
  find_node-update_node f [] e found = cc
  find_node-update_node f ((k, x) ∷ es) e found = elim (Bool-cases (bytes_eq k id)) [
    | inl here ↦
        let first : some x ≡ some e = rw here at found in
        let same : x ≡ e = cc in rw (here, here) (ap (λ (y : NodeEntry). some (f y)) same)
    | inr later ↦
        let rest : find_node id es ≡ some e = rw later at found in
        rw (later, later) (find_node-update_node f es e rest)
  ]

  pub find_node-update_other :
      (j : List ℕ) (f : NodeEntry → NodeEntry) (es : List (List ℕ × NodeEntry))
      → bytes_eq j id ≡ false
      → find_node id (update_node j f es) ≡ find_node id es
  unfolding find_node update_node
  find_node-update_other j f [] other = refl
  find_node-update_other j f ((k, x) ∷ es) other = elim (Bool-cases (bytes_eq k j)) [
    | inl here ↦
        let named : k ≡ j = (bytes_eq_iff k j).0 here in
        let apart : bytes_eq k id ≡ false = rw named other in rw (here, apart) refl
    | inr later ↦ elim (Bool-cases (bytes_eq k id)) [
      | inl mine ↦ rw (later, mine) refl
      | inr next ↦ rw (later, next) (find_node-update_other j f es other)
    ]
  ]
