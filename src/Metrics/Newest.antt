-- ===== src/Metrics/Newest.antt =====
-- The newest events of a buffer (services/common/src/metrics.rs), as the relay and the discovery service
-- take them: a snapshot in reverse, cut short.
use mini_tor.Prelude.{
  ℕ, zero, suc, ◌-◌, ◌≡◌, ◌≤◌, refl, sym, ap, ◌∙◌, List, [], ◌∷◌, ◌++◌, map, length, take, drop,
  length-drop, length-append, take-append-drop, arith, leb, Bool-cases, inl, inr, leb→le,
}
use mathlib.Core.List.{reverse, reverse-append}
use mini_tor.Metrics.{TuiEvent, new, push_all, snapshot, stamped, last_n, snapshot-push_all}

length-reverse {ℓ} : {A : Type ℓ} (xs : List A) → length (reverse xs) ≡ length xs
length-reverse [] = refl
length-reverse (x ∷ xs) =
    ap length (reverse-append (x ∷ []) xs)
    ∙ omega (arith, length-append (reverse xs) (x ∷ []), length-reverse xs)

take-append_le {ℓ} :
    {A : Type ℓ} (n : ℕ) (xs ys : List A) → n ≤ length xs → take n (xs ++ ys) ≡ take n xs
take-append_le zero xs ys small = refl
take-append_le (suc n) [] ys small = absurd (omega (arith, small))
take-append_le (suc n) (x ∷ xs) ys small =
    ap (λ t. x ∷ t) (take-append_le n xs ys (omega (arith, small)))

map-drop {ℓ κ} :
    {A : Type ℓ} {B : Type κ} (f : A → B) (n : ℕ) (xs : List A)
    → map f (drop n xs) ≡ drop n (map f xs)
map-drop f zero xs = refl
map-drop f (suc n) [] = refl
map-drop f (suc n) (x ∷ xs) = map-drop f n xs

length-map {ℓ κ} :
    {A : Type ℓ} {B : Type κ} (f : A → B) (xs : List A) → length (map f xs) ≡ length xs
length-map f [] = refl
length-map f (x ∷ xs) = ap suc (length-map f xs)

-- Of the newest k, none is lost where the buffer holds the last n, at least k.
newest-last_n {ℓ} :
    {A : Type ℓ} (k n : ℕ) (xs : List A)
    → k ≤ n
    → take k (reverse (last_n n xs)) ≡ take k (reverse xs)
newest-last_n k n xs small =
    let m = length xs - n in
    let whole : reverse xs ≡ reverse (drop m xs) ++ reverse (take m xs) =
      ap reverse (sym (take-append-drop m xs)) ∙ reverse-append (take m xs) (drop m xs) in
    elim (Bool-cases (leb n (length xs))) [
      | inl long ↦
          let held : length (reverse (drop m xs)) ≡ n =
            omega
              (arith, length-reverse (drop m xs), length-drop m xs, leb→le n (length xs) long) in
          sym (
            ap (take k) whole
            ∙ take-append_le k (reverse (drop m xs)) (reverse (take m xs))
                (omega (arith, held, small)))
      | inr short ↦ let none_gone : length xs - n ≡ 0 = ground (arith, short) in rw none_gone refl
    ]

-- The newest events, newest first: as many as are asked for, if the buffer has room for them, of all
-- that were ever pushed.
pub newest-push_all :
    {E T : Type 0} (map_fn : TuiEvent E → T) (count capacity now : ℕ) (pushes : List (ℕ × E))
    → 1 ≤ capacity
    → count ≤ capacity
    → take count (reverse (snapshot map_fn (push_all pushes (new capacity now))))
      ≡ take count (reverse (map map_fn (stamped now pushes)))
newest-push_all {T} map_fn count capacity now pushes pos room =
    let all = map map_fn (stamped now pushes) in
    let same_length = length-map map_fn (stamped now pushes) in
    let shown : snapshot map_fn (push_all pushes (new capacity now)) ≡ last_n capacity all =
      snapshot-push_all map_fn capacity now pushes pos
      ∙ (map-drop map_fn (length (stamped now pushes) - capacity) (stamped now pushes)
          ∙ ap (λ (n : ℕ). drop (n - capacity) all) (sym same_length)) in
    ap (λ (ts : List T). take count (reverse ts)) shown ∙ newest-last_n count capacity all room
