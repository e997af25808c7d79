-- ===== src/Metrics.antt =====
-- services/common/src/metrics.rs: the ring buffer of events. The lock, and a lock that was poisoned by
-- a panic of a snapshot's function, are not modelled. Instants are numbers.
pub mod Format
pub mod Newest
use mini_tor.Prelude.{
  ℕ, zero, suc, ◌+◌, ◌-◌, ◌≡◌, ◌≤◌, ◌<◌, refl, ap, sym, ◌∙◌, List, [], ◌∷◌, ◌++◌, append_assoc,
  append-nil, map, length, drop, length-drop, length-append, Bool, Bool-cases, true, false, leb,
  leb→le, inl, inr, if◌then◌else◌, ◌==◌, arith,
}

pub record TuiEvent (E : Type 0) : Type 0 where
  pub elapsed : ℕ
  pub kind : E

pub record EventBuffer (E : Type 0) : Type 0 where
  pub events : List (TuiEvent E)
  pub capacity : ℕ
  pub start_time : ℕ

module _ {E : Type 0} where
  unfoldable pub new : ℕ → ℕ → EventBuffer E
  new capacity now = record { events = []; capacity = capacity; start_time = now }

  unfoldable pub push : ℕ → E → EventBuffer E → EventBuffer E
  push now kind b =
      let event : TuiEvent E = record { elapsed = now - b.start_time; kind = kind } in
      let kept = if leb b.capacity (length b.events) then drop 1 b.events else b.events in
      record b { events = kept ++ event ∷ [] }

  unfoldable pub snapshot {ℓ} : {T : Type ℓ} → (TuiEvent E → T) → EventBuffer E → List T
  snapshot map_fn b = map map_fn b.events

  unfoldable pub len : EventBuffer E → ℕ
  len b = length b.events

  unfoldable pub is_empty : EventBuffer E → Bool
  is_empty b = len b == 0

  -- Pushes at these instants, in order.
  unfoldable pub push_all : List (ℕ × E) → EventBuffer E → EventBuffer E
  push_all [] b = b
  push_all ((now, kind) ∷ rest) b = push_all rest (push now kind b)

  -- The description: all events, and the last of them.
  abbrev pub stamped : ℕ → List (ℕ × E) → List (TuiEvent E)
  stamped start [] = []
  stamped start ((now, kind) ∷ rest) =
      record { elapsed = now - start; kind = kind } ∷ stamped start rest

abbrev pub last_n {ℓ} : {A : Type ℓ} → ℕ → List A → List A
last_n n xs = drop (length xs - n) xs

drop_one {ℓ} : {A : Type ℓ} (n : ℕ) (xs : List A) → drop 1 (drop n xs) ≡ drop (suc n) xs
drop_one zero [] = refl
drop_one zero (x ∷ xs) = refl
drop_one (suc n) [] = refl
drop_one (suc n) (x ∷ xs) = drop_one n xs

drop-snoc {ℓ} :
    {A : Type ℓ} (n : ℕ) (xs ys : List A) → n ≤ length xs → drop n (xs ++ ys) ≡ drop n xs ++ ys
drop-snoc zero xs ys small = refl
drop-snoc (suc n) [] ys small = absurd (omega (arith, small))
drop-snoc (suc n) (x ∷ xs) ys small = drop-snoc n xs ys (omega (arith, small))

-- One more event at the end of the last n.
last_n-snoc {ℓ} :
    {A : Type ℓ} (n : ℕ) (xs : List A) (x : A)
    → 1 ≤ n
    → (if leb n (length (last_n n xs)) then drop 1 (last_n n xs) else last_n n xs) ++ x ∷ []
      ≡ last_n n (xs ++ x ∷ [])
last_n-snoc n xs x pos =
    let held = length-drop (length xs - n) xs in
    let longer = length-append xs (x ∷ []) in
    elim (Bool-cases (leb n (length (last_n n xs)))) [
      | inl full ↦
          let enough : n ≤ length xs = omega (arith, leb→le n (length (last_n n xs)) full, held) in
          let next : suc (length xs - n) ≡ length (xs ++ x ∷ []) - n =
            omega (arith, enough, longer) in
          rw (full, drop_one (length xs - n) xs, next)
            (sym (
              drop-snoc (length (xs ++ x ∷ []) - n) xs (x ∷ []) (omega (arith, next, enough, pos))))
      | inr room ↦
          let short : length xs < n = ground (arith, room, held) in
          let none_gone : length xs - n ≡ 0 = omega (arith, short) in
          let none_goes : length (xs ++ x ∷ []) - n ≡ 0 = omega (arith, short, longer) in
          rw (room, none_gone, none_goes) refl
    ]

module _ {E : Type 0} where
  -- A buffer that holds the last of the events that came before.
  push_all-last_n_from :
      (pushes : List (ℕ × E)) (b : EventBuffer E) (past : List (TuiEvent E))
      → 1 ≤ b.capacity
      → b.events ≡ last_n b.capacity past
      → (push_all pushes b).events ≡ last_n b.capacity (past ++ stamped b.start_time pushes)
  unfolding push_all push
  push_all-last_n_from [] b past pos held =
      held ∙ ap (λ (es : List (TuiEvent E)). last_n b.capacity es) (sym (append-nil past))
  push_all-last_n_from ((now, kind) ∷ rest) b past pos held =
      let event : TuiEvent E = record { elapsed = now - b.start_time; kind = kind } in
      let kept : List (TuiEvent E) → List (TuiEvent E) =
        λ es. (if leb b.capacity (length es) then drop 1 es else es) ++ event ∷ [] in
      let held' : (push now kind b).events ≡ last_n b.capacity (past ++ event ∷ []) =
        ap kept held ∙ last_n-snoc b.capacity past event pos in
      push_all-last_n_from rest (push now kind b) (past ++ event ∷ []) pos held'
      ∙ ap (λ (es : List (TuiEvent E)). last_n b.capacity es)
          (append_assoc past (event ∷ []) (stamped b.start_time rest))

  -- A snapshot shows the latest events: after any pushes to a new buffer of a positive capacity, it shows
  -- the last of them, as many as the capacity at most, in order and with the time that each came.
  pub snapshot-push_all :
      {T : Type 0} (map_fn : TuiEvent E → T) (capacity now : ℕ) (pushes : List (ℕ × E))
      → 1 ≤ capacity
      → snapshot map_fn (push_all pushes (new capacity now))
        ≡ map map_fn (last_n capacity (stamped now pushes))
  unfolding snapshot new
  snapshot-push_all map_fn capacity now pushes pos =
      let none_gone : 0 - capacity ≡ 0 = omega arith in
      let nothing_held : [] ≡ last_n capacity (stamped now []) = rw none_gone refl in
      ap (λ (es : List (TuiEvent E)). map map_fn es)
        (push_all-last_n_from pushes (new capacity now) [] pos nothing_held)
