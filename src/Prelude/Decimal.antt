-- ===== src/Prelude/Decimal.antt =====
-- Numbers as decimal text, `to_string` of std, and back, `str::parse` of an unsigned type below a bound.
-- Texts are lists of characters.
use Prim.Native.Nat.{ℕ, zero, suc, ◌+◌, ◌-◌, ◌*◌, ◌/◌, ◌%◌, ◌≤◌, ◌<◌}
use mathlib.Core.Path.{◌≡◌, refl, ◌∙◌}
use mathlib.Core.Logic.{inl, inr}
use mathlib.Core.Bool.{Bool, false, ◌&&◌}
use mathlib.Core.Option.{Option, none, some}
use mathlib.Core.List.{List, [], ◌∷◌, ◌++◌}
use native.Mathlib.Omega.{arith}
use mini_tor.Prelude.Tests.{leb, ltb, ◌==◌, if◌then◌else◌, Bool-cases}

-- The fuel is more than the number of digits.
unfoldable pub show_digits : ℕ → ℕ → List ℕ
show_digits zero n = []
show_digits (suc fuel) n =
    let front = show_digits fuel (n / 10) in
    if ltb n 10 then (48 + n) ∷ [] else front ++ (48 + n % 10) ∷ []

unfoldable pub to_string : ℕ → List ℕ
to_string n = show_digits (suc n) n

abbrev is_digit : ℕ → Bool
is_digit c = leb 48 c && leb c 57

unfoldable pub parse_digits : ℕ → ℕ → List ℕ → Option ℕ
parse_digits bound value [] = some value
parse_digits bound value (c ∷ cs) =
    let next = value * 10 + (c - 48) in
    if is_digit c && ltb next bound then parse_digits bound next cs else none

-- An empty text and a lone sign are refused; a plus sign may stand in front.
unfoldable pub parse_uint : ℕ → List ℕ → Option ℕ
parse_uint bound [] = none
parse_uint bound (c ∷ []) = parse_digits bound 0 (c ∷ [])
parse_uint bound (c ∷ d ∷ cs) =
    if c == 43 then parse_digits bound 0 (d ∷ cs) else parse_digits bound 0 (c ∷ d ∷ cs)

parse_digits-snoc :
    (bound value v d : ℕ) (xs : List ℕ)
    → d < 10
    → v * 10 + d < bound
    → parse_digits bound value xs ≡ some v
    → parse_digits bound value (xs ++ (48 + d) ∷ []) ≡ some (v * 10 + d)
unfolding parse_digits
parse_digits-snoc bound value v d [] digit fits read = ground arith
parse_digits-snoc bound value v d (c ∷ xs) digit fits read =
    elim (Bool-cases (is_digit c && ltb (value * 10 + (c - 48)) bound)) [
      | inl goes_on ↦
          let rest : parse_digits bound (value * 10 + (c - 48)) xs ≡ some v = rw goes_on at read in
          rw goes_on (parse_digits-snoc bound (value * 10 + (c - 48)) v d xs digit fits rest)
      | inr stops ↦ let refused : none ≡ some v = rw stops at read in cc
    ]

parse_digits-show_digits :
    (bound fuel n : ℕ) → n < fuel → n < bound → parse_digits bound 0 (show_digits fuel n) ≡ some n
unfolding show_digits parse_digits
parse_digits-show_digits bound zero n enough fits = elim enough [ ]
parse_digits-show_digits bound (suc fuel) n enough fits = elim (Bool-cases (ltb n 10)) [
  | inl one ↦ rw one (ground (arith, one))
  | inr more ↦
      let big : 10 ≤ n = ground (arith, more) in
      let front =
        parse_digits-show_digits bound fuel (n / 10) (omega (arith, big, enough))
          (omega (arith, fits)) in
      let whole : n / 10 * 10 + n % 10 ≡ n = omega arith in
      let last =
        parse_digits-snoc bound 0 (n / 10) (n % 10) (show_digits fuel (n / 10)) (omega arith)
          (omega (arith, whole, fits)) front in
      rw (more, last, whole) refl
]

-- A text that begins with no sign.
abbrev NoSign : List ℕ → Type 0
NoSign [] = ⊥
NoSign (c ∷ cs) = 48 ≤ c

NoSign-append : (xs ys : List ℕ) → NoSign xs → NoSign (xs ++ ys)
NoSign-append [] ys starts = absurd starts
NoSign-append (c ∷ xs) ys starts = starts

show_digits-NoSign : (fuel n : ℕ) → n < fuel → NoSign (show_digits fuel n)
unfolding show_digits
show_digits-NoSign zero n enough = elim enough [ ]
show_digits-NoSign (suc fuel) n enough = elim (Bool-cases (ltb n 10)) [
  | inl one ↦ rw one (omega arith)
  | inr more ↦
      let big : 10 ≤ n = ground (arith, more) in
      rw more (
        NoSign-append (show_digits fuel (n / 10)) ((48 + n % 10) ∷ [])
          (show_digits-NoSign fuel (n / 10) (omega (arith, big, enough))))
]

parse_uint-NoSign :
    (bound : ℕ) (xs : List ℕ) → NoSign xs → parse_uint bound xs ≡ parse_digits bound 0 xs
unfolding parse_uint
parse_uint-NoSign bound [] starts = absurd starts
parse_uint-NoSign bound (c ∷ []) starts = refl
parse_uint-NoSign bound (c ∷ d ∷ cs) starts =
    let digit : (c == 43) ≡ false = ground (arith, starts) in rw digit refl

-- A number below the bound of its type comes back from its decimal text.
pub parse_uint-to_string : (bound n : ℕ) → n < bound → parse_uint bound (to_string n) ≡ some n
unfolding to_string
parse_uint-to_string bound n fits =
    parse_uint-NoSign bound (show_digits (suc n) n) (show_digits-NoSign (suc n) n (omega arith))
    ∙ parse_digits-show_digits bound (suc n) n (omega arith) fits

parse_digits-lt :
    (bound value v : ℕ) (cs : List ℕ)
    → value < bound
    → parse_digits bound value cs ≡ some v
    → v < bound
unfolding parse_digits
parse_digits-lt bound value v [] small read = ground arith
parse_digits-lt bound value v (c ∷ cs) small read =
    elim (Bool-cases (is_digit c && ltb (value * 10 + (c - 48)) bound)) [
      | inl goes_on ↦
          let rest : parse_digits bound (value * 10 + (c - 48)) cs ≡ some v = rw goes_on at read in
          parse_digits-lt bound (value * 10 + (c - 48)) v cs (ground (arith, goes_on)) rest
      | inr stops ↦ let refused : none ≡ some v = rw stops at read in cc
    ]

-- What is read fits the type.
pub parse_uint-lt :
    (bound v : ℕ) (cs : List ℕ) → 0 < bound → parse_uint bound cs ≡ some v → v < bound
unfolding parse_uint
parse_uint-lt bound v [] pos read = cc
parse_uint-lt bound v (c ∷ []) pos read = parse_digits-lt bound 0 v (c ∷ []) pos read
parse_uint-lt bound v (c ∷ d ∷ cs) pos read = elim (Bool-cases (c == 43)) [
  | inl sign ↦
      let rest : parse_digits bound 0 (d ∷ cs) ≡ some v = rw sign at read in
      parse_digits-lt bound 0 v (d ∷ cs) pos rest
  | inr digit ↦
      let rest : parse_digits bound 0 (c ∷ d ∷ cs) ≡ some v = rw digit at read in
      parse_digits-lt bound 0 v (c ∷ d ∷ cs) pos rest
]
