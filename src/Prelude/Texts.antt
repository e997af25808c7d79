-- ===== src/Prelude/Texts.antt =====
-- What the command lines and the forms do with text, a list of characters, and with the numbers in it.
use Prim.Native.Nat.{ℕ, ◌≤◌, ◌<◌}
use mathlib.Core.Logic.{inl, inr}
use mathlib.Core.Bool.{Bool, true, false, ◌&&◌, ◌||◌}
use mathlib.Core.Option.{Option, none, some}
use mathlib.Core.List.{List, [], ◌∷◌}
use native.Mathlib.Omega.{arith}
use mini_tor.Prelude.Tests.{leb, ◌==◌, if◌then◌else◌, Bool-cases, Option-cases}
use mini_tor.Prelude.Results.{Result, ok, err, OnOk}
use mini_tor.Prelude.Bytes.{bytes_of}
use mini_tor.Prelude.Decimal.{parse_uint, parse_uint-lt}

-- `String::pop`
abbrev pub without_last : List ℕ → List ℕ
without_last [] = []
without_last (c ∷ []) = []
without_last (c ∷ d ∷ cs) = c ∷ without_last (d ∷ cs)

abbrev pub starts_with : List ℕ → List ℕ → Bool
starts_with text [] = true
starts_with [] (p ∷ ps) = false
starts_with (c ∷ cs) (p ∷ ps) = c == p && starts_with cs ps

abbrev pub is_http : List ℕ → Bool
is_http url = starts_with url (bytes_of "http://") || starts_with url (bytes_of "https://")

-- A number that was read and is at least 1.
abbrev pub positive {ℓ} : {E : Type ℓ} → Option ℕ → E → Result E ℕ
positive none e = err e
positive (some n) e = if leb 1 n then ok n else err e

abbrev pub IsPositive : ℕ → ℕ → Type 0
IsPositive bound n = (1 ≤ n) × (n < bound)

pub positive-IsPositive {ℓ} :
    {E : Type ℓ} (bound : ℕ) (text : List ℕ) (e : E)
    → 0 < bound
    → OnOk (IsPositive bound) (positive (parse_uint bound text) e)
positive-IsPositive bound text e some_fit = elim (Option-cases (parse_uint bound text)) [
  | inl unread ↦ rw unread tt
  | inr (n, read) ↦ elim (Bool-cases (leb 1 n)) [
    | inl large ↦ rw (read, large) (ground (arith, large), parse_uint-lt bound n text some_fit read)
    | inr small ↦ rw (read, small) tt
  ]
]
