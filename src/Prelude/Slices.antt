-- ===== src/Prelude/Slices.antt =====
-- `slice.get(lo..hi)` and `slice.get_mut(lo..hi)` with `copy_from_slice`.
use Prim.Native.Nat.{ℕ, ◌+◌, ◌-◌, ◌≤◌}
use mathlib.Core.Path.{◌≡◌, sym, ap, ◌∙◌}
use mathlib.Core.Option.{Option, none, some}
use mathlib.Core.List.{List, ◌++◌, append_assoc}
use native.Mathlib.Omega.{arith}
use mini_tor.Prelude.Tests.{leb, if◌then◌else◌, le→leb}
use mini_tor.Prelude.Lists.{length, take, drop, length-append, take-append, drop-append}

module _ {ℓ} {A : Type ℓ} where
  -- `xs.get(lo..hi)` for `lo ≤ hi`
  unfoldable pub slice : ℕ → ℕ → List A → Option (List A)
  slice lo hi xs = if leb hi (length xs) then some (take (hi - lo) (drop lo xs)) else none

  -- `if let Some(s) = xs.get_mut(lo..hi) { s.copy_from_slice(src) }`
  unfoldable pub write_slice : ℕ → ℕ → List A → List A → List A
  write_slice lo hi src xs = if leb hi (length xs) then take lo xs ++ (src ++ drop hi xs) else xs

  append_assoc_sym : (xs ys zs : List A) → xs ++ (ys ++ zs) ≡ (xs ++ ys) ++ zs
  append_assoc_sym xs ys zs = sym (append_assoc xs ys zs)

  pub slice-append :
      (pre mid post : List A) (lo hi : ℕ)
      → lo ≡ length pre
      → hi ≡ length pre + length mid
      → slice lo hi (pre ++ (mid ++ post)) ≡ some mid
  unfolding slice
  slice-append pre mid post lo hi a b =
      let n : hi ≤ length (pre ++ (mid ++ post)) =
        omega (arith, length-append pre (mid ++ post), length-append mid post) in
      rw (le→leb hi _ n, drop-append pre (mid ++ post) lo a)
        (ap some (take-append mid post (hi - lo) (omega arith)))

  pub write_slice-append :
      (pre old post src : List A) (lo hi : ℕ)
      → lo ≡ length pre
      → hi ≡ length pre + length old
      → write_slice lo hi src (pre ++ (old ++ post)) ≡ pre ++ (src ++ post)
  unfolding write_slice
  write_slice-append pre old post src lo hi a b =
      let n : hi ≤ length (pre ++ (old ++ post)) =
        omega (arith, length-append pre (old ++ post), length-append old post) in
      let rest : drop hi (pre ++ (old ++ post)) ≡ post =
        ap (drop hi) (append_assoc_sym pre old post)
        ∙ drop-append (pre ++ old) post hi (omega (arith, length-append pre old)) in
      rw (le→leb hi _ n, take-append pre (old ++ post) lo a, rest)

  -- A read past the end of the list fails, and any other read succeeds.
  pub slice-IsSome :
      (lo hi : ℕ) (xs : List A)
      → hi ≤ length xs
      → slice lo hi xs ≡ some (take (hi - lo) (drop lo xs))
  unfolding slice
  slice-IsSome lo hi xs h = rw (le→leb hi _ h)
