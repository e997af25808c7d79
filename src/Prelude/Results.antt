-- ===== src/Prelude/Results.antt =====
-- Rust's `Result<T, E>`, with `?` as the bind of a `do` block.
use mathlib.Core.Path.{◌≡◌, refl, subst}
use mathlib.Core.Logic.{◌⊎◌, inl, inr}
use mathlib.Core.Bool.{Bool, true, false}
use mathlib.Core.Option.{Option, none, some}

pub data Result {ℓ κ} (E : Type ℓ) (A : Type κ) : Type (ℓ ⊔ κ) where
  ok : A → Result E A
  err : E → Result E A

infixl 5 ◌>>=◌ ◌>>◌
abbrev pub ◌>>=◌ {ℓ κ ι} :
    {E : Type ℓ} {A : Type κ} {B : Type ι} → Result E A → (A → Result E B) → Result E B
ok a >>= f = f a
err e >>= f = err e

abbrev pub ◌>>◌ {ℓ κ} : {E : Type ℓ} {B : Type κ} → Result E (Unit {0}) → Result E B → Result E B
m >> k = m >>= λ _. k

-- Rust's `ok_or`.
abbrev pub ok_or {ℓ κ} : {E : Type ℓ} {A : Type κ} → Option A → E → Result E A
ok_or none e = err e
ok_or (some a) e = ok a

-- `if !test { return Err(e); }`
abbrev pub guard {ℓ} : {E : Type ℓ} → Bool → E → Result E (Unit {0})
guard true e = ok tt
guard false e = err e

pub Result-cases {ℓ κ} :
    {E : Type ℓ} {A : Type κ} (r : Result E A) → ((a : A) × (r ≡ ok a)) ⊎ ((e : E) × (r ≡ err e))
Result-cases (ok a) = inl (a, refl)
Result-cases (err e) = inr (e, refl)

-- `map_err`, or the `From` conversion that `?` makes.
abbrev pub map_err {ℓ κ ι} :
    {E : Type ℓ} {F : Type κ} {A : Type ι} → (E → F) → Result E A → Result F A
map_err f (ok a) = ok a
map_err f (err e) = err (f e)

-- A predicate of the value of a result, if it has one.
abbrev pub OnOk {ℓ κ ι} : {E : Type ℓ} {A : Type κ} → (A → Type ι) → Result E A → Type ι
OnOk P (ok a) = P a
OnOk P (err e) = Unit

pub OnOk-of {ℓ κ ι} :
    {E : Type ℓ} {A : Type κ} (P : A → Type ι) (r : Result E A) (a : A) → OnOk P r → r ≡ ok a → P a
OnOk-of P r a p e = subst (OnOk P) e p

pub OnOk-guard {ℓ κ ι} :
    {E : Type ℓ} {A : Type κ} (P : A → Type ι) (b : Bool) (e : E) (k : Result E A)
    → ((b ≡ true) → OnOk P k)
    → OnOk P (guard b e >> k)
OnOk-guard P true e k holds = holds refl
OnOk-guard P false e k holds = tt

pub OnOk-bind {ℓ κ ι μ} :
    {E : Type ℓ} {A : Type κ} {B : Type ι} (P : B → Type μ) (r : Result E A) (f : A → Result E B)
    → ((a : A) → (r ≡ ok a) → OnOk P (f a))
    → OnOk P (r >>= f)
OnOk-bind P (ok a) f holds = holds a refl
OnOk-bind P (err e) f holds = tt

pub OnOk-map_err {ℓ κ ι μ} :
    {E : Type ℓ} {F : Type κ} {A : Type ι} (P : A → Type μ) (g : E → F) (r : Result E A)
    → ((a : A) → (r ≡ ok a) → P a)
    → OnOk P (map_err g r)
OnOk-map_err P g (ok a) holds = holds a refl
OnOk-map_err P g (err e) holds = tt

pub OnOk-weaken {ℓ κ ι μ} :
    {E : Type ℓ} {A : Type κ} (P : A → Type ι) (Q : A → Type μ) (r : Result E A)
    → ((a : A) → P a → Q a)
    → OnOk P r
    → OnOk Q r
OnOk-weaken P Q (ok a) weaker p = weaker a p
OnOk-weaken P Q (err e) weaker p = tt
