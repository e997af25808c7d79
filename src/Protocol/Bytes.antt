-- ===== src/Protocol/Bytes.antt =====
-- Big-endian bytes of u16 and u32, as Rust's `to_be_bytes` and `from_be_bytes`.
use mini_tor.Prelude.{ℕ, ◌+◌, ◌*◌, ◌/◌, ◌%◌, ◌^◌, ◌<◌, ◌≡◌, List, [], ◌∷◌, arith}

unfoldable pub be16 : ℕ → List ℕ
be16 n = (n / 256 % 256) ∷ (n % 256) ∷ []

unfoldable pub be32 : ℕ → List ℕ
be32 n = (n / 16777216 % 256) ∷ (n / 65536 % 256) ∷ (n / 256 % 256) ∷ (n % 256) ∷ []

unfoldable pub from_be_acc : ℕ → List ℕ → ℕ
from_be_acc acc [] = acc
from_be_acc acc (b ∷ bs) = from_be_acc (acc * 256 + b) bs

unfoldable pub from_be : List ℕ → ℕ
unfolding from_be_acc
from_be bs = from_be_acc 0 bs

pub from_be-be16 : (n : ℕ) → n < 2 ^ 16 → from_be (be16 n) ≡ n
unfolding from_be be16
from_be-be16 n h = omega arith

pub from_be-be32 : (n : ℕ) → n < 2 ^ 32 → from_be (be32 n) ≡ n
unfolding from_be be32
from_be-be32 n h = omega arith
