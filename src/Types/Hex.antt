-- ===== src/Types/Hex.antt =====
-- services/common/src/types.rs: `PublicKey` to and from hexadecimal text, and the names of `NodeType`.
-- Texts are their bytes.
use mini_tor.Prelude.{
  ℕ, ◌+◌, ◌-◌, ◌*◌, ◌/◌, ◌%◌, ◌≡◌, ◌<◌, refl, List, [], ◌∷◌, length, Bool, true, false, ◌&&◌, ◌==◌,
  leb, if◌then◌else◌, Option, none, some, all_below, all_below-holds, bytes_of, bytes_eq, ==_iff,
  arith,
}
use mini_tor.Types.{NodeType, entry, middle, exit}

unfoldable pub show_node_type : NodeType → List ℕ
show_node_type entry = bytes_of "entry"
show_node_type middle = bytes_of "middle"
show_node_type exit = bytes_of "exit"

-- `to_lowercase` is an argument.
unfoldable pub node_type_from_str : (List ℕ → List ℕ) → List ℕ → Option NodeType
node_type_from_str to_lowercase s =
    let t = to_lowercase s in
    if bytes_eq t (bytes_of "entry")
    then some entry
    else if bytes_eq t (bytes_of "middle")
    then some middle
    else if bytes_eq t (bytes_of "exit")
    then some exit
    else none

-- A digit of `{:02x}`.
unfoldable pub hex_digit : ℕ → ℕ
hex_digit n = if leb 10 n then 87 + n else 48 + n

unfoldable pub to_hex : List ℕ → List ℕ
to_hex [] = []
to_hex (b ∷ bs) = hex_digit (b / 16) ∷ hex_digit (b % 16) ∷ to_hex bs

-- `char::to_digit(16)`
unfoldable pub to_digit : ℕ → Option ℕ
to_digit c =
    if leb 48 c && leb c 57
    then some (c - 48)
    else if leb 65 c && leb c 70
    then some (c - 55)
    else if leb 97 c && leb c 102
    then some (c - 87)
    else none

abbrev two_digits : Option ℕ → Option ℕ → Option ℕ
two_digits (some a) (some b) = some (a * 16 + b)
two_digits (some a) none = none
two_digits none b = none

-- `u8::from_str_radix` of two characters: a plus sign may stand before one digit.
unfoldable pub from_str_radix : ℕ → ℕ → Option ℕ
from_str_radix c d = if c == 43 then to_digit d else two_digits (to_digit c) (to_digit d)

abbrev cons_both : Option ℕ → Option (List ℕ) → Option (List ℕ)
cons_both (some b) (some bs) = some (b ∷ bs)
cons_both (some b) none = none
cons_both none bs = none

-- The pairs of characters, one byte each.
unfoldable pub hex_pairs : List ℕ → Option (List ℕ)
hex_pairs [] = some []
hex_pairs (c ∷ []) = none
hex_pairs (c ∷ d ∷ rest) = cons_both (from_str_radix c d) (hex_pairs rest)

unfoldable pub from_hex : List ℕ → Option (List ℕ)
from_hex hex = if length hex == 64 then hex_pairs hex else none

abbrev pub AllBytes : List ℕ → Type 0
AllBytes [] = Unit
AllBytes (b ∷ bs) = (b < 256) × AllBytes bs

abbrev is_value : ℕ → Option ℕ → Bool
is_value b none = false
is_value b (some v) = v == b

abbrev byte_comes_back : ℕ → Bool
byte_comes_back b = is_value b (from_str_radix (hex_digit (b / 16)) (hex_digit (b % 16)))

is_value-some : (b : ℕ) (o : Option ℕ) → is_value b o ≡ true → o ≡ some b
is_value-some b none e = cc
is_value-some b (some v) e = let same : v ≡ b = (==_iff v b).0 e in rw same refl

every_byte : all_below byte_comes_back 256 ≡ true
unfolding from_str_radix to_digit hex_digit
every_byte = refl

from_str_radix-hex_digit :
    (b : ℕ) → b < 256 → from_str_radix (hex_digit (b / 16)) (hex_digit (b % 16)) ≡ some b
from_str_radix-hex_digit b small =
    is_value-some b (from_str_radix (hex_digit (b / 16)) (hex_digit (b % 16)))
      (all_below-holds byte_comes_back 256 b every_byte small)

length-to_hex : (bs : List ℕ) → length (to_hex bs) ≡ 2 * length bs
unfolding to_hex
length-to_hex [] = refl
length-to_hex (b ∷ bs) = omega (arith, length-to_hex bs)

pub hex_pairs-to_hex : (bs : List ℕ) → AllBytes bs → hex_pairs (to_hex bs) ≡ some bs
unfolding hex_pairs to_hex
hex_pairs-to_hex [] all = refl
hex_pairs-to_hex (b ∷ bs) (small, all) =
    rw (from_str_radix-hex_digit b small, hex_pairs-to_hex bs all) refl

-- A public key of 32 bytes comes back from its hexadecimal text, which has 64 characters.
pub from_hex-to_hex :
    (key : List ℕ)
    → length key ≡ 32
    → AllBytes key
    → (from_hex (to_hex key) ≡ some key) × (length (to_hex key) ≡ 64)
unfolding from_hex
from_hex-to_hex key n all =
    let chars : length (to_hex key) ≡ 64 = omega (arith, length-to_hex key, n) in
    (rw (chars, hex_pairs-to_hex key all) refl, chars)
