-- ===== src/Metrics/Format.antt =====
-- services/common/src/metrics.rs: directions, and numbers as texts. A text is a list of characters. One
-- decimal of a quotient of floats, `{:.1}`, is an argument.
use mini_tor.Prelude.{
  ℕ, ◌*◌, ◌/◌, ◌%◌, List, ◌∷◌, ◌++◌, leb, ltb, if◌then◌else◌, bytes_of, to_string,
}

pub data Direction : Type 0 where
  forward backward : Direction

unfoldable pub show_direction : Direction → List ℕ
show_direction forward = bytes_of "fwd"
show_direction backward = bytes_of "bwd"

abbrev kb : ℕ
kb = 1024

abbrev mb : ℕ
mb = 1024 * kb

abbrev gb : ℕ
gb = 1024 * mb

unfoldable pub format_bytes : (ℕ → ℕ → List ℕ) → ℕ → List ℕ
format_bytes one_decimal bytes =
    if leb gb bytes
    then one_decimal bytes gb ++ bytes_of " GB"
    else if leb mb bytes
    then one_decimal bytes mb ++ bytes_of " MB"
    else if leb kb bytes
    then one_decimal bytes kb ++ bytes_of " KB"
    else to_string bytes ++ bytes_of " B"

-- The arguments of these two are in seconds.
unfoldable pub format_duration : ℕ → List ℕ
format_duration secs =
    if ltb secs 60
    then to_string secs ++ bytes_of "s"
    else if ltb secs 3600
    then to_string (secs / 60) ++ (bytes_of "m" ++ (to_string (secs % 60) ++ bytes_of "s"))
    else to_string (secs / 3600) ++ (bytes_of "h" ++ (to_string (secs % 3600 / 60) ++ bytes_of "m"))

-- `{:02}`
abbrev two_digits : ℕ → List ℕ
two_digits n = if ltb n 10 then b'0' ∷ to_string n else to_string n

unfoldable pub format_timestamp : ℕ → List ℕ
format_timestamp secs =
    bytes_of "+"
    ++ (to_string (secs / 3600)
        ++ (bytes_of ":"
            ++ (two_digits (secs % 3600 / 60) ++ (bytes_of ":" ++ two_digits (secs % 60)))))
