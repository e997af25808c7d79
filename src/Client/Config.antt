-- ===== src/Client/Config.antt =====
-- services/tor-client/src/core/config.rs: the client's configuration and the parsers of its options; and
-- the confirmation of services/tor-client/src/main.rs. Texts are lists of characters.
use mini_tor.Prelude.{
  ℕ, ◌^◌, List, Bool, ◌||◌, Result, ok, err, ltb, if◌then◌else◌, bytes_of, parse_uint, ok_or, ◌>>=◌,
}
use mini_tor.Tls.{eq_ignore_ascii_case}

abbrev pub max_hops : ℕ
max_hops = 10

pub record TorClientConfig : Type 0 where
  pub socks_addr : List ℕ
  pub directory_url : List ℕ
  pub pool_size : ℕ
  pub hops : ℕ
  pub tui : Bool
  pub max_rebuild_attempts : ℕ

pub data OptionError : Type 0 where
  not_an_integer : List ℕ → OptionError
  too_small too_large : ℕ → OptionError

abbrev pub usize : ℕ
usize = 2 ^ 64

unfoldable pub parse_rebuild_attempts : List ℕ → Result OptionError ℕ
parse_rebuild_attempts s = do
  n ← ok_or (parse_uint usize s) (not_an_integer s)
  if ltb n 1 then err (too_small n) else ok n

unfoldable pub parse_hop_count : List ℕ → Result OptionError ℕ
parse_hop_count s = do
  n ← ok_or (parse_uint usize s) (not_an_integer s)
  if ltb n 3 then err (too_small n) else if ltb max_hops n then err (too_large n) else ok n

-- The answer to the question that is asked for the longest circuits; `trim` is std's.
unfoldable pub confirmed : (List ℕ → List ℕ) → List ℕ → Bool
confirmed trim input =
    eq_ignore_ascii_case (trim input) (bytes_of "y")
    || eq_ignore_ascii_case (trim input) (bytes_of "yes")
