-- ===== src/Client/Wizard.antt =====
-- services/tor-client/src/wizard/mod.rs: the form in which the client is configured. Drawing and the
-- terminal are not modelled; what the user presses is a list of keys. Texts are lists of characters, and
-- that a text parses as a socket address is an argument.
mod Launched
pub mod Tests
use mini_tor.Prelude.{
  get_elem?, without_last, is_http, positive, ℕ, ◌+◌, ◌-◌, List, [], ◌∷◌, ◌++◌, length, Bool, true,
  false, not, ◌&&◌, ◌||◌, Option, none, some, Result, ok, err, ltb, leb, ◌==◌, if◌then◌else◌,
  bytes_of, parse_uint, to_string, guard, ok_or, ◌>>=◌, ◌>>◌,
}
use mini_tor.Client.Config.{TorClientConfig, max_hops, usize}

pub data Field : Type 0 where
  socks_addr_field directory_url_field pool_size_field hops_field max_rebuild_field : Field

abbrev pub fields : List Field
fields =
    socks_addr_field ∷ directory_url_field ∷ pool_size_field ∷ hops_field ∷ max_rebuild_field ∷ []

pub data WizardError : Type 0 where
  bad_socks_addr bad_directory_url bad_pool_size bad_hops bad_rebuild_attempts : WizardError
  hops_too_small hops_too_large : ℕ → WizardError

pub record WizardState : Type 0 where
  pub focused : ℕ
  pub socks_addr : List ℕ
  pub directory_url : List ℕ
  pub pool_size : List ℕ
  pub hops : List ℕ
  pub max_rebuild_attempts : List ℕ
  pub error : Option WizardError

unfoldable pub new : TorClientConfig → WizardState
new defaults = record {
  focused = 0;
  socks_addr = defaults.socks_addr;
  directory_url = defaults.directory_url;
  pool_size = to_string defaults.pool_size;
  hops = to_string defaults.hops;
  max_rebuild_attempts = to_string defaults.max_rebuild_attempts;
  error = none;
}

unfoldable pub current : WizardState → Option Field
current s = get_elem? fields s.focused

unfoldable pub up : WizardState → WizardState
up s = if ltb 0 s.focused then record s { focused = s.focused - 1 } else s

unfoldable pub down : WizardState → WizardState
down s = if ltb s.focused (length fields - 1) then record s { focused = s.focused + 1 } else s

-- An edit of the text in focus clears the error.
unfoldable pub edit : (List ℕ → List ℕ) → Option Field → WizardState → WizardState
edit f none s = s
edit f (some socks_addr_field) s = record s { socks_addr = f s.socks_addr; error = none }
edit f (some directory_url_field) s = record s { directory_url = f s.directory_url; error = none }
edit f (some pool_size_field) s = record s { pool_size = f s.pool_size; error = none }
edit f (some hops_field) s = record s { hops = f s.hops; error = none }
edit f (some max_rebuild_field) s = record s {
  max_rebuild_attempts = f s.max_rebuild_attempts;
  error = none;
}

unfoldable pub push_char : ℕ → WizardState → WizardState
push_char c s = edit (λ t. t ++ c ∷ []) (current s) s

unfoldable pub pop_char : WizardState → WizardState
pop_char s = edit without_last (current s) s

abbrev checked_hops : Option ℕ → Result WizardError ℕ
checked_hops none = err bad_hops
checked_hops (some h) =
    if leb 3 h && leb h max_hops
    then ok h
    else if ltb h 3
    then err (hops_too_small h)
    else err (hops_too_large h)

-- A key that is pressed; `other` stands for all other events and keys, and for none in time.
pub data Key : Type 0 where
  esc key_up back_tab key_down tab backspace enter other : Key
  char : ℕ → Key

pub data Outcome : Type 0 where
  quit : Outcome
  launched : TorClientConfig → Outcome
  waiting : WizardState → Outcome

abbrev pub continue : Outcome → (WizardState → Outcome) → Outcome
continue quit next = quit
continue (launched config) next = launched config
continue (waiting s) next = next s

module _ (is_socket_addr : List ℕ → Bool) where
  unfoldable pub checked : WizardState → Result WizardError TorClientConfig
  checked s = do
    guard (is_socket_addr s.socks_addr) bad_socks_addr
    guard (is_http s.directory_url) bad_directory_url
    pool_size ← positive (parse_uint usize s.pool_size) bad_pool_size
    hops ← checked_hops (parse_uint usize s.hops)
    attempts ← positive (parse_uint usize s.max_rebuild_attempts) bad_rebuild_attempts
    ok (record {
      socks_addr = s.socks_addr;
      directory_url = s.directory_url;
      pool_size = pool_size;
      hops = hops;
      tui = true;
      max_rebuild_attempts = attempts;
    })

  abbrev noted :
      WizardState → Result WizardError TorClientConfig → WizardState × Option TorClientConfig
  noted s (ok config) = (record s { error = none }, some config)
  noted s (err e) = (record s { error = some e }, none)

  unfoldable pub validate : WizardState → WizardState × Option TorClientConfig
  validate s = noted s (checked s)

  abbrev entered : WizardState × Option TorClientConfig → Outcome
  entered (s, some config) = launched config
  entered (s, none) = waiting s

  unfoldable pub on_key : WizardState → Key → Outcome
  on_key s esc = quit
  on_key s key_up = waiting (up s)
  on_key s back_tab = waiting (up s)
  on_key s key_down = waiting (down s)
  on_key s tab = waiting (down s)
  on_key s backspace = waiting (pop_char s)
  on_key s enter = entered (validate s)
  on_key s (char c) = waiting (push_char c s)
  on_key s other = waiting s

  unfoldable pub wizard_loop : WizardState → List Key → Outcome
  wizard_loop s [] = waiting s
  wizard_loop s (k ∷ ks) = continue (on_key s k) (λ s'. wizard_loop s' ks)
