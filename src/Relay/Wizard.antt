-- ===== src/Relay/Wizard.antt =====
-- services/relay-node/src/wizard/mod.rs: the form in which a relay is configured. Drawing and the
-- terminal are not modelled; what the user presses is a list of keys. Texts are lists of characters, and
-- that a text parses as an IP address is an argument.
mod Launched
mod Focus
mod Registered
pub mod Tests
use mini_tor.Prelude.{
  ℕ, ◌+◌, ◌-◌, ◌^◌, List, [], ◌∷◌, ◌++◌, length, Bool, true, false, not, ◌&&◌, Option, none, some,
  Result, ok, err, ltb, leb, ◌==◌, if◌then◌else◌, bytes_of, bytes_eq, parse_uint, to_string, guard,
  ok_or, ◌>>=◌, ◌>>◌, get_elem?, without_last, is_http, positive,
}
use mini_tor.Types.{NodeType, entry, middle, exit, node_type_eq}
use mini_tor.Discovery.Nodes.{is_empty}
use mini_tor.Relay.Config.{RelayConfig}

abbrev pub node_types : List NodeType
node_types = entry ∷ middle ∷ exit ∷ []

pub data Field : Type 0 where
  node_type_field port_field host_field directory_url_field bandwidth_field heartbeat_field : Field
  exit_allow_all_field operator_id_field : Field

unfoldable pub is_text : Field → Bool
is_text node_type_field = false
is_text exit_allow_all_field = false
is_text _ = true

pub data WizardError : Type 0 where
  no_node_type bad_port bad_host bad_directory_url bad_bandwidth bad_heartbeat : WizardError

pub record WizardState : Type 0 where
  pub focused : ℕ
  pub node_type_idx : ℕ
  pub port : List ℕ
  pub host : List ℕ
  pub directory_url : List ℕ
  pub bandwidth : List ℕ
  pub heartbeat : List ℕ
  pub exit_allow_all : Bool
  pub operator_id : List ℕ
  pub error : Option WizardError

abbrev pub index_of : Option NodeType → ℕ
index_of none = 0
index_of (some entry) = 0
index_of (some middle) = 1
index_of (some exit) = 2

abbrev is_exit : Option NodeType → Bool
is_exit none = false
is_exit (some t) = node_type_eq t exit

abbrev pub or_empty : Option (List ℕ) → List ℕ
or_empty none = []
or_empty (some t) = t

unfoldable pub new : RelayConfig → WizardState
new defaults = record {
  focused = 0;
  node_type_idx = index_of defaults.node_type;
  port = to_string defaults.port;
  host = defaults.host;
  directory_url = defaults.directory_url;
  bandwidth = to_string defaults.bandwidth;
  heartbeat = to_string defaults.heartbeat_interval;
  exit_allow_all = is_exit defaults.node_type && defaults.exit_allow_all;
  operator_id = or_empty defaults.operator_id;
  error = none;
}

-- The field for exits stands before the last one.
unfoldable pub active_fields : WizardState → List Field
active_fields s =
    node_type_field
    ∷ port_field
    ∷ host_field
    ∷ directory_url_field
    ∷ bandwidth_field
    ∷ heartbeat_field
    ∷ (if s.node_type_idx == 2
        then exit_allow_all_field ∷ operator_id_field ∷ []
        else operator_id_field ∷ [])

unfoldable pub current : WizardState → Option Field
current s = get_elem? (active_fields s) s.focused

unfoldable pub up : WizardState → WizardState
up s = if ltb 0 s.focused then record s { focused = s.focused - 1 } else s

unfoldable pub down : WizardState → WizardState
down s =
    if ltb s.focused (length (active_fields s) - 1) then record s { focused = s.focused + 1 } else s

unfoldable pub left_in : Option Field → WizardState → WizardState
left_in (some node_type_field) s =
    if ltb 0 s.node_type_idx then record s { node_type_idx = s.node_type_idx - 1 } else s
left_in (some exit_allow_all_field) s = record s { exit_allow_all = false }
left_in _ s = s

unfoldable pub left : WizardState → WizardState
left s = left_in (current s) s

unfoldable pub right_in : Option Field → WizardState → WizardState
right_in (some node_type_field) s =
    if ltb s.node_type_idx (length node_types - 1)
    then record s { node_type_idx = s.node_type_idx + 1 }
    else s
right_in (some exit_allow_all_field) s = record s { exit_allow_all = true }
right_in _ s = s

unfoldable pub right : WizardState → WizardState
right s = right_in (current s) s

-- An edit of the text in focus clears the error.
unfoldable pub edit : (List ℕ → List ℕ) → Option Field → WizardState → WizardState
edit f none s = s
edit f (some node_type_field) s = s
edit f (some exit_allow_all_field) s = s
edit f (some port_field) s = record s { port = f s.port; error = none }
edit f (some host_field) s = record s { host = f s.host; error = none }
edit f (some directory_url_field) s = record s { directory_url = f s.directory_url; error = none }
edit f (some bandwidth_field) s = record s { bandwidth = f s.bandwidth; error = none }
edit f (some heartbeat_field) s = record s { heartbeat = f s.heartbeat; error = none }
edit f (some operator_id_field) s = record s { operator_id = f s.operator_id; error = none }

unfoldable pub push_char : ℕ → WizardState → WizardState
push_char c s = edit (λ t. t ++ c ∷ []) (current s) s

unfoldable pub pop_char : WizardState → WizardState
pop_char s = edit without_last (current s) s

abbrev pub is_some_and_text : Option Field → Bool
is_some_and_text none = false
is_some_and_text (some f) = is_text f

-- A character that is typed goes to a text only.
unfoldable pub typed : ℕ → WizardState → WizardState
typed c s = if is_some_and_text (current s) then push_char c s else s

abbrev pub operator_of : List ℕ → Option (List ℕ)
operator_of id = if is_empty id then none else some id

-- A key that is pressed; `other` stands for all other events and keys, and for none in time.
pub data Key : Type 0 where
  esc key_up back_tab key_down tab key_left key_right backspace enter other : Key
  char : ℕ → Key

pub data Outcome : Type 0 where
  quit : Outcome
  launched : RelayConfig → Outcome
  waiting : WizardState → Outcome

abbrev pub continue : Outcome → (WizardState → Outcome) → Outcome
continue quit next = quit
continue (launched config) next = launched config
continue (waiting s) next = next s

module _ (is_ip : List ℕ → Bool) where
  unfoldable pub checked : WizardState → Result WizardError RelayConfig
  checked s = do
    node_type ← ok_or (get_elem? node_types s.node_type_idx) no_node_type
    port ← positive (parse_uint (2 ^ 16) s.port) bad_port
    guard (is_ip s.host) bad_host
    guard (is_http s.directory_url) bad_directory_url
    bandwidth ← positive (parse_uint (2 ^ 64) s.bandwidth) bad_bandwidth
    heartbeat_interval ← positive (parse_uint (2 ^ 64) s.heartbeat) bad_heartbeat
    ok (record {
      node_type = some node_type;
      port = port;
      host = s.host;
      bind_host = bytes_of "0.0.0.0";
      directory_url = s.directory_url;
      bandwidth = bandwidth;
      heartbeat_interval = heartbeat_interval;
      exit_allow_all = s.exit_allow_all;
      tui = true;
      operator_id = operator_of s.operator_id;
    })

  abbrev noted : WizardState → Result WizardError RelayConfig → WizardState × Option RelayConfig
  noted s (ok config) = (record s { error = none }, some config)
  noted s (err e) = (record s { error = some e }, none)

  unfoldable pub validate : WizardState → WizardState × Option RelayConfig
  validate s = noted s (checked s)

  abbrev entered : WizardState × Option RelayConfig → Outcome
  entered (s, some config) = launched config
  entered (s, none) = waiting s

  unfoldable pub on_key : WizardState → Key → Outcome
  on_key s esc = quit
  on_key s key_up = waiting (up s)
  on_key s back_tab = waiting (up s)
  on_key s key_down = waiting (down s)
  on_key s tab = waiting (down s)
  on_key s key_left = waiting (left s)
  on_key s key_right = waiting (right s)
  on_key s backspace = waiting (pop_char s)
  on_key s enter = entered (validate s)
  on_key s (char c) = waiting (typed c s)
  on_key s other = waiting s

  unfoldable pub wizard_loop : WizardState → List Key → Outcome
  wizard_loop s [] = waiting s
  wizard_loop s (k ∷ ks) = continue (on_key s k) (λ s'. wizard_loop s' ks)
