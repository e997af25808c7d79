-- ===== src/Relay/Wizard/Tests.antt =====
-- The form of a relay at concrete keys.
use mini_tor.Prelude.{
  ℕ, ◌≡◌, ◌≤◌, refl, arith, List, [], ◌∷◌, Bool, true, false, some, none, ok, bytes_of, replicate,
  length-replicate,
}
use mini_tor.Types.{node_type_eq, middle, NodeDescriptor}
use mini_tor.Net.Tests.{toy_net, parse-print}
use mini_tor.Discovery.Tests.{node, a_registry}
use mini_tor.Relay.Config.{RelayConfig, descriptor}
use mini_tor.Relay.Heartbeat.{register_with_directory}
use mini_tor.Relay.Heartbeat.Listed.{IsListed}
use mini_tor.Relay.Wizard.{
  Field, WizardState, new, current, active_fields, down, right, right_in, edit, push_char, typed,
  is_text, Key, key_right, key_down, char, enter, on_key, wizard_loop, waiting, launched,
}
use mini_tor.Relay.Wizard.Launched.{IsValid, new-launched}
use mini_tor.Relay.Wizard.Focus.{wizard_loop-InForm}
use mini_tor.Relay.Wizard.Registered.{wizard_loop-registered}

abbrev any_ip : List ℕ → Bool
any_ip text = true

abbrev defaults : RelayConfig
defaults = record {
  node_type = some middle;
  port = 9001;
  host = bytes_of "10.0.0.9";
  bind_host = bytes_of "10.0.0.9";
  directory_url = bytes_of "http://localhost:8080";
  bandwidth = 1048576;
  heartbeat_interval = 60;
  exit_allow_all = true;
  tui = false;
  operator_id = none;
}

defaults-IsValid : IsValid any_ip defaults
defaults-IsValid = record {
  port = omega arith;
  host = refl;
  url = refl;
  bandwidth = omega arith;
  heartbeat = omega arith;
}

abbrev chosen : RelayConfig
chosen = record defaults {
  node_type = some middle;
  bind_host = bytes_of "0.0.0.0";
  exit_allow_all = false;
  tui = true;
}

-- To the exit, and down to the last field of an exit.
abbrev keys : List Key
keys =
    key_right
    ∷ key_down
    ∷ key_down
    ∷ key_down
    ∷ key_down
    ∷ key_down
    ∷ key_down
    ∷ key_down
    ∷ key_down
    ∷ char b'a'
    ∷ []

abbrev edited : WizardState
edited = record (new defaults) { focused = 7; node_type_idx = 2; operator_id = b'a' ∷ [] }

waits : wizard_loop any_ip (new defaults) keys ≡ waiting edited
unfolding wizard_loop on_key new current active_fields down right right_in edit push_char typed
    is_text
waits = refl

abbrev a_relay : NodeDescriptor
a_relay =
    descriptor chosen middle (9 ∷ []) (node 9 middle 1).address (replicate 32 9) (bytes_of "ab")

new-launched_example : wizard_loop any_ip (new defaults) (enter ∷ []) ≡ launched chosen
unfolding node_type_eq
new-launched_example = new-launched any_ip defaults [] defaults-IsValid

wizard_loop-InForm_example : ((f : Field) × (current edited ≡ some f)) × (2 ≤ 2)
unfolding new
wizard_loop-InForm_example = wizard_loop-InForm any_ip defaults keys edited waits

wizard_loop-registered_example :
    ((register_with_directory ⦃net = toy_net⦄ 5 a_registry a_relay).1 ≡ ok tt)
    × IsListed a_relay 5 (register_with_directory ⦃net = toy_net⦄ 5 a_registry a_relay).0
unfolding node_type_eq
wizard_loop-registered_example =
    wizard_loop-registered any_ip ⦃net = toy_net⦄ (new defaults) (enter ∷ []) chosen middle (9 ∷ [])
      (replicate 32 9) (bytes_of "ab") (node 9 middle 1).address 5 a_registry
      (new-launched any_ip defaults [] defaults-IsValid) refl (length-replicate 32 9)
      (parse-print (node 9 middle 1).address)
