-- ===== src/Client/Wizard/Tests.antt =====
-- The form of the client at concrete keys.
use mini_tor.Prelude.{ℕ, ◌≡◌, refl, arith, List, [], ◌∷◌, Bool, true, false, bytes_of}
use mini_tor.Client.Config.{TorClientConfig}
use mini_tor.Client.Wizard.{new, enter}
use mini_tor.Client.Wizard.Launched.{IsValid, wizard_loop-IsValid, new-launched}

abbrev any_address : List ℕ → Bool
any_address text = true

abbrev defaults : TorClientConfig
defaults = record {
  socks_addr = bytes_of "127.0.0.1:1080";
  directory_url = bytes_of "http://localhost:8080";
  pool_size = 3;
  hops = 5;
  tui = false;
  max_rebuild_attempts = 3;
}

defaults-IsValid : IsValid any_address defaults
defaults-IsValid = record {
  address = refl;
  url = refl;
  pool_size = omega arith;
  least_hops = omega arith;
  most_hops = omega arith;
  attempts = omega arith;
}

wizard_loop-IsValid_example :
    IsValid any_address (record defaults { tui = true }) × (◌≡◌ {A = Bool} true true)
wizard_loop-IsValid_example =
    wizard_loop-IsValid any_address (new defaults) (enter ∷ []) (record defaults { tui = true })
      (new-launched any_address defaults [] defaults-IsValid)
