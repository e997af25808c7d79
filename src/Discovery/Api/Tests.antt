-- ===== src/Discovery/Api/Tests.antt =====
-- Requests to a concrete registry.
use mini_tor.Prelude.{◌≡◌, refl, [], ◌∷◌, map, false, ok}
use mini_tor.Net.Tests.{toy_net}
use mini_tor.Proto.{proto_descriptor}
use mini_tor.Proto.Tests.{on_wire}
use mini_tor.Discovery.{NodeRegistry}
use mini_tor.Discovery.Tests.{a_registry, lowest, no_loopback, a_path, path_found}
use mini_tor.Discovery.Api.{random_path, hop_count}
use mini_tor.Discovery.Api.Reachable.{
  IsSound, Change, empty, then_change, registration, removal, cleanup, change, Reachable-IsSound,
}

abbrev nothing : NodeRegistry
nothing = record { nodes = []; allow_same_ip = false }

abbrev changed : Change ⦃net = toy_net⦄ → NodeRegistry → NodeRegistry
changed c r = change ⦃net = toy_net⦄ r c

Reachable-IsSound_example : IsSound (
    changed
      (cleanup 60 100)
      (changed (removal (9 ∷ [])) (changed (registration 5 on_wire) nothing)))
Reachable-IsSound_example = Reachable-IsSound ⦃net = toy_net⦄ (
    then_change (cleanup 60 100)
      (then_change (removal (9 ∷ [])) (then_change (registration 5 on_wire) empty)))

answered :
    random_path ⦃net = toy_net⦄ no_loopback lowest a_registry 0
    ≡ ok (map (proto_descriptor ⦃net = toy_net⦄) a_path)
unfolding random_path hop_count
answered = rw path_found refl
