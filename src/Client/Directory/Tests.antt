-- ===== src/Client/Directory/Tests.antt =====
-- A path that is fetched.
use mini_tor.Prelude.{ℕ, ◌≡◌, arith, ok, false, length-replicate}
use mini_tor.Types.{NodeType, entry, middle, exit}
use mini_tor.Net.Tests.{toy_net, parse-print}
use mini_tor.Discovery.PathRules.{IsPath}
use mini_tor.Discovery.Tests.{node, a_registry, lowest, no_loopback, a_path, path_found}
use mini_tor.Discovery.Api.{random_path}
use mini_tor.Client.Directory.{get_random_path}
use mini_tor.Client.Directory.Fetched.{get_random_path-random_path}
use mini_tor.Proto.RoundTrip.{IsOnWire}

node-IsOnWire :
    (id : ℕ) (kind : NodeType) (bandwidth : ℕ) → IsOnWire ⦃net = toy_net⦄ (node id kind bandwidth)
node-IsOnWire id kind bandwidth = record {
  key = length-replicate 32 id;
  policy = tt;
  address = parse-print (node id kind bandwidth).address;
}

get_random_path-random_path_example :
    (get_random_path ⦃net = toy_net⦄ (random_path ⦃net = toy_net⦄ no_loopback lowest a_registry) 3
      ≡ ok a_path)
    × IsPath no_loopback false 3 a_path
get_random_path-random_path_example =
    get_random_path-random_path ⦃net = toy_net⦄ no_loopback lowest a_registry 3 a_path (omega arith)
      (omega arith) path_found
      (node-IsOnWire 1 entry 5, (node-IsOnWire 2 middle 7, (node-IsOnWire 4 exit 0, tt)))
