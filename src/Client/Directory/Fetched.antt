-- ===== src/Client/Directory/Fetched.antt =====
-- A path on its way from the registry (discovery/src/core/registry.rs) over the API (grpc.rs) to the
-- client (tor-client/src/client/mod.rs).
use mini_tor.Prelude.{
  ℕ, ◌%◌, ◌^◌, ◌≡◌, ◌≤◌, ◌<◌, refl, ap, true, Bool, List, [], ◌∷◌, ◌++◌, ok, length, length-append,
  map, ◌==◌, arith,
}
use mini_tor.Types.{IpAddr, NodeDescriptor}
use mini_tor.Net.{Net}
use mini_tor.Proto.{proto_descriptor}
use mini_tor.Proto.RoundTrip.{IsOnWire, descriptor_of-proto_descriptor}
use mini_tor.Discovery.{NodeRegistry}
use mini_tor.Discovery.Paths
use mini_tor.Discovery.PathRules.{IsPath, get_random_path-IsPath}
use mini_tor.Discovery.Api.{random_path, hop_count}
use mini_tor.Client.Directory.{convert_all, get_random_path}

module _ ⦃net : Net⦄ where
  abbrev pub AllOnWire : List NodeDescriptor → Type 0
  AllOnWire [] = Unit
  AllOnWire (d ∷ ds) = IsOnWire d × AllOnWire ds

  convert_all-map :
      (ds : List NodeDescriptor) → AllOnWire ds → convert_all (map proto_descriptor ds) ≡ ok ds
  unfolding convert_all
  convert_all-map [] all = refl
  convert_all-map (d ∷ ds) (one, all) =
      rw (descriptor_of-proto_descriptor d one.key one.policy one.address, convert_all-map ds all)
        refl

  -- A client that asks the service for a path of 3 hops or more, fewer than 2^32, gets just the path
  -- that the registry chooses, which keeps the path rules, if protobuf can carry its descriptors.
  pub get_random_path-random_path :
      (is_loopback : IpAddr → Bool) (draw : ℕ → ℕ → ℕ) (r : NodeRegistry) (hops : ℕ)
      (path : List NodeDescriptor)
      → 3 ≤ hops
      → hops < 2 ^ 32
      → Paths.get_random_path is_loopback draw r hops ≡ ok path
      → AllOnWire path
      → (get_random_path (random_path is_loopback draw r) hops ≡ ok path)
        × IsPath is_loopback r.allow_same_ip hops path
  unfolding get_random_path random_path hop_count
  get_random_path-random_path is_loopback draw r hops path least most chosen carried =
      let is = get_random_path-IsPath is_loopback draw r hops path chosen in
      let fits : hops % 2 ^ 32 ≡ hops = omega (arith, most) in
      let asked : hop_count hops ≡ hops = ground (arith, least) in
      let shown : length path ≡ length (is.entry_node ∷ (is.middles ++ is.exit_node ∷ [])) =
        ap (λ (p : List NodeDescriptor). length p) is.shape in
      let all : (length path == hops) ≡ true =
        ground (arith, shown, is.hops, least, length-append is.middles (is.exit_node ∷ [])) in
      (rw (fits, asked, chosen, convert_all-map path carried, all) refl, is)
