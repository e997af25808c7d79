-- ===== src/Discovery/Api/PathRequests.antt =====
-- The paths that GetRandomPath of discovery/src/api/grpc.rs answers with.
use mini_tor.Prelude.{
  ℕ, ◌≡◌, ◌≤◌, refl, ap, ◌∙◌, List, [], ◌∷◌, ◌++◌, length, length-append, map, Bool, Result-cases,
  inl, inr, ok, err, arith,
}
use mini_tor.Types.{IpAddr, NodeDescriptor}
use mini_tor.Net.{Net}
use mini_tor.Proto.{ProtoNodeDescriptor, proto_descriptor}
use mini_tor.Discovery.{NodeRegistry, Insufficient}
use mini_tor.Discovery.Paths.{get_random_path}
use mini_tor.Discovery.PathRules.{IsPath, get_random_path-IsPath}
use mini_tor.Discovery.Api.{unavailable, hop_count, random_path}

length-map_proto :
    ⦃net : Net⦄ (path : List NodeDescriptor) → length (map proto_descriptor path) ≡ length path
length-map_proto [] = refl
length-map_proto (d ∷ ds) = omega (arith, length-map_proto ds)

hop_count-least : (count : ℕ) → (3 ≤ hop_count count) × (count ≤ hop_count count)
unfolding hop_count
hop_count-least count = ground arith

module _ ⦃net : Net⦄ (is_loopback : IpAddr → Bool) (draw : ℕ → ℕ → ℕ) (r : NodeRegistry)
    (count : ℕ) where
  random_path_refused :
      (e : Insufficient)
      → get_random_path is_loopback draw r (hop_count count) ≡ err e
      → random_path is_loopback draw r count ≡ err (unavailable e)
  unfolding random_path
  random_path_refused e refused = rw refused refl

  random_path_chosen :
      (path : List NodeDescriptor)
      → get_random_path is_loopback draw r (hop_count count) ≡ ok path
      → random_path is_loopback draw r count ≡ ok (map proto_descriptor path)
  unfolding random_path
  random_path_chosen path chosen = rw chosen refl

three_hops :
    ⦃net : Net⦄ (is_loopback : IpAddr → Bool) (draw : ℕ → ℕ → ℕ) (r : NodeRegistry) (count : ℕ)
    (nodes : List ProtoNodeDescriptor) (path : List NodeDescriptor)
    → nodes ≡ map proto_descriptor path
    → IsPath is_loopback r.allow_same_ip (hop_count count) path
    → 3 ≤ length nodes
three_hops is_loopback draw r count nodes path same is =
    let least = hop_count-least count in
    let shown : length path ≡ length (is.entry_node ∷ (is.middles ++ is.exit_node ∷ [])) =
      ap (λ (p : List NodeDescriptor). length p) is.shape in
    let there : length nodes ≡ length path =
      ap (λ (p : List ProtoNodeDescriptor). length p) same ∙ length-map_proto path in
    omega (arith, there, shown, is.hops, least, length-append is.middles (is.exit_node ∷ []))

-- A request for a path of any length is answered by the messages of a path with at least three hops, an
-- entry, middles and an exit that share no operator and no IP address that is not allowed to repeat,
-- or by the status that nodes are missing.
pub random_path-IsPath :
    ⦃net : Net⦄ (is_loopback : IpAddr → Bool) (draw : ℕ → ℕ → ℕ) (r : NodeRegistry) (count : ℕ)
    (nodes : List ProtoNodeDescriptor)
    → random_path is_loopback draw r count ≡ ok nodes
    → (path : List NodeDescriptor) × (nodes ≡ map proto_descriptor path)
      × IsPath is_loopback r.allow_same_ip (hop_count count) path
      × (3 ≤ length nodes)
random_path-IsPath is_loopback draw r count nodes answered =
    elim (Result-cases (get_random_path is_loopback draw r (hop_count count))) [
      | inr (e, refused) ↦
          let status = random_path_refused is_loopback draw r count e refused in absurd cc
      | inl (path, chosen) ↦
          let is_path = get_random_path-IsPath is_loopback draw r (hop_count count) path chosen in
          let status = random_path_chosen is_loopback draw r count path chosen in
          let same : nodes ≡ map proto_descriptor path = cc in
          (path, same, is_path, three_hops is_loopback draw r count nodes path same is_path)
    ]
