-- ===== src/Proto/RoundTrip.antt =====
-- The conversions of proto/src/lib.rs, there and back.
use mini_tor.Prelude.{
  ℕ, ◌≡◌, ◌<◌, ◌^◌, ◌%◌, refl, ap₂, List, [], ◌∷◌, map, Option, none, some, ok, length, arith,
}
use mini_tor.Types.{NodeType, IpAddr, v4, v6, ExitPolicy, NodeDescriptor}
use mini_tor.Net.{Net}
use mini_tor.Proto
use mini_tor.Proto.{
  Invalid, ip_to_bytes, ip_from_bytes, ips_from_bytes, proto_exit_policy, as_u16, exit_policy_of,
  proto_node_type, node_type_of, enum_number, from_enum_number, proto_public_key, public_key_of,
  proto_descriptor, descriptor_of,
}

-- 4 octets, or 16.
abbrev pub HasOctets : IpAddr → Type 0
HasOctets (v4 octets) = length octets ≡ 4
HasOctets (v6 octets) = length octets ≡ 16

abbrev pub AllHaveOctets : List IpAddr → Type 0
AllHaveOctets [] = Unit
AllHaveOctets (ip ∷ ips) = HasOctets ip × AllHaveOctets ips

abbrev pub AllU16 : List ℕ → Type 0
AllU16 [] = Unit
AllU16 (p ∷ ps) = (p < 2 ^ 16) × AllU16 ps

-- The fields of the Rust type: ports are u16, and an address has its octets.
pub record IsPolicy (policy : ExitPolicy) : Type 0 where
  pub allowed_u16 : AllU16 policy.allowed_ports
  pub blocked_u16 : AllU16 policy.blocked_ports
  pub allowed_octets : AllHaveOctets policy.allowed_ips
  pub blocked_octets : AllHaveOctets policy.blocked_ips

abbrev pub IsPolicyIfAny : Option ExitPolicy → Type 0
IsPolicyIfAny none = Unit
IsPolicyIfAny (some policy) = IsPolicy policy

ip_from_bytes-ip_to_bytes : (ip : IpAddr) → HasOctets ip → ip_from_bytes (ip_to_bytes ip) ≡ ok ip
unfolding ip_from_bytes ip_to_bytes
ip_from_bytes-ip_to_bytes (v4 octets) n = rw n refl
ip_from_bytes-ip_to_bytes (v6 octets) n = rw n refl

ips_from_bytes-map :
    (ips : List IpAddr) → AllHaveOctets ips → ips_from_bytes (map ip_to_bytes ips) ≡ ok ips
unfolding ips_from_bytes
ips_from_bytes-map [] all = refl
ips_from_bytes-map (ip ∷ ips) (n, all) =
    rw (ip_from_bytes-ip_to_bytes ip n, ips_from_bytes-map ips all) refl

map-as_u16 : (ps : List ℕ) → AllU16 ps → map as_u16 ps ≡ ps
unfolding as_u16
map-as_u16 [] all = refl
map-as_u16 (p ∷ ps) (small, all) =
    let e : p % 65536 ≡ p = omega (arith, small) in
    ap₂ (λ (q : ℕ) (qs : List ℕ). q ∷ qs) e (map-as_u16 ps all)

pub exit_policy_of-proto :
    (policy : ExitPolicy) → IsPolicy policy → exit_policy_of (proto_exit_policy policy) ≡ ok policy
unfolding exit_policy_of proto_exit_policy
exit_policy_of-proto policy is =
    rw
      (
        ips_from_bytes-map policy.allowed_ips is.allowed_octets,
        ips_from_bytes-map policy.blocked_ips is.blocked_octets,
        map-as_u16 policy.allowed_ports is.allowed_u16,
        map-as_u16 policy.blocked_ports is.blocked_u16,
      )
      refl

optional_round_trip :
    (policy : Option ExitPolicy)
    → IsPolicyIfAny policy
    → Proto.optionally exit_policy_of (Proto.optional proto_exit_policy policy) ≡ ok policy
optional_round_trip none is = refl
optional_round_trip (some policy) is = rw (exit_policy_of-proto policy is) refl

node_type_round_trip :
    (t : NodeType)
    → (from_enum_number (enum_number (proto_node_type t)) ≡ ok (proto_node_type t))
      × (node_type_of (proto_node_type t) ≡ ok t)
unfolding from_enum_number enum_number proto_node_type node_type_of
node_type_round_trip NodeType.entry = (refl, refl)
node_type_round_trip NodeType.middle = (refl, refl)
node_type_round_trip NodeType.exit = (refl, refl)

public_key_round_trip :
    (key : List ℕ) → length key ≡ 32 → public_key_of (proto_public_key key) ≡ ok key
unfolding public_key_of proto_public_key
public_key_round_trip key n = rw n refl

-- A descriptor comes back unchanged from its protobuf message, if its key has 32 bytes, its policy, if
-- any, has u16 ports and addresses of 4 or 16 octets, and its address parses back from its text.
pub descriptor_of-proto_descriptor :
    ⦃net : Net⦄ (d : NodeDescriptor)
    → length d.public_key ≡ 32
    → IsPolicyIfAny d.exit_policy
    → net.parse_addr (net.show_addr d.address) ≡ some d.address
    → descriptor_of (proto_descriptor d) ≡ ok d
unfolding descriptor_of proto_descriptor
descriptor_of-proto_descriptor d key policy address =
    let (numbered, typed) = node_type_round_trip d.node_type in
    rw
      (
        numbered,
        typed,
        address,
        public_key_round_trip d.public_key key,
        optional_round_trip d.exit_policy policy,
      )
      refl

module _ ⦃net : Net⦄ where
  -- A descriptor that protobuf can carry.
  pub record IsOnWire (d : NodeDescriptor) : Type 0 where
    pub key : length d.public_key ≡ 32
    pub policy : IsPolicyIfAny d.exit_policy
    pub address : net.parse_addr (net.show_addr d.address) ≡ some d.address
