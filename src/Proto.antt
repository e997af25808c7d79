-- ===== src/Proto.antt =====
-- services/proto/src/lib.rs: conversions between the shared types and the protobuf messages of
-- services/proto/definitions/types.proto. Texts of addresses are std's, as parameters of Net.
pub mod RoundTrip
pub mod Tests
use mini_tor.Prelude.{
  ℕ, ◌%◌, ◌^◌, List, [], ◌∷◌, map, Option, none, some, Result, ok, err, length, ◌==◌, if◌then◌else◌,
  ok_or, ◌>>=◌,
}
use mini_tor.Types
use mini_tor.Types.{NodeType, IpAddr, v4, v6, ExitPolicy, NodeDescriptor, NodeMetrics}
use mini_tor.Net.{Net}

pub data ProtoNodeType : Type 0 where
  unspecified entry middle exit : ProtoNodeType

pub record ProtoPublicKey : Type 0 where
  pub bytes : List ℕ

-- Ports are u32, addresses are their octets.
pub record ProtoExitPolicy : Type 0 where
  pub allowed_ports : List ℕ
  pub blocked_ports : List ℕ
  pub allowed_ips : List (List ℕ)
  pub blocked_ips : List (List ℕ)

-- The type is an i32, which may be no number of the enum; negative ones, which are none either, are left
-- out.
pub record ProtoNodeDescriptor : Type 0 where
  pub node_id : List ℕ
  pub node_type : ℕ
  pub address : List ℕ
  pub public_key : Option ProtoPublicKey
  pub bandwidth : ℕ
  pub exit_policy : Option ProtoExitPolicy
  pub operator_id : Option (List ℕ)
  pub tls_cert_fingerprint : List ℕ

pub record ProtoNodeMetrics : Type 0 where
  pub connections_accepted : ℕ
  pub circuits_active : ℕ
  pub circuits_created : ℕ
  pub circuits_destroyed : ℕ
  pub bytes_forwarded : ℕ
  pub bytes_received : ℕ
  pub streams_opened : ℕ
  pub uptime_secs : ℕ
  pub event_snapshot : List (List ℕ)

-- The reasons of `Status::invalid_argument`.
pub data Invalid : Type 0 where
  node_type_unspecified : Invalid
  invalid_node_type : ℕ → Invalid
  invalid_address key_length key_required : Invalid
  ip_length : ℕ → Invalid

unfoldable pub proto_node_type : NodeType → ProtoNodeType
proto_node_type NodeType.entry = entry
proto_node_type NodeType.middle = middle
proto_node_type NodeType.exit = exit

unfoldable pub node_type_of : ProtoNodeType → Result Invalid NodeType
node_type_of entry = ok NodeType.entry
node_type_of middle = ok NodeType.middle
node_type_of exit = ok NodeType.exit
node_type_of unspecified = err node_type_unspecified

-- The numbers of the enum in types.proto: `as i32` and `try_from`.
unfoldable pub enum_number : ProtoNodeType → ℕ
enum_number unspecified = 0
enum_number entry = 1
enum_number middle = 2
enum_number exit = 3

unfoldable pub from_enum_number : ℕ → Result Invalid ProtoNodeType
from_enum_number n =
    if n == 0
    then ok unspecified
    else if n == 1
    then ok entry
    else if n == 2
    then ok middle
    else if n == 3
    then ok exit
    else err (invalid_node_type n)

unfoldable pub proto_public_key : List ℕ → ProtoPublicKey
proto_public_key bytes = record { bytes = bytes }

unfoldable pub public_key_of : ProtoPublicKey → Result Invalid (List ℕ)
public_key_of pk = if length pk.bytes == 32 then ok pk.bytes else err key_length

unfoldable pub ip_to_bytes : IpAddr → List ℕ
ip_to_bytes (v4 octets) = octets
ip_to_bytes (v6 octets) = octets

unfoldable pub ip_from_bytes : List ℕ → Result Invalid IpAddr
ip_from_bytes bytes =
    if length bytes == 4
    then ok (v4 bytes)
    else if length bytes == 16
    then ok (v6 bytes)
    else err (ip_length (length bytes))

-- `collect::<Result<Vec<_>, _>>()`: the first error ends it.
unfoldable pub ips_from_bytes : List (List ℕ) → Result Invalid (List IpAddr)
ips_from_bytes [] = ok []
ips_from_bytes (b ∷ bs) =
    let rest = ips_from_bytes bs in ip_from_bytes b >>= λ ip. rest >>= λ ips. ok (ip ∷ ips)

unfoldable pub proto_exit_policy : ExitPolicy → ProtoExitPolicy
proto_exit_policy policy = record {
  allowed_ports = policy.allowed_ports;
  blocked_ports = policy.blocked_ports;
  allowed_ips = map ip_to_bytes policy.allowed_ips;
  blocked_ips = map ip_to_bytes policy.blocked_ips;
}

-- `p as u16`
unfoldable pub as_u16 : ℕ → ℕ
as_u16 p = p % 2 ^ 16

unfoldable pub exit_policy_of : ProtoExitPolicy → Result Invalid ExitPolicy
exit_policy_of policy = do
  allowed_ips ← ips_from_bytes policy.allowed_ips
  blocked_ips ← ips_from_bytes policy.blocked_ips
  ok (record {
    allowed_ports = map as_u16 policy.allowed_ports;
    blocked_ports = map as_u16 policy.blocked_ports;
    allowed_ips = allowed_ips;
    blocked_ips = blocked_ips;
  })

abbrev pub optional {ℓ κ} : {A : Type ℓ} {B : Type κ} → (A → B) → Option A → Option B
optional f none = none
optional f (some a) = some (f a)

abbrev pub optionally {ℓ κ} :
    {A : Type ℓ} {B : Type κ} → (A → Result Invalid B) → Option A → Result Invalid (Option B)
optionally f none = ok none
optionally f (some a) = f a >>= λ b. ok (some b)

module _ ⦃net : Net⦄ where
  unfoldable pub proto_descriptor : NodeDescriptor → ProtoNodeDescriptor
  proto_descriptor d = record {
    node_id = d.node_id;
    node_type = enum_number (proto_node_type d.node_type);
    address = net.show_addr d.address;
    public_key = some (proto_public_key d.public_key);
    bandwidth = d.bandwidth;
    exit_policy = optional proto_exit_policy d.exit_policy;
    operator_id = d.operator_id;
    tls_cert_fingerprint = d.tls_cert_fingerprint;
  }

  unfoldable pub descriptor_of : ProtoNodeDescriptor → Result Invalid NodeDescriptor
  descriptor_of d = do
    proto_type ← from_enum_number d.node_type
    node_type ← node_type_of proto_type
    address ← ok_or (net.parse_addr d.address) invalid_address
    pk ← ok_or d.public_key key_required
    public_key ← public_key_of pk
    exit_policy ← optionally exit_policy_of d.exit_policy
    ok (record {
      node_id = d.node_id;
      node_type = node_type;
      address = address;
      public_key = public_key;
      bandwidth = d.bandwidth;
      exit_policy = exit_policy;
      operator_id = d.operator_id;
      tls_cert_fingerprint = d.tls_cert_fingerprint;
    })

unfoldable pub proto_metrics : NodeMetrics → ProtoNodeMetrics
proto_metrics m = record {
  connections_accepted = m.connections_accepted;
  circuits_active = m.circuits_active;
  circuits_created = m.circuits_created;
  circuits_destroyed = m.circuits_destroyed;
  bytes_forwarded = m.bytes_forwarded;
  bytes_received = m.bytes_received;
  streams_opened = m.streams_opened;
  uptime_secs = m.uptime_secs;
  event_snapshot = m.event_snapshot;
}

unfoldable pub metrics_of : ProtoNodeMetrics → NodeMetrics
metrics_of m = record {
  connections_accepted = m.connections_accepted;
  circuits_active = m.circuits_active;
  circuits_created = m.circuits_created;
  circuits_destroyed = m.circuits_destroyed;
  bytes_forwarded = m.bytes_forwarded;
  bytes_received = m.bytes_received;
  streams_opened = m.streams_opened;
  uptime_secs = m.uptime_secs;
  event_snapshot = m.event_snapshot;
}
