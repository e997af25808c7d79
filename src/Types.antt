-- ===== src/Types.antt =====
-- services/common/src/types.rs: node types, addresses, exit policies and node descriptors. `IpAddr`
-- and `SocketAddr` are std's; only the fields that the code reads are here.
pub mod Policy
pub mod Hex
pub mod Tests
use mini_tor.Prelude.{
  ℕ, ◌≡◌, List, Option, String, Bool, true, false, bytes_eq, bytes_eq_iff, ◌==◌, ◌&&◌, ◌↔◌, arith,
}

pub data NodeType : Type 0 where
  entry middle exit : NodeType

unfoldable pub node_type_eq : NodeType → NodeType → Bool
node_type_eq entry entry = true
node_type_eq middle middle = true
node_type_eq exit exit = true
node_type_eq _ _ = false

-- The octets of an address: 4 for IPv4, 16 for IPv6.
pub data IpAddr : Type 0 where
  v4 : List ℕ → IpAddr
  v6 : List ℕ → IpAddr

unfoldable pub ip_eq : IpAddr → IpAddr → Bool
ip_eq (v4 a) (v4 b) = bytes_eq a b
ip_eq (v4 a) (v6 b) = false
ip_eq (v6 a) (v4 b) = false
ip_eq (v6 a) (v6 b) = bytes_eq a b

pub record SocketAddr : Type 0 where
  pub ip : IpAddr
  pub port : ℕ

unfoldable pub addr_eq : SocketAddr → SocketAddr → Bool
unfolding ip_eq
addr_eq a b = ip_eq a.ip b.ip && a.port == b.port

pub record ExitPolicy : Type 0 where
  pub allowed_ports : List ℕ
  pub blocked_ports : List ℕ
  pub allowed_ips : List IpAddr
  pub blocked_ips : List IpAddr

-- The ids are texts in the source; texts are their bytes here.
pub record NodeDescriptor : Type 0 where
  pub node_id : List ℕ
  pub node_type : NodeType
  pub address : SocketAddr
  pub public_key : List ℕ
  pub bandwidth : ℕ
  pub exit_policy : Option ExitPolicy
  pub operator_id : Option (List ℕ)
  pub tls_cert_fingerprint : List ℕ

-- The snapshot of a heartbeat.
pub record NodeMetrics : Type 0 where
  pub connections_accepted : ℕ
  pub circuits_active : ℕ
  pub circuits_created : ℕ
  pub circuits_destroyed : ℕ
  pub bytes_forwarded : ℕ
  pub bytes_received : ℕ
  pub streams_opened : ℕ
  pub uptime_secs : ℕ
  pub event_snapshot : List (List ℕ)

pub ip_eq_iff : (a b : IpAddr) → (ip_eq a b ≡ true) ↔ (a ≡ b)
unfolding ip_eq
ip_eq_iff (v4 a) (v4 b) = ground (arith, bytes_eq_iff a b)
ip_eq_iff (v4 a) (v6 b) = ground arith
ip_eq_iff (v6 a) (v4 b) = ground arith
ip_eq_iff (v6 a) (v6 b) = ground (arith, bytes_eq_iff a b)

pub addr_eq_iff : (a b : SocketAddr) → (addr_eq a b ≡ true) ↔ (a ≡ b)
unfolding addr_eq
addr_eq_iff a b = ground (arith, ip_eq_iff a.ip b.ip)
