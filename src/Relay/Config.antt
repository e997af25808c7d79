-- ===== src/Relay/Config.antt =====
-- services/relay-node/src/core/config.rs: a relay's configuration. The exit policies that it makes are in
-- Types/Policy.antt. That a text parses as an address, and `to_lowercase`, are arguments.
use mini_tor.Prelude.{
  ℕ, List, Bool, Option, Result, ok, err, bytes_eq, bytes_of, if◌then◌else◌, ◌>>=◌,
}
use mini_tor.Types.{NodeType, NodeDescriptor, entry, middle, exit, IpAddr, SocketAddr}
use mini_tor.Types.Policy.{exit_policy}

pub record RelayConfig : Type 0 where
  pub node_type : Option NodeType
  pub port : ℕ
  pub host : List ℕ
  pub bind_host : List ℕ
  pub directory_url : List ℕ
  pub bandwidth : ℕ
  pub heartbeat_interval : ℕ
  pub exit_allow_all : Bool
  pub tui : Bool
  pub operator_id : Option (List ℕ)

module _ {E : Type 0} (parse_ip : List ℕ → Result E IpAddr) where
  unfoldable pub bind_addr : RelayConfig → Result E SocketAddr
  bind_addr config = do ip ← parse_ip config.host; ok (record { ip = ip; port = config.port })

  unfoldable pub listener_addr : RelayConfig → Result E SocketAddr
  listener_addr config = do
    ip ← parse_ip config.bind_host
    ok (record { ip = ip; port = config.port })

unfoldable pub parse_node_type : (List ℕ → List ℕ) → List ℕ → Result (List ℕ) NodeType
parse_node_type to_lowercase s =
    let t = to_lowercase s in
    if bytes_eq t (bytes_of "entry")
    then ok entry
    else if bytes_eq t (bytes_of "middle")
    then ok middle
    else if bytes_eq t (bytes_of "exit")
    then ok exit
    else err s

-- The descriptor that `main` puts together: the id, the public key and the fingerprint are made there.
unfoldable pub descriptor :
    RelayConfig → NodeType → List ℕ → SocketAddr → List ℕ → List ℕ → NodeDescriptor
descriptor config node_type node_id address public_key fingerprint = record {
  node_id = node_id;
  node_type = node_type;
  address = address;
  public_key = public_key;
  bandwidth = config.bandwidth;
  exit_policy = exit_policy config.exit_allow_all node_type;
  operator_id = config.operator_id;
  tls_cert_fingerprint = fingerprint;
}
