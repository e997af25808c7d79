-- ===== src/Types/Policy.antt =====
-- services/common/src/types.rs: `ExitPolicy`, and the policies that relay-node/src/core/config.rs makes.
use mini_tor.Prelude.{
  ℕ, ◌≡◌, ◌↔◌, ◌⊎◌, refl, List, [], ◌∷◌, Bool, true, false, not, ◌&&◌, ◌||◌, ◌==◌, if◌then◌else◌,
  arith, Option, none, some,
}
use mini_tor.Types.{
  NodeType, exit, node_type_eq, IpAddr, v4, SocketAddr, ExitPolicy, ip_eq, ip_eq_iff,
}

unfoldable pub contains_ip : List IpAddr → IpAddr → Bool
contains_ip [] ip = false
contains_ip (x ∷ xs) ip = ip_eq x ip || contains_ip xs ip

unfoldable pub contains_port : List ℕ → ℕ → Bool
contains_port [] port = false
contains_port (x ∷ xs) port = x == port || contains_port xs port

abbrev is_empty {ℓ} : {A : Type ℓ} → List A → Bool
is_empty [] = true
is_empty (x ∷ xs) = false

unfoldable pub allows : ExitPolicy → SocketAddr → Bool
allows p addr =
    if contains_ip p.blocked_ips addr.ip
    then false
    else if not (is_empty p.allowed_ips) && not (contains_ip p.allowed_ips addr.ip)
    then false
    else if contains_port p.blocked_ports addr.port
    then false
    else if is_empty p.allowed_ports
    then true
    else contains_port p.allowed_ports addr.port

unfoldable pub default_policy : ExitPolicy
default_policy = record {
  allowed_ports = 80 ∷ 443 ∷ 8080 ∷ 8443 ∷ [];
  blocked_ports = 25 ∷ 587 ∷ 465 ∷ [];
  allowed_ips = [];
  blocked_ips = [];
}

unfoldable pub allow_all : ExitPolicy
allow_all = record { allowed_ports = []; blocked_ports = []; allowed_ips = []; blocked_ips = [] }

-- The policy that a relay registers with: `exit_allow_all` is the flag of that name.
unfoldable pub exit_policy : Bool → NodeType → Option ExitPolicy
exit_policy exit_allow_all node_type =
    if node_type_eq node_type exit
    then some (
        if exit_allow_all
        then record { allowed_ports = []; blocked_ports = []; allowed_ips = []; blocked_ips = [] }
        else record {
          allowed_ports = 80 ∷ 443 ∷ 8080 ∷ 8443 ∷ [];
          blocked_ports = 25 ∷ 465 ∷ 587 ∷ [];
          allowed_ips = [];
          blocked_ips =
              v4 (127 ∷ 0 ∷ 0 ∷ 1 ∷ [])
              ∷ v4 (10 ∷ 0 ∷ 0 ∷ 0 ∷ [])
              ∷ v4 (172 ∷ 16 ∷ 0 ∷ 0 ∷ [])
              ∷ v4 (192 ∷ 168 ∷ 0 ∷ 0 ∷ [])
              ∷ [];
        })
    else none

-- Membership without a test.
abbrev pub HasIp : IpAddr → List IpAddr → Type 0
HasIp ip [] = ⊥
HasIp ip (x ∷ xs) = (x ≡ ip) ⊎ HasIp ip xs

abbrev pub HasPort : ℕ → List ℕ → Type 0
HasPort port [] = ⊥
HasPort port (x ∷ xs) = (x ≡ port) ⊎ HasPort port xs

-- A policy allows an address exactly when its ip is not blocked, its ip is listed or no ips are
-- listed, its port is not blocked, and its port is listed or no ports are listed: a block wins over
-- an allowance.
pub record Permits (p : ExitPolicy) (addr : SocketAddr) : Type 0 where
  pub ip_not_blocked : ¬ HasIp addr.ip p.blocked_ips
  pub ip_allowed : (p.allowed_ips ≡ []) ⊎ HasIp addr.ip p.allowed_ips
  pub port_not_blocked : ¬ HasPort addr.port p.blocked_ports
  pub port_allowed : (p.allowed_ports ≡ []) ⊎ HasPort addr.port p.allowed_ports

contains_ip_iff : (xs : List IpAddr) (ip : IpAddr) → (contains_ip xs ip ≡ true) ↔ HasIp ip xs
unfolding contains_ip
contains_ip_iff [] ip = ground arith
contains_ip_iff (x ∷ xs) ip = ground (arith, ip_eq_iff x ip, contains_ip_iff xs ip)

contains_port_iff : (xs : List ℕ) (port : ℕ) → (contains_port xs port ≡ true) ↔ HasPort port xs
unfolding contains_port
contains_port_iff [] port = ground arith
contains_port_iff (x ∷ xs) port = ground (arith, contains_port_iff xs port)

is_empty_iff {ℓ} : {A : Type ℓ} (xs : List A) → (is_empty xs ≡ true) ↔ (xs ≡ [])
is_empty_iff [] = (λ _. refl, λ _. refl)
is_empty_iff (x ∷ xs) = (λ h. cc, λ h. cc)

module _ (p : ExitPolicy) (addr : SocketAddr) where
  allows→Permits : allows p addr ≡ true → Permits p addr
  unfolding allows
  allows→Permits h = ground (
    arith,
    contains_ip_iff p.blocked_ips addr.ip,
    contains_ip_iff p.allowed_ips addr.ip,
    contains_port_iff p.blocked_ports addr.port,
    contains_port_iff p.allowed_ports addr.port,
    is_empty_iff p.allowed_ips,
    is_empty_iff p.allowed_ports,
  )

  Permits→allows : Permits p addr → allows p addr ≡ true
  unfolding allows
  Permits→allows h = ground (
    arith,
    contains_ip_iff p.blocked_ips addr.ip,
    contains_ip_iff p.allowed_ips addr.ip,
    contains_port_iff p.blocked_ports addr.port,
    contains_port_iff p.allowed_ports addr.port,
    is_empty_iff p.allowed_ips,
    is_empty_iff p.allowed_ports,
  )

  -- An exit policy allows an address exactly when `Permits` holds: a blocked ip or port wins over an
  -- allowed one, and an empty list of allowed ips or ports allows all that is not blocked.
  pub allows_iff : (allows p addr ≡ true) ↔ Permits p addr
  allows_iff = (allows→Permits, Permits→allows)
