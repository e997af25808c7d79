-- ===== src/Relay/Context.antt =====
-- services/relay-node/src/circuit/handler.rs: the state of a circuit at a relay.
use mini_tor.Prelude.{ℕ, Option, none, some}
use mini_tor.Crypto.{Primitives}
use mini_tor.Crypto.Keys.{SessionKey}
use mini_tor.Crypto.Cipher
use mini_tor.Crypto.Cipher.{CipherPair}
use mini_tor.Net.{Net}

pub data CircuitState : Type 0 where
  initializing active closing closed : CircuitState

module _ ⦃prim : Primitives⦄ where
  pub record CircuitContext : Type 0 where
    pub circuit_id : ℕ
    pub state : CircuitState
    pub session_key : Option SessionKey
    pub cipher_pair : Option CipherPair

  unfoldable pub new : ℕ → CircuitContext
  new circuit_id = record {
    circuit_id = circuit_id;
    state = initializing;
    session_key = none;
    cipher_pair = none;
  }

  unfoldable pub activate : CircuitContext → SessionKey → CircuitContext
  activate c key = record c {
    cipher_pair = some (Cipher.new key);
    session_key = some key;
    state = active;
  }

  unfoldable pub close : CircuitContext → CircuitContext
  close c = record c { state = closed; session_key = none; cipher_pair = none }

module _ ⦃net : Net⦄ where
  pub record NextHop : Type 0 where
    pub write : net.WriteHalf
    pub read : Option net.ReadHalf

  unfoldable pub next_hop : net.Stream → NextHop
  next_hop stream =
      let (read, write) = net.split stream in record { write = write; read = some read }

  unfoldable pub take_read : NextHop → NextHop × Option net.ReadHalf
  take_read h = (record h { read = none }, h.read)
