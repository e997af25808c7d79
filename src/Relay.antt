-- ===== src/Relay.antt =====
-- services/relay-node/src/circuit: what the handlers of the three kinds of relay share. State is
-- passed explicitly; a handler returns its state afterwards also beside an error, since what was
-- changed before an early return stays changed.
pub mod Context
pub mod Extend
pub mod Relayed
pub mod Entry
pub mod Middle
pub mod Exit
pub mod Registry
pub mod Reader
pub mod Connection
pub mod Events
pub mod Dashboard
pub mod Accept
pub mod Heartbeat
pub mod Config
pub mod Wizard
pub mod Tests
use mini_tor.Prelude.{ℕ, List, Option, Result}
use mini_tor.Protocol.{MessageCommand, Message}
use mini_tor.Protocol.Wire.{TorError, IoError}

pub data RelayError : Type 0 where
  create_too_short extended_too_short created_too_short : RelayError
  not_established : RelayError
  extend_too_short missing_address_separator invalid_utf8 too_short_for_key : RelayError
  missing_fingerprint_separator missing_fingerprint invalid_address : RelayError
  connection_failed created_timed_out next_hop_closed : RelayError
  send_failed : TorError → RelayError
  read_failed : IoError → RelayError
  unexpected_reply unexpected_command : MessageCommand → RelayError
  digest_mismatch : MessageCommand → RelayError
  no_writer : RelayError
  circuit_not_found : ℕ → RelayError

-- What a handler replies: a message for the previous hop, nothing, or an error.
abbrev pub Reply : Type 0
Reply = Result RelayError (Option Message)

-- What the random generator draws while a message is handled: an ephemeral secret, and the fill of
-- the cells that are written.
pub record Draws : Type 0 where
  pub ephemeral_secret : List ℕ
  pub fill : ℕ → List ℕ
