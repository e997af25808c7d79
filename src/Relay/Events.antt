-- ===== src/Relay/Events.antt =====
-- services/relay-node/src/core/metrics.rs: the relay's events and counters, and the texts of the events
-- in a heartbeat. A text is a list of characters; `one_decimal` prints a quotient of floats.
pub mod Heartbeat
pub mod Tests
use mathlib.Core.List.{reverse}
use mini_tor.Prelude.{ℕ, List, ◌∷◌, [], ◌++◌, take, bytes_of, to_string}
use mini_tor.Protocol.{
  MessageCommand, padding, create, created, extend, extended, destroy, begin, connected, data_cell,
  end,
}
use mini_tor.Metrics
use mini_tor.Metrics.{TuiEvent, EventBuffer, snapshot}
use mini_tor.Metrics.Format.{Direction, format_bytes, format_timestamp}

pub data EventKind : Type 0 where
  connection_accepted connection_closed : List ℕ → EventKind
  circuit_created circuit_destroyed : ℕ → EventKind
  circuit_extended : ℕ → List ℕ → EventKind
  relay_forward relay_backward : ℕ → MessageCommand → ℕ → EventKind
  stream_opened : ℕ → ℕ → List ℕ → EventKind
  stream_closed : ℕ → ℕ → EventKind
  stream_data : ℕ → ℕ → ℕ → Direction → EventKind
  error : List ℕ → EventKind

abbrev pub event_buffer_capacity : ℕ
event_buffer_capacity = 200

pub record RelayMetrics : Type 0 where
  pub connections_accepted : ℕ
  pub circuits_created : ℕ
  pub circuits_destroyed : ℕ
  pub bytes_forwarded : ℕ
  pub bytes_received : ℕ
  pub streams_opened : ℕ
  pub events : EventBuffer EventKind
  pub start_time : ℕ

unfoldable pub new : ℕ → RelayMetrics
new now = record {
  connections_accepted = 0;
  circuits_created = 0;
  circuits_destroyed = 0;
  bytes_forwarded = 0;
  bytes_received = 0;
  streams_opened = 0;
  events = Metrics.new event_buffer_capacity now;
  start_time = now;
}

unfoldable pub push_event : ℕ → EventKind → RelayMetrics → RelayMetrics
push_event now kind m = record m { events = Metrics.push now kind m.events }

-- `Display` of a command.
unfoldable pub show_command : MessageCommand → List ℕ
show_command padding = bytes_of "PADDING"
show_command create = bytes_of "CREATE"
show_command created = bytes_of "CREATED"
show_command extend = bytes_of "EXTEND"
show_command extended = bytes_of "EXTENDED"
show_command destroy = bytes_of "DESTROY"
show_command begin = bytes_of "BEGIN"
show_command connected = bytes_of "CONNECTED"
show_command data_cell = bytes_of "DATA"
show_command end = bytes_of "END"

-- `cid=1 sid=2`
abbrev pub cid : ℕ → List ℕ
cid circuit_id = bytes_of "cid=" ++ to_string circuit_id

abbrev pub cid_sid : ℕ → ℕ → List ℕ
cid_sid circuit_id stream_id = cid circuit_id ++ (bytes_of " sid=" ++ to_string stream_id)

abbrev in_brackets : List ℕ → List ℕ
in_brackets text = bytes_of " [" ++ (text ++ bytes_of "]")

module _ (one_decimal : ℕ → ℕ → List ℕ) where
  unfoldable pub format_event_string : EventKind → List ℕ
  format_event_string (connection_accepted peer) = bytes_of "← ACCEPT    from " ++ peer
  format_event_string (connection_closed peer) = bytes_of "— CLOSED    conn from " ++ peer
  format_event_string (circuit_created circuit_id) = bytes_of "⚙ CREATE    " ++ cid circuit_id
  format_event_string (circuit_extended circuit_id next_hop) =
      bytes_of "→ EXTEND    " ++ (cid circuit_id ++ (bytes_of " → " ++ next_hop))
  format_event_string (circuit_destroyed circuit_id) = bytes_of "✗ DESTROY   " ++ cid circuit_id
  format_event_string (relay_forward circuit_id command bytes) =
      bytes_of "→ RELAY→    "
      ++ (cid circuit_id
          ++ (bytes_of " "
              ++ (show_command command ++ in_brackets (format_bytes one_decimal bytes))))
  format_event_string (relay_backward circuit_id command bytes) =
      bytes_of "← RELAY←    "
      ++ (cid circuit_id
          ++ (bytes_of " "
              ++ (show_command command ++ in_brackets (format_bytes one_decimal bytes))))
  format_event_string (stream_opened circuit_id stream_id destination) =
      bytes_of "→ STREAM    " ++ (cid_sid circuit_id stream_id ++ (bytes_of " → " ++ destination))
  format_event_string (stream_closed circuit_id stream_id) =
      bytes_of "— END       " ++ cid_sid circuit_id stream_id
  format_event_string (stream_data circuit_id stream_id bytes direction) =
      bytes_of "↔ DATA      "
      ++ (cid_sid circuit_id stream_id ++ in_brackets (format_bytes one_decimal bytes))
  format_event_string (error message) = bytes_of "✗ ERROR     " ++ message

  unfoldable pub event_text : TuiEvent EventKind → List ℕ
  event_text e =
      bytes_of "[" ++ (format_timestamp e.elapsed ++ (bytes_of "] " ++ format_event_string e.kind))

  unfoldable pub event_snapshot : RelayMetrics → List (List ℕ)
  event_snapshot m = take 20 (reverse (snapshot event_text m.events))
