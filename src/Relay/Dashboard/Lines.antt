-- ===== src/Relay/Dashboard/Lines.antt =====
-- services/relay-node/src/tui/mod.rs: the header and the lines of the activity log, as spans of text
-- with a style. A text is a list of characters; `one_decimal` prints a quotient of floats.
use mini_tor.Prelude.{
  ℕ, ◌-◌, List, [], ◌∷◌, ◌++◌, Option, none, some, Bool, true, false, if◌then◌else◌, bytes_of,
  to_string,
}
use mini_tor.Types.{NodeType, entry, middle, exit, node_type_eq}
use mini_tor.Protocol.{MessageCommand}
use mini_tor.Metrics.Format.{
  Direction, forward, backward, show_direction, format_bytes, format_duration,
}
use mini_tor.Relay.Events.{
  EventKind, RelayMetrics, connection_accepted, connection_closed, circuit_created,
  circuit_destroyed, circuit_extended, relay_forward, relay_backward, stream_opened, stream_closed,
  stream_data, error, show_command, cid, cid_sid,
}

pub data Color : Type 0 where
  black red green yellow blue cyan gray dark_gray white : Color

pub record Style : Type 0 where
  pub fg : Option Color
  pub bg : Option Color
  pub bold : Bool

pub record Span : Type 0 where
  pub content : List ℕ
  pub style : Style

abbrev raw : List ℕ → Span
raw content = record { content = content; style = record { fg = none; bg = none; bold = false } }

abbrev colored : Color → List ℕ → Span
colored color content = record {
  content = content;
  style = record { fg = some color; bg = none; bold = false };
}

abbrev colored_bold : Color → List ℕ → Span
colored_bold color content = record {
  content = content;
  style = record { fg = some color; bg = none; bold = true };
}

-- The name and the color of a relay's type.
abbrev type_name : NodeType → List ℕ
type_name entry = bytes_of "ENTRY"
type_name middle = bytes_of "MIDDLE"
type_name exit = bytes_of "EXIT"

abbrev type_color : NodeType → Color
type_color entry = green
type_color middle = yellow
type_color exit = red

abbrev surrounded : List ℕ → List ℕ
surrounded text = bytes_of " " ++ (text ++ bytes_of " ")

abbrev badge : NodeType → Span
badge node_type = record {
  content = surrounded (type_name node_type);
  style = record { fg = some black; bg = some (type_color node_type); bold = true };
}

abbrev address_span : List ℕ → Span
address_span bind_addr = record {
  content = surrounded bind_addr;
  style = record { fg = none; bg = none; bold = true };
}

module _ (one_decimal : ℕ → ℕ → List ℕ) where
  unfoldable pub build_header_spans : ℕ → RelayMetrics → NodeType → List ℕ → ℕ → List Span
  build_header_spans now m node_type bind_addr circuit_count =
      let circuits =
        bytes_of "│ Circuits "
        ++ (to_string circuit_count
            ++ (bytes_of " active / "
                ++ (to_string m.circuits_created
                    ++ (bytes_of " total / "
                        ++ (to_string m.circuits_destroyed ++ bytes_of " destroyed "))))) in
      let traffic =
        bytes_of "│ ↑ "
        ++ (format_bytes one_decimal m.bytes_forwarded
            ++ (bytes_of " ↓ " ++ format_bytes one_decimal m.bytes_received)) in
      let streams = raw (bytes_of " │ Streams " ++ to_string m.streams_opened) in
      badge node_type
      ∷ address_span bind_addr
      ∷ raw (bytes_of " │ Up " ++ (format_duration (now - m.start_time) ++ bytes_of " "))
      ∷ raw (bytes_of "│ Conns " ++ (to_string m.connections_accepted ++ bytes_of " "))
      ∷ raw circuits
      ∷ raw traffic
      ∷ (if node_type_eq node_type exit then streams ∷ [] else [])

  abbrev relayed : ℕ → MessageCommand → ℕ → List ℕ
  relayed circuit_id command bytes =
      cid circuit_id
      ++ (bytes_of " "
          ++ (show_command command
              ++ (bytes_of " [" ++ (format_bytes one_decimal bytes ++ bytes_of "]"))))

  abbrev stream_bytes : ℕ → ℕ → ℕ → Direction → List ℕ
  stream_bytes circuit_id stream_id bytes direction =
      cid_sid circuit_id stream_id
      ++ (bytes_of " ["
          ++ (format_bytes one_decimal bytes
              ++ (bytes_of " " ++ (show_direction direction ++ bytes_of "]"))))

  -- The spans after the timestamp.
  abbrev event_spans : EventKind → List Span
  event_spans (connection_accepted peer) =
      colored_bold blue (bytes_of "← ACCEPT   ") ∷ raw (bytes_of "from " ++ peer) ∷ []
  event_spans (connection_closed peer) =
      colored dark_gray (bytes_of "— CLOSED   ") ∷ raw (bytes_of "conn from " ++ peer) ∷ []
  event_spans (circuit_created circuit_id) =
      colored_bold cyan (bytes_of "⚙ CREATE   ")
      ∷ raw (cid circuit_id ++ bytes_of " handshake complete")
      ∷ []
  event_spans (circuit_extended circuit_id next_hop) =
      colored_bold green (bytes_of "→ EXTEND   ")
      ∷ raw (cid circuit_id ++ (bytes_of " → " ++ next_hop))
      ∷ []
  event_spans (circuit_destroyed circuit_id) =
      colored_bold red (bytes_of "✗ DESTROY  ") ∷ raw (cid circuit_id) ∷ []
  event_spans (relay_forward circuit_id command bytes) =
      colored white (bytes_of "→ RELAY→  ") ∷ raw (relayed circuit_id command bytes) ∷ []
  event_spans (relay_backward circuit_id command bytes) =
      colored gray (bytes_of "← RELAY←  ") ∷ raw (relayed circuit_id command bytes) ∷ []
  event_spans (stream_opened circuit_id stream_id destination) =
      colored_bold yellow (bytes_of "→ STREAM   ")
      ∷ raw (cid_sid circuit_id stream_id ++ (bytes_of " → " ++ destination))
      ∷ []
  event_spans (stream_closed circuit_id stream_id) =
      colored dark_gray (bytes_of "— END      ") ∷ raw (cid_sid circuit_id stream_id) ∷ []
  event_spans (stream_data circuit_id stream_id bytes forward) =
      colored white (bytes_of "→ DATA→   ")
      ∷ raw (stream_bytes circuit_id stream_id bytes forward)
      ∷ []
  event_spans (stream_data circuit_id stream_id bytes backward) =
      colored gray (bytes_of "← DATA←   ")
      ∷ raw (stream_bytes circuit_id stream_id bytes backward)
      ∷ []
  event_spans (error message) = colored_bold red (bytes_of "✗ ERROR    ") ∷ colored red message ∷ []

  unfoldable pub format_event : List ℕ → EventKind → List Span
  format_event timestamp kind = colored dark_gray (surrounded timestamp) ∷ event_spans kind
