-- ===== src/Relay/Dashboard.antt =====
-- services/relay-node/src/tui/mod.rs: the dashboard of a relay in the terminal, with its keys. Each
-- round has the relay's state and metrics of that moment; how widgets are laid out is not modelled.
pub mod Lines
mod Shown
mod Tests
use mini_tor.Prelude.{
  ℕ, ◌-◌, List, [], ◌∷◌, ◌++◌, length, drop, Option, none, some, Bool, true, false, not, ◌&&◌, ◌||◌,
  ◌==◌, if◌then◌else◌, bytes_of, to_string,
}
use mini_tor.Crypto.{Primitives}
use mini_tor.Net.{Net}
use mini_tor.Metrics.{TuiEvent, snapshot}
use mini_tor.Metrics.Format.{format_timestamp}
use mini_tor.Relay.Context.{CircuitState}
use mini_tor.Relay.Registry.{CircuitRegistry, circuit_count, circuit_summaries}
use mini_tor.Relay.Events.{
  EventKind, RelayMetrics, circuit_created, circuit_extended, circuit_destroyed, stream_opened,
  stream_closed, stream_data, error,
}
use mini_tor.Relay.Dashboard.Lines.{Span, format_event}

pub data FilterMode : Type 0 where
  all circuits streams errors : FilterMode

unfoldable pub show_filter : FilterMode → List ℕ
show_filter all = bytes_of "All"
show_filter circuits = bytes_of "Circuits"
show_filter streams = bytes_of "Streams"
show_filter errors = bytes_of "Errors"

pub record TuiState : Type 0 where
  pub paused : Bool
  pub filter : FilterMode

abbrev is_circuit_event : EventKind → Bool
is_circuit_event (circuit_created circuit_id) = true
is_circuit_event (circuit_extended circuit_id next_hop) = true
is_circuit_event (circuit_destroyed circuit_id) = true
is_circuit_event _ = false

abbrev is_stream_event : EventKind → Bool
is_stream_event (stream_opened circuit_id stream_id destination) = true
is_stream_event (stream_closed circuit_id stream_id) = true
is_stream_event (stream_data circuit_id stream_id bytes direction) = true
is_stream_event _ = false

abbrev is_error_event : EventKind → Bool
is_error_event (error message) = true
is_error_event _ = false

unfoldable pub matches_event : EventKind → FilterMode → Bool
matches_event kind all = true
matches_event kind circuits = is_circuit_event kind
matches_event kind streams = is_stream_event kind
matches_event kind errors = is_error_event kind

-- `flatten` of options.
abbrev pub flatten {ℓ} : {A : Type ℓ} → List (Option A) → List A
flatten [] = []
flatten (none ∷ os) = flatten os
flatten (some a ∷ os) = a ∷ flatten os

-- A key that is pressed, with the control key or without.
pub data Key : Type 0 where
  char : ℕ → Bool → Key
  other : Key

-- What a key does: to the state, or to end the loop.
unfoldable pub on_key : Key → TuiState → Option TuiState
on_key other s = some s
on_key (char c control) s =
    if c == 113 || c == 81
    then none
    else if c == 99 && control
    then none
    else if c == 112 || c == 80
    then some (record s { paused = not s.paused })
    else if c == 49
    then some (record s { filter = all })
    else if c == 50
    then some (record s { filter = circuits })
    else if c == 51
    then some (record s { filter = streams })
    else if c == 52
    then some (record s { filter = errors })
    else some s

-- What `poll` and `read` return within the tick: no key press, a key, or an error.
pub data Poll : Type 0 where
  quiet failed : Poll
  pressed : Key → Poll

pub data Outcome : Type 0 where
  quit failed : Outcome
  running : TuiState → Outcome

abbrev pub after_key : Option TuiState → Outcome
after_key none = quit
after_key (some s) = running s

unfoldable pub after_poll : Poll → TuiState → Outcome
after_poll quiet s = running s
after_poll failed s = failed
after_poll (pressed key) s = after_key (on_key key s)

-- The title of the activity log, and the lines that fit in its area.
unfoldable pub log_title : ℕ → TuiState → List ℕ
log_title total_events s =
    let pause_suffix = if s.paused then bytes_of "[PAUSED] " else [] in
    bytes_of " Activity Log ("
    ++ (to_string total_events ++ (bytes_of ") " ++ (pause_suffix ++ filter_suffix s.filter)))
  where
    filter_suffix : FilterMode → List ℕ
    filter_suffix all = []
    filter_suffix filter = bytes_of "[" ++ (show_filter filter ++ bytes_of "] ")

unfoldable pub visible_lines {ℓ} : {A : Type ℓ} → ℕ → List A → List A
visible_lines area_height lines =
    let visible_height = area_height - 2 in drop (length lines - visible_height) lines

pub record Frame : Type 0 where
  pub circuit_count : ℕ
  pub circuit_rows : List (ℕ × CircuitState)
  pub event_lines : List (List Span)
  pub state : TuiState

module _ (one_decimal : ℕ → ℕ → List ℕ) where
  abbrev pub line_if : FilterMode → TuiEvent EventKind → Option (List Span)
  line_if filter e =
      if matches_event e.kind filter
      then some (format_event one_decimal (format_timestamp e.elapsed) e.kind)
      else none

  unfoldable pub collect_event_lines : RelayMetrics → FilterMode → List (List Span)
  collect_event_lines m filter = flatten (snapshot (line_if filter) m.events)

  module _ ⦃prim : Primitives⦄ ⦃net : Net⦄ where
    -- A round finds the registry and the metrics like this; then it draws, which may fail, and polls.
    pub record Tick : Type 0 where
      pub registry : CircuitRegistry
      pub metrics : RelayMetrics
      pub drawn : Bool
      pub polled : Poll

    unfoldable pub frame_of : Tick → TuiState → Frame
    frame_of t s = record {
      circuit_count = circuit_count t.registry;
      circuit_rows = circuit_summaries t.registry;
      event_lines = collect_event_lines t.metrics s.filter;
      state = s;
    }

    abbrev pub continue : Outcome → (TuiState → List Frame × Outcome) → List Frame × Outcome
    continue quit next = ([], quit)
    continue failed next = ([], failed)
    continue (running s) next = next s

    -- The frames that are drawn, and how the loop stands after these rounds.
    unfoldable pub run_event_loop : TuiState → List Tick → List Frame × Outcome
    run_event_loop s [] = ([], running s)
    run_event_loop s (t ∷ ts) =
        let (frames, outcome) = continue (after_poll t.polled s) (λ s'. run_event_loop s' ts) in
        if t.drawn then (frame_of t s ∷ frames, outcome) else ([], failed)
