-- ===== src/Relay/Dashboard/Shown.antt =====
-- What the dashboard of a relay (tui/mod.rs) shows, by the events that came and the keys.
use mini_tor.Prelude.{
  ℕ, ◌≡◌, refl, ap, ◌∙◌, List, [], ◌∷◌, map, Option, none, some, Bool, Bool-cases, inl, inr, arith,
  if◌then◌else◌, ◌==◌, ◌||◌, ◌&&◌,
}
use mini_tor.Crypto.{Primitives}
use mini_tor.Net.{Net}
use mini_tor.Metrics.{TuiEvent, EventBuffer, snapshot, stamped, last_n, snapshot-push_all}
use mini_tor.Metrics.Format.{format_timestamp}
use mini_tor.Discovery.Nodes.{retain}
use mini_tor.Relay.Registry.{CircuitRegistry}
use mini_tor.Relay.Events.{EventKind, new, event_buffer_capacity}
use mini_tor.Relay.Events.Heartbeat.{push_events, push_events-events}
use mini_tor.Relay.Dashboard.{
  FilterMode, all, circuits, streams, errors, TuiState, matches_event, flatten, Key, char, other,
  on_key, Poll, quiet, failed, pressed, Outcome, after_key, after_poll, Frame, line_if,
  collect_event_lines, Tick, frame_of, continue, run_event_loop,
}
use mini_tor.Relay.Dashboard.Lines.{Span, format_event}

-- The filter that a key leaves, none when it ends the loop.
abbrev chosen : FilterMode → Key → Option FilterMode
chosen f other = some f
chosen f (char c control) =
    if c == 113 || c == 81
    then none
    else if c == 99 && control
    then none
    else if c == 49
    then some all
    else if c == 50
    then some circuits
    else if c == 51
    then some streams
    else if c == 52
    then some errors
    else some f

abbrev filter_after : FilterMode → Poll → Option FilterMode
filter_after f quiet = some f
filter_after f failed = none
filter_after f (pressed key) = chosen f key

abbrev filter_of : Outcome → Option FilterMode
filter_of Outcome.quit = none
filter_of Outcome.failed = none
filter_of (Outcome.running s) = some s.filter

on_key-filter :
    (key : Key) (s : TuiState) → filter_of (after_key (on_key key s)) ≡ chosen s.filter key
unfolding on_key
on_key-filter other s = refl
on_key-filter (char c control) s = ground arith

after_poll-filter :
    (poll : Poll) (s : TuiState) → filter_of (after_poll poll s) ≡ filter_after s.filter poll
unfolding after_poll
after_poll-filter quiet s = refl
after_poll-filter failed s = refl
after_poll-filter (pressed key) s = on_key-filter key s

module _ (one_decimal : ℕ → ℕ → List ℕ) where
  abbrev line : TuiEvent EventKind → List Span
  line e = format_event one_decimal (format_timestamp e.elapsed) e.kind

  -- The lines of the latest events that a filter lets through, 200 events at most.
  abbrev pub log : ℕ → List (ℕ × EventKind) → FilterMode → List (List Span)
  log start pushes filter = map line (
      retain (λ (e : TuiEvent EventKind). matches_event e.kind filter)
        (last_n 200 (stamped start pushes)))

  flatten-map :
      (filter : FilterMode) (es : List (TuiEvent EventKind))
      → flatten (map (line_if one_decimal filter) es)
        ≡ map line (retain (λ (e : TuiEvent EventKind). matches_event e.kind filter) es)
  unfolding retain
  flatten-map filter [] = refl
  flatten-map filter (e ∷ es) =
      let rest = flatten-map filter es in
      elim (Bool-cases (matches_event e.kind filter)) [
        | inl shown ↦ rw shown (ap (λ (ls : List (List Span)). line e ∷ ls) rest)
        | inr hidden ↦ rw hidden rest
      ]

  collect_event_lines-log :
      (start : ℕ) (pushes : List (ℕ × EventKind)) (filter : FilterMode)
      → collect_event_lines one_decimal (push_events (new start) pushes) filter
        ≡ log start pushes filter
  unfolding collect_event_lines new
  collect_event_lines-log start pushes filter =
      let f = line_if one_decimal filter in
      ap (λ (b : EventBuffer EventKind). flatten (snapshot f b))
        (push_events-events (new start) pushes)
      ∙ (ap flatten (snapshot-push_all f event_buffer_capacity start pushes (omega arith))
          ∙ flatten-map filter (last_n 200 (stamped start pushes)))

  module _ ⦃prim : Primitives⦄ ⦃net : Net⦄ where
    -- A round, with the events that the relay has had by then.
    pub record Moment : Type 0 where
      pub registry : CircuitRegistry
      pub pushes : List (ℕ × EventKind)
      pub drawn : Bool
      pub polled : Poll

    abbrev pub tick_at : ℕ → Moment → Tick one_decimal
    tick_at start x = record {
      registry = x.registry;
      metrics = push_events (new start) x.pushes;
      drawn = x.drawn;
      polled = x.polled;
    }

    abbrev with_filter :
        Option FilterMode → (FilterMode → List (List (List Span))) → List (List (List Span))
    with_filter none next = []
    with_filter (some f) next = next f

    -- The description: a log for each frame. Nothing in it is paused.
    abbrev pub logs : ℕ → FilterMode → List Moment → List (List (List Span))
    logs start f [] = []
    logs start f (x ∷ xs) =
        let rest = with_filter (filter_after f x.polled) (λ f'. logs start f' xs) in
        if x.drawn then log start x.pushes f ∷ rest else []

    abbrev pub shown_lines : List Frame × Outcome → List (List (List Span))
    shown_lines run = map (λ (f : Frame). f.event_lines) run.0

    continue-shown :
        (o : Outcome) (next : TuiState → List Frame × Outcome)
        (described : FilterMode → List (List (List Span)))
        → ((s : TuiState) → shown_lines (next s) ≡ described s.filter)
        → shown_lines (continue one_decimal o next) ≡ with_filter (filter_of o) described
    continue-shown Outcome.quit next described each = refl
    continue-shown Outcome.failed next described each = refl
    continue-shown (Outcome.running s) next described each = each s

    -- Every frame that the dashboard draws has in its log just those of the latest events, 200 at most,
    -- that the filter lets through which was chosen last, in order. The pause key changes nothing of
    -- this: a log that is titled as paused goes on.
    pub run_event_loop-logs :
        (start : ℕ) (s : TuiState) (moments : List Moment)
        → shown_lines (run_event_loop one_decimal s (map (tick_at start) moments))
          ≡ logs start s.filter moments
    unfolding run_event_loop frame_of
    run_event_loop-logs start s [] = refl
    run_event_loop-logs start s (x ∷ xs) =
        let next : TuiState → List Frame × Outcome =
          λ s'. run_event_loop one_decimal s' (map (tick_at start) xs) in
        let rest : shown_lines (continue one_decimal (after_poll x.polled s) next)
            ≡ with_filter (filter_after s.filter x.polled) (λ f. logs start f xs) =
          continue-shown (after_poll x.polled s) next (λ f. logs start f xs)
            (λ s'. run_event_loop-logs start s' xs)
          ∙ ap (λ (o : Option FilterMode). with_filter o (λ f. logs start f xs))
              (after_poll-filter x.polled s) in
        elim (Bool-cases x.drawn) [
          | inl drawn ↦
              rw (drawn, collect_event_lines-log start x.pushes s.filter)
                (ap (λ (ls : List (List (List Span))). log start x.pushes s.filter ∷ ls) rest)
          | inr undrawn ↦ rw undrawn refl
        ]
