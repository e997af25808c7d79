-- ===== src/Relay/Accept.antt =====
-- services/relay-node/src/main.rs: `accept_connections`, whose semaphore bounds the connections that
-- are served at a time, and `build_metrics`.
use mini_tor.Prelude.{
  ℕ, ◌+◌, ◌-◌, ◌%◌, ◌^◌, ◌↔◌, ◌≡◌, ◌≤◌, refl, List, [], ◌∷◌, false, leb, if◌then◌else◌, arith,
}
use mini_tor.Types.{NodeMetrics}
use mini_tor.Crypto.{Primitives}
use mini_tor.Net.{Net}
use mini_tor.Relay.Events.{RelayMetrics, event_snapshot}
use mini_tor.Relay.Registry.{CircuitRegistry, circuit_count}

-- The counter of accepted connections, the semaphore's permits, and the tasks that hold one.
pub record Acceptor : Type 0 where
  pub connections_accepted : ℕ
  pub permits : ℕ
  pub serving : ℕ

unfoldable pub start : ℕ → Acceptor
start max_concurrent = record { connections_accepted = 0; permits = max_concurrent; serving = 0 }

-- What the listener and the tasks do: a connection comes in, accepting fails, or a task ends and gives
-- its permit back.
pub data AcceptEvent : Type 0 where
  incoming accept_failed task_ended : AcceptEvent

-- A connection without a permit is dropped, after it was counted.
unfoldable pub accept_connection : Acceptor → Acceptor
accept_connection a =
    let counted = record a { connections_accepted = (a.connections_accepted + 1) % 2 ^ 64 } in
    if leb 1 a.permits
    then record counted { permits = a.permits - 1; serving = a.serving + 1 }
    else counted

unfoldable pub end_task : Acceptor → Acceptor
end_task a =
    if leb 1 a.serving then record a { permits = a.permits + 1; serving = a.serving - 1 } else a

unfoldable pub accept_step : Acceptor → AcceptEvent → Acceptor
accept_step a incoming = accept_connection a
accept_step a accept_failed = a
accept_step a task_ended = end_task a

unfoldable pub accept_connections : Acceptor → List AcceptEvent → Acceptor
accept_connections a [] = a
accept_connections a (e ∷ es) = accept_connections (accept_step a e) es

accept_step-balance :
    (a : Acceptor) (e : AcceptEvent)
    → (accept_step a e).permits + (accept_step a e).serving ≡ a.permits + a.serving
unfolding accept_step accept_connection end_task
accept_step-balance a incoming = ground arith
accept_step-balance a accept_failed = refl
accept_step-balance a task_ended = ground arith

accept_connections-balance :
    (a : Acceptor) (es : List AcceptEvent)
    → (accept_connections a es).permits + (accept_connections a es).serving ≡ a.permits + a.serving
unfolding accept_connections
accept_connections-balance a [] = refl
accept_connections-balance a (e ∷ es) =
    let step = accept_step-balance a e in
    let more = accept_connections-balance (accept_step a e) es in omega (arith, step, more)

-- Whatever comes in, fails and ends, a relay never serves more connections at a time than its maximum,
-- and it serves the maximum exactly when no permit is left.
pub accept_connections-bound :
    (max_concurrent : ℕ) (es : List AcceptEvent)
    → let a = accept_connections (start max_concurrent) es in
      (a.serving ≤ max_concurrent) × ((leb 1 a.permits ≡ false) ↔ (a.serving ≡ max_concurrent))
unfolding start
accept_connections-bound max_concurrent es =
    let balance = accept_connections-balance (start max_concurrent) es in
    (omega (arith, balance), ground (arith, balance))

module _ ⦃prim : Primitives⦄ ⦃net : Net⦄ where
  unfoldable pub build_metrics : (ℕ → ℕ → List ℕ) → ℕ → RelayMetrics → CircuitRegistry → NodeMetrics
  build_metrics one_decimal now m r = record {
    connections_accepted = m.connections_accepted;
    circuits_active = circuit_count r;
    circuits_created = m.circuits_created;
    circuits_destroyed = m.circuits_destroyed;
    bytes_forwarded = m.bytes_forwarded;
    bytes_received = m.bytes_received;
    streams_opened = m.streams_opened;
    uptime_secs = now - m.start_time;
    event_snapshot = event_snapshot one_decimal m;
  }
