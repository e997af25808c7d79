-- ===== src/Client/Monitor.antt =====
-- services/tor-client/src/core/circuit.rs: `CircuitPool::initialize`, `spawn_circuit_monitor` and
-- `spawn_circuit_keepalive`, one round of their loops at a time. The readers that the monitor spawns
-- and the time that it sleeps are not part of a round; what each build meets with is an argument.
pub mod Cleaning
pub mod Slots
pub mod Tests
use mini_tor.Prelude.{
  ℕ, zero, suc, ◌+◌, ◌-◌, ◌*◌, ◌%◌, ◌^◌, min, List, [], ◌∷◌, Bool, true, false, ◌&&◌, ◌==◌, Option,
  none, some, lookup, remove, ltb, if◌then◌else◌,
}
use mini_tor.Protocol.Cells
use mini_tor.Types.{NodeDescriptor}
use mini_tor.Crypto.{Primitives}
use mini_tor.Net.{Net}
use mini_tor.Relay.{Draws}
use mini_tor.Client.Circuit.{
  Circuit, CircuitState, building, ready, dirty, closing, closed, active_stream_count, send_raw,
}
use mini_tor.Client.Pool.{
  CircuitPool, is_ready, build_circuit, is_abandoned, failures, replace_circuit,
  expire_aged_circuits,
}

-- What a build meets with: its draws, the instant, and the directory's path.
pub record BuildInput : Type 0 where
  pub draws : ℕ → Draws
  pub now : ℕ
  pub path : Option (List NodeDescriptor)

-- What is drawn for the padding cell of a circuit, and the fill of the cell after its payload.
pub record PaddingDraw : Type 0 where
  pub payload_len : ℕ
  pub payload : ℕ → List ℕ
  pub fill : ℕ → List ℕ

unfoldable pub is_dirty : CircuitState → Bool
is_dirty dirty = true
is_dirty _ = false

unfoldable pub is_closed : CircuitState → Bool
is_closed closed = true
is_closed _ = false

-- The seconds to wait before a slot is rebuilt: u64, where the shift takes its amount modulo 64 and the
-- product wraps around.
unfoldable pub backoff_secs : ℕ → ℕ
backoff_secs count = min (5 * (2 ^ (count % 64)) % 2 ^ 64) 60

-- What is left of it after the monitor's interval.
unfoldable pub backoff_sleep : ℕ → ℕ → ℕ
backoff_sleep check_interval count =
    let backoff = backoff_secs count in
    if ltb check_interval backoff then backoff - check_interval else 0

module _ ⦃prim : Primitives⦄ ⦃net : Net⦄ where
  -- As many circuits as the pool's size, up to the first failure; whether all were built.
  unfoldable pub build_all : (ℕ → BuildInput) → ℕ → ℕ → CircuitPool → CircuitPool × Bool
  build_all inputs i zero p = (p, true)
  build_all inputs i (suc n) p =
      let input = inputs i in
      let first = build_circuit input.draws input.now input.path p in
      let more = build_all inputs (i + 1) n first.0 in
      elim first.1 [ some _ ↦ more | none ↦ (first.0, false) ]

  unfoldable pub initialize : (ℕ → BuildInput) → CircuitPool → CircuitPool × Bool
  initialize inputs p = build_all inputs 0 p.pool_size p

  -- One build for each circuit that aged out; a failure is only logged.
  unfoldable pub build_each : (ℕ → BuildInput) → ℕ → List ℕ → CircuitPool → CircuitPool
  build_each inputs i [] p = p
  build_each inputs i (id ∷ ids) p =
      let input = inputs i in
      build_each inputs (i + 1) ids (build_circuit input.draws input.now input.path p).0

  unfoldable pub ids_where : (Circuit → Bool) → List (ℕ × Circuit) → List ℕ
  ids_where test [] = []
  ids_where test ((id, c) ∷ cs) = let rest = ids_where test cs in if test c then id ∷ rest else rest

  unfoldable pub is_idle_dirty : Circuit → Bool
  is_idle_dirty c = is_dirty c.state && active_stream_count c == 0

  unfoldable pub has_failed : Circuit → Bool
  has_failed c = is_closed c.state

  unfoldable pub remove_each : List ℕ → List (ℕ × Circuit) → List (ℕ × Circuit)
  remove_each [] cs = cs
  remove_each (id ∷ ids) cs = remove_each ids (remove id cs)

  unfoldable pub remove_idle_dirty : CircuitPool → CircuitPool
  remove_idle_dirty p = record p {
    circuits = remove_each (ids_where is_idle_dirty p.circuits) p.circuits;
  }

  -- Slots that are abandoned are passed over.
  unfoldable pub replace_each : (ℕ → BuildInput) → ℕ → List ℕ → CircuitPool → CircuitPool
  replace_each inputs i [] p = p
  replace_each inputs i (id ∷ ids) p =
      let input = inputs i in
      let skipped = replace_each inputs (i + 1) ids p in
      let replaced =
        replace_each inputs (i + 1) ids (replace_circuit input.draws input.now input.path id p).0 in
      if is_abandoned p id then skipped else replaced

  -- A round: expire, build for what expired, clean up, and replace what is closed.
  unfoldable pub monitor_round : ℕ → (ℕ → BuildInput) → (ℕ → BuildInput) → CircuitPool → CircuitPool
  monitor_round now builds replacements p =
      let (p1, expired) = expire_aged_circuits now p in
      let p2 = remove_idle_dirty (build_each builds 0 expired p1) in
      replace_each replacements 0 (ids_where has_failed p2.circuits) p2

  -- A padding cell of random bytes on every ready circuit; a failure is only logged.
  unfoldable pub keepalive : (ℕ → PaddingDraw) → List (ℕ × Circuit) → List (ℕ × Circuit)
  keepalive draw [] = []
  keepalive draw ((id, c) ∷ cs) =
      let d = draw id in
      let c' = (send_raw d.fill c (Cells.padding c.circuit_id d.payload_len d.payload)).0 in
      (id, if is_ready c.state then c' else c) ∷ keepalive draw cs

  unfoldable pub keepalive_round : (ℕ → PaddingDraw) → CircuitPool → CircuitPool
  keepalive_round draw p = record p { circuits = keepalive draw p.circuits }
