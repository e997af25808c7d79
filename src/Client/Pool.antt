-- ===== src/Client/Pool.antt =====
-- services/tor-client/src/core/circuit.rs: `CircuitPool`. The maps are lists, in the order in which they
-- are gone through. A path of the directory and the draws of the builder are arguments, and so is
-- what `Instant::now()` returns. The read half that is returned beside a circuit is left out.
use mini_tor.Prelude.{
  ℕ, ◌+◌, ◌-◌, ◌%◌, ◌^◌, List, [], ◌∷◌, Bool, true, false, Option, none, some, ok, err, lookup,
  insert, remove, ltb, leb, if◌then◌else◌,
}
use mini_tor.Types.{NodeDescriptor}
use mini_tor.Crypto.{Primitives}
use mini_tor.Net.{Net}
use mini_tor.Relay.{Draws}
use mini_tor.Client.Circuit.{Circuit, CircuitState, ready, dirty, active_stream_count}
use mini_tor.Client.Builder.{build}

unfoldable pub is_ready : CircuitState → Bool
is_ready ready = true
is_ready _ = false

module _ ⦃prim : Primitives⦄ ⦃net : Net⦄ where
  pub record CircuitPool : Type 0 where
    pub circuits : List (ℕ × Circuit)
    pub next_circuit_id : ℕ
    pub pool_size : ℕ
    pub hop_count : ℕ
    pub max_rebuild_attempts : ℕ
    pub rebuild_failure_counts : List (ℕ × ℕ)
    pub abandoned_slots : List (ℕ × Unit {0})
    pub circuit_ages : List (ℕ × ℕ)
    pub max_circuit_age : ℕ

  unfoldable pub new : ℕ → ℕ → ℕ → CircuitPool
  new pool_size hop_count max_rebuild_attempts = record {
    circuits = [];
    next_circuit_id = 1;
    pool_size = pool_size;
    hop_count = hop_count;
    max_rebuild_attempts = max_rebuild_attempts;
    rebuild_failure_counts = [];
    abandoned_slots = [];
    circuit_ages = [];
    max_circuit_age = 600;
  }

  -- u32, with wrap-around
  unfoldable pub allocate_circuit_id : CircuitPool → CircuitPool × ℕ
  allocate_circuit_id p =
      (record p { next_circuit_id = (p.next_circuit_id + 1) % 2 ^ 32 }, p.next_circuit_id)

  -- The loop of select_circuit: the id and the streams of the best circuit so far.
  unfoldable pub least_loaded : Option (ℕ × ℕ) → List (ℕ × Circuit) → Option (ℕ × ℕ)
  least_loaded best [] = best
  least_loaded none ((id, c) ∷ cs) =
      let count = active_stream_count c in
      let skipped = least_loaded none cs in
      let taken = least_loaded (some (id, count)) cs in if is_ready c.state then taken else skipped
  least_loaded (some (best_id, best_count)) ((id, c) ∷ cs) =
      let count = active_stream_count c in
      let skipped = least_loaded (some (best_id, best_count)) cs in
      let taken = least_loaded (some (id, count)) cs in
      if is_ready c.state then (if ltb count best_count then taken else skipped) else skipped

  -- `path` is what the directory returned, `none` for its error.
  unfoldable pub build_circuit :
      (ℕ → Draws) → ℕ → Option (List NodeDescriptor) → CircuitPool → CircuitPool × Option ℕ
  unfolding allocate_circuit_id
  build_circuit draws now none p = ((allocate_circuit_id p).0, none)
  build_circuit draws now (some path) p =
      let (p', circuit_id) = allocate_circuit_id p in
      elim (build draws circuit_id path) [
        | err e ↦ (p', none)
        | ok (circuit, read_half) ↦ (
          record p' {
            circuits = insert circuit_id circuit p'.circuits;
            circuit_ages = insert circuit_id now p'.circuit_ages;
          },
          some circuit_id,
        )
      ]

  -- A ready circuit, or one that is built for the purpose.
  unfoldable pub select_circuit :
      (ℕ → Draws) → ℕ → Option (List NodeDescriptor) → CircuitPool → CircuitPool × Option ℕ
  unfolding least_loaded build_circuit
  select_circuit draws now path p = elim (least_loaded none p.circuits) [
    | some (circuit_id, count) ↦ (p, some circuit_id)
    | none ↦ build_circuit draws now path p
  ]

  unfoldable pub is_abandoned : CircuitPool → ℕ → Bool
  is_abandoned p circuit_id = elim (lookup circuit_id p.abandoned_slots) [
    | none ↦ false
    | some _ ↦ true
  ]

  abbrev pub failures : Option ℕ → ℕ
  failures none = 0
  failures (some n) = n

  -- A failed build counts against the slot, and abandons it when the budget is used up.
  unfoldable pub rebuild_failed : ℕ → CircuitPool → CircuitPool
  rebuild_failed failed_id p =
      let count = failures (lookup failed_id p.rebuild_failure_counts) + 1 in
      record p {
        rebuild_failure_counts = insert failed_id count p.rebuild_failure_counts;
        abandoned_slots =
            if leb p.max_rebuild_attempts count
            then insert failed_id tt p.abandoned_slots
            else p.abandoned_slots;
      }

  unfoldable pub replace_circuit :
      (ℕ → Draws) → ℕ → Option (List NodeDescriptor) → ℕ → CircuitPool → CircuitPool × Option ℕ
  unfolding build_circuit rebuild_failed
  replace_circuit draws now path failed_id p =
      let (p', built) =
        build_circuit draws now path (record p { circuits = remove failed_id p.circuits }) in
      elim built [
        | none ↦ (rebuild_failed failed_id p', none)
        | some circuit_id ↦ (
          record p' { rebuild_failure_counts = remove failed_id p'.rebuild_failure_counts },
          some circuit_id,
        )
      ]

  -- An aged circuit that is ready becomes dirty, and loses its age.
  unfoldable pub expire_one : ℕ → CircuitPool × List ℕ → CircuitPool × List ℕ
  expire_one id (p, aged_out) = elim (lookup id p.circuits) [
    | none ↦ (p, aged_out)
    | some c ↦
        if is_ready c.state
        then (
          record p {
            circuits = insert id (record c { state = dirty }) p.circuits;
            circuit_ages = remove id p.circuit_ages;
          },
          id ∷ aged_out,
        )
        else (p, aged_out)
  ]

  unfoldable pub aged : ℕ → ℕ → List (ℕ × ℕ) → List ℕ
  aged now age [] = []
  aged now age ((id, created) ∷ ages) =
      let rest = aged now age ages in if leb age (now - created) then id ∷ rest else rest

  abbrev expire_each : List ℕ → CircuitPool × List ℕ → CircuitPool × List ℕ
  expire_each [] s = s
  expire_each (id ∷ ids) s = expire_each ids (expire_one id s)

  -- The ids that were aged out come out in the reverse order.
  unfoldable pub expire_aged_circuits : ℕ → CircuitPool → CircuitPool × List ℕ
  unfolding expire_one aged
  expire_aged_circuits now p = expire_each (aged now p.max_circuit_age p.circuit_ages) (p, [])
