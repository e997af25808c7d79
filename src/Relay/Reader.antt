-- ===== src/Relay/Reader.antt =====
-- services/relay-node/src/circuit/{entry,middle,handler}.rs: `spawn_nexthop_reader`, the task that
-- takes the cells of the next hop back to the previous one. One round of its loop is one step.
pub mod Backward
use mini_tor.Prelude.{
  ℕ, Bool, true, false, List, [], ◌∷◌, Option, none, some, Result, ok, err, if◌then◌else◌,
}
use mini_tor.Protocol.{Message, destroy, command_eq}
use mini_tor.Protocol.Cells
use mini_tor.Protocol.Wire.{TorError, IoError, write_to_stream}
use mini_tor.Crypto.{Primitives}
use mini_tor.Net.{Net}
use mini_tor.Relay.{Reply}
use mini_tor.Relay.Context.{NextHop, take_read}
use mini_tor.Relay.Registry.{
  CircuitHandler, CircuitRegistry, at_entry, at_middle, at_exit, handle_backward_message,
}

abbrev sent : Result TorError (Unit {0}) → Bool
sent (ok _) = true
sent (err _) = false

-- What a read comes to, and the fills of the cells that the round may write: a reply, and the
-- DESTROY at the end of the loop.
pub record Round : Type 0 where
  pub read : Result IoError (Option Message)
  pub fill : ℕ → List ℕ
  pub end_fill : ℕ → List ℕ

module _ ⦃prim : Primitives⦄ ⦃net : Net⦄ where
  -- The task of an entry or a middle relay, with the circuit's id and the half that it reads.
  pub data ReaderTask : Type 0 where
    entry_reader middle_reader : ℕ → net.ReadHalf → ReaderTask

  abbrev taken : Option NextHop → Option NextHop × Option net.ReadHalf
  taken none = (none, none)
  taken (some hop) = let (hop', read_half) = take_read hop in (some hop', read_half)

  abbrev on_half : (net.ReadHalf → ReaderTask) → Option net.ReadHalf → Option ReaderTask
  on_half task none = none
  on_half task (some read_half) = some (task read_half)

  -- The read half can be taken once, so that a circuit gets one task; an exit gets none.
  unfoldable pub spawn_nexthop_reader : CircuitHandler → CircuitHandler × Option ReaderTask
  spawn_nexthop_reader (at_entry h) =
      let (next', read_half) = taken h.next in
      (at_entry (record h { next = next' }), on_half (entry_reader h.context.circuit_id) read_half)
  spawn_nexthop_reader (at_middle h) =
      let (next', read_half) = taken h.next in
      (
        at_middle (record h { next = next' }),
        on_half (middle_reader h.context.circuit_id) read_half,
      )
  spawn_nexthop_reader (at_exit h) = (at_exit h, none)

  -- What the tasks share behind mutexes.
  pub record CircuitIoContext : Type 0 where
    pub circuit_registry : CircuitRegistry
    pub prev_hop_write : net.WriteHalf

  unfoldable pub write_prev : (ℕ → List ℕ) → Message → CircuitIoContext → CircuitIoContext × Bool
  write_prev fill msg io =
      let (write', r) = write_to_stream net.write_all msg fill io.prev_hop_write in
      (record io { prev_hop_write = write' }, sent r)

  -- A reply, if there is one; whether nothing failed.
  unfoldable pub answer_prev :
      (ℕ → List ℕ) → Option Message → CircuitIoContext → CircuitIoContext × Bool
  answer_prev fill none io = (io, true)
  answer_prev fill (some response) io = write_prev fill response io

  unfoldable pub destroy_prev : (ℕ → List ℕ) → ℕ → CircuitIoContext → CircuitIoContext
  destroy_prev fill circuit_id io =
      let io' = (write_prev fill (Cells.destroy circuit_id) io).0 in
      record io' { prev_hop_write = net.shutdown io'.prev_hop_write }

  unfoldable pub send_reply :
      (ℕ → List ℕ) → CircuitIoContext → CircuitRegistry × Reply → CircuitIoContext × Bool
  send_reply fill io (registry', ok response) =
      answer_prev fill response (record io { circuit_registry = registry' })
  send_reply fill io (registry', err e) = (record io { circuit_registry = registry' }, false)

  -- One message of the next hop; whether the loop goes on.
  unfoldable pub pass_backward : (ℕ → List ℕ) → Message → CircuitIoContext → CircuitIoContext × Bool
  pass_backward fill msg io = send_reply fill io (handle_backward_message io.circuit_registry msg)

  unfoldable pub reader_id : ReaderTask → ℕ
  reader_id (entry_reader circuit_id _) = circuit_id
  reader_id (middle_reader circuit_id _) = circuit_id

  -- The entry's task stops at a DESTROY; the middle's passes it back like any other cell.
  unfoldable pub stops_at : ReaderTask → Message → Bool
  stops_at (entry_reader _ _) msg = command_eq msg.command destroy
  stops_at (middle_reader _ _) msg = false

  -- The loop's body, and what follows the loop when it is left.
  unfoldable pub on_message :
      ReaderTask → Round → Message → CircuitIoContext → CircuitIoContext × Bool
  on_message task round msg io =
      if stops_at task msg then (io, false) else pass_backward round.fill msg io

  unfoldable pub on_read :
      ReaderTask
      → Round
      → Result IoError (Option Message)
      → CircuitIoContext
      → CircuitIoContext × Bool
  on_read task round (ok (some msg)) io = on_message task round msg io
  on_read task round (ok none) io = (io, false)
  on_read task round (err e) io = (io, false)

  unfoldable pub reader_round : ReaderTask → Round → CircuitIoContext → CircuitIoContext × Bool
  reader_round task round io =
      let (io', goes_on) = on_read task round round.read io in
      (if goes_on then io' else destroy_prev round.end_fill (reader_id task) io', goes_on)

  -- The rounds of a task, until one ends it.
  unfoldable pub run_reader : ReaderTask → List Round → CircuitIoContext → CircuitIoContext × Bool
  run_reader task [] io = (io, true)
  run_reader task (round ∷ rounds) io =
      let first = reader_round task round io in
      let more = run_reader task rounds first.0 in if first.1 then more else (first.0, false)
