-- ===== src/Relay/Exit/Task.antt =====
-- services/relay-node/src/circuit/exit.rs: `spawn_stream_tasks`, one event of its loop at a time. The
-- task shares the crypto state and the writer with the handler.
use mini_tor.Prelude.{
  ℕ, zero, suc, List, [], ◌∷◌, ◌++◌, Bool, true, false, ok, err, length, take, drop, if◌then◌else◌,
  bytes_of,
}
use mini_tor.Protocol.{MessageCommand, data_cell, end, max_payload_size}
use mini_tor.Protocol.Wire.{write_to_stream}
use mini_tor.Crypto.{Primitives}
use mini_tor.Net.{Net}
use mini_tor.Relay.Exit.{ExitCryptoState, seal_backward}

-- `chunks(n)`: pieces of n bytes, the last one maybe shorter. The fuel is the list's length.
unfoldable pub chunks_upto : ℕ → ℕ → List ℕ → List (List ℕ)
chunks_upto zero n xs = []
chunks_upto (suc fuel) n [] = []
chunks_upto (suc fuel) n (x ∷ xs) = take n (x ∷ xs) ∷ chunks_upto fuel n (drop n (x ∷ xs))

unfoldable pub chunks : ℕ → List ℕ → List (List ℕ)
unfolding chunks_upto
chunks n xs = chunks_upto (length xs) n xs

-- What the select of the loop wakes up with.
pub data TaskEvent : Type 0 where
  destination_closed : TaskEvent
  destination_sent : List ℕ → TaskEvent
  read_error : List ℕ → TaskEvent
  -- bytes from the handler, and whether the destination took them
  queued : Bool → TaskEvent
  control_closed : TaskEvent

module _ ⦃prim : Primitives⦄ ⦃net : Net⦄ where
  -- The shared state, and the writer to the previous hop.
  pub record Shared : Type 0 where
    pub state : ExitCryptoState
    pub writer : net.WriteHalf

  -- One cell, sealed and written; whether the write succeeded.
  unfoldable pub send_cell : (ℕ → List ℕ) → ℕ → ℕ → MessageCommand → Shared → List ℕ → Shared × Bool
  send_cell fill circuit_id stream_id command sh plain =
      let (s', msg) = seal_backward sh.state circuit_id stream_id command plain in
      let (w', r) = write_to_stream net.write_all msg fill sh.writer in
      (record { state = s'; writer = w' }, elim r [ ok _ ↦ true | err _ ↦ false ])

  -- The chunks of one read, up to the first write that fails.
  unfoldable pub send_chunks : (ℕ → List ℕ) → ℕ → ℕ → Shared → List (List ℕ) → Shared × Bool
  send_chunks fill circuit_id stream_id sh [] = (sh, true)
  send_chunks fill circuit_id stream_id sh (chunk ∷ rest) =
      let first = send_cell fill circuit_id stream_id data_cell sh chunk in
      let more = send_chunks fill circuit_id stream_id first.0 rest in
      if first.1 then more else (first.0, false)

  -- The result tells whether the loop goes on.
  unfoldable pub step : (ℕ → List ℕ) → ℕ → ℕ → Shared → TaskEvent → Shared × Bool
  step fill circuit_id stream_id sh destination_closed =
      ((send_cell fill circuit_id stream_id end sh []).0, false)
  step fill circuit_id stream_id sh (destination_sent bytes) =
      send_chunks fill circuit_id stream_id sh (chunks max_payload_size bytes)
  step fill circuit_id stream_id sh (read_error e) =
      ((send_cell fill circuit_id stream_id end sh (bytes_of "Read error: " ++ e)).0, false)
  step fill circuit_id stream_id sh (queued taken) = (sh, taken)
  step fill circuit_id stream_id sh control_closed = (sh, false)
