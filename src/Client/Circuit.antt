-- ===== src/Client/Circuit.antt =====
-- services/tor-client/src/core/circuit.rs: a circuit of the client, and its reader task one message
-- at a time. `path_display` and the metrics are not modelled.
use mini_tor.Prelude.{
  ℕ, ◌+◌, ◌%◌, ◌^◌, List, [], ◌∷◌, Bool, true, false, Option, none, some, Result, ok, err, length,
  lookup, remove, insert, ◌==◌, if◌then◌else◌,
}
use mini_tor.Protocol.{MessageCommand, Message, destroy, command_eq, to_u8}
use mini_tor.Protocol.Cells
use mini_tor.Protocol.Wire.{TorError, IoError, write_to_stream}
use mini_tor.Crypto.{Primitives}
use mini_tor.Crypto.Digest.{update, verify}
use mini_tor.Net.{Net}
use mini_tor.Client.Engine.{OnionKeys, onion_encrypt, onion_decrypt}

pub data CircuitState : Type 0 where
  building ready dirty closing closed : CircuitState

module _ ⦃prim : Primitives⦄ where
  -- The digest of the plaintext, then all layers.
  unfoldable pub seal_forward : OnionKeys → ℕ → ℕ → MessageCommand → List ℕ → OnionKeys × Message
  seal_forward keys circuit_id stream_id command plain =
      let (forward', digest) = update keys.forward_digest stream_id (to_u8 command) plain in
      let (keys', encrypted) = onion_encrypt (record keys { forward_digest = forward' }) plain in
      let msg = Cells.new circuit_id stream_id command encrypted in
      (keys', record msg { digest = digest })

  -- All layers off, then the digest check.
  unfoldable pub open_backward : OnionKeys → Message → OnionKeys × List ℕ × Bool
  open_backward keys msg =
      let (keys', decrypted) = onion_decrypt keys msg.payload in
      let (backward', matches) =
        verify keys'.backward_digest msg.stream_id (to_u8 msg.command) decrypted msg.digest in
      (record keys' { backward_digest = backward' }, decrypted, matches)

module _ ⦃prim : Primitives⦄ ⦃net : Net⦄ where
  pub record Circuit : Type 0 where
    pub circuit_id : ℕ
    pub state : CircuitState
    pub entry_writer : net.WriteHalf
    pub onion_keys : OnionKeys
    pub stream_senders : List (ℕ × net.MsgSender)
    pub next_stream_id : ℕ

  unfoldable pub active_stream_count : Circuit → ℕ
  active_stream_count c = length c.stream_senders

  -- u16 with wrap-around; 0 is skipped.
  unfoldable pub allocate_stream_id : Circuit → Circuit × ℕ
  allocate_stream_id c =
      let next = (c.next_stream_id + 1) % 2 ^ 16 in
      (record c { next_stream_id = if next == 0 then 1 else next }, c.next_stream_id)

  unfoldable pub register_stream : Circuit → ℕ → net.MsgSender → Circuit
  register_stream c stream_id sender = record c {
    stream_senders = insert stream_id sender c.stream_senders;
  }

  unfoldable pub unregister_stream : Circuit → ℕ → Circuit
  unregister_stream c stream_id = record c { stream_senders = remove stream_id c.stream_senders }

  -- The keys and the digest move on also when the write fails.
  unfoldable pub send_message :
      (ℕ → List ℕ) → Circuit → ℕ → MessageCommand → List ℕ → Circuit × Result TorError (Unit {0})
  unfolding seal_forward
  send_message fill c stream_id command plain =
      let (keys', msg) = seal_forward c.onion_keys c.circuit_id stream_id command plain in
      let (writer', r) = write_to_stream net.write_all msg fill c.entry_writer in
      (record c { onion_keys = keys'; entry_writer = writer' }, r)

  unfoldable pub send_raw : (ℕ → List ℕ) → Circuit → Message → Circuit × Result TorError (Unit {0})
  send_raw fill c msg =
      let (writer', r) = write_to_stream net.write_all msg fill c.entry_writer in
      (record c { entry_writer = writer' }, r)

  -- A decrypted message goes to its stream's channel; a closed or missing channel is only logged.
  unfoldable pub demux : Circuit → Message → Circuit
  demux c msg = elim (lookup msg.stream_id c.stream_senders) [
    | none ↦ c
    | some sender ↦ record c {
      stream_senders = insert msg.stream_id (net.send_msg sender msg).0 c.stream_senders;
    }
  ]

  unfoldable pub handle_backward : Circuit → Message → Circuit × Bool
  unfolding demux
  handle_backward c msg =
      let (keys', decrypted, matches) = open_backward c.onion_keys msg in
      let c' = record c { onion_keys = keys' } in
      if matches
      then (demux c' (Cells.new msg.circuit_id msg.stream_id msg.command decrypted), true)
      else (record c' { state = closed }, false)

  -- One round of the reader's loop; whether it goes on.
  unfoldable pub reader_step : Circuit → Result IoError (Option Message) → Circuit × Bool
  reader_step c (err e) = (record c { state = closed }, false)
  reader_step c (ok none) = (record c { state = closed }, false)
  reader_step c (ok (some msg)) =
      if command_eq msg.command destroy
      then (record c { state = closed; stream_senders = [] }, false)
      else handle_backward c msg

  -- What follows the loop.
  unfoldable pub reader_end : Circuit → Circuit
  reader_end c = record c { state = closed; stream_senders = [] }

  unfoldable pub run_reader : Circuit → List (Result IoError (Option Message)) → Circuit × Bool
  unfolding reader_step reader_end
  run_reader c [] = (c, true)
  run_reader c (r ∷ rs) =
      let first = reader_step c r in
      let more = run_reader first.0 rs in if first.1 then more else (reader_end first.0, false)
