-- ===== src/Relay/Exit/Handlers.antt =====
-- services/relay-node/src/circuit/exit.rs: the handlers of BEGIN, DATA and END, and the dispatch.
use mini_tor.Prelude.{
  ℕ, List, [], ◌∷◌, ◌++◌, Option, none, some, ok, err, ◌==◌, if◌then◌else◌, lookup, remove, insert,
  bytes_of,
}
use mini_tor.Protocol.{
  MessageCommand, Message, padding, create, created, extend, extended, destroy, begin, connected,
  data_cell, end,
}
use mini_tor.Protocol.Wire.{write_to_stream}
use mini_tor.Crypto.{Primitives}
use mini_tor.Net.{Net}
use mini_tor.Relay.{
  Reply, Draws, not_established, send_failed, unexpected_command, digest_mismatch, invalid_utf8,
  no_writer,
}
use mini_tor.Relay.Context
use mini_tor.Relay.Exit.{
  ExitStream, ExitCryptoState, ExitCircuitHandler, open_forward, seal_backward, with_state,
  reply_end, handle_create,
}

-- `trim_end_matches('\0')`
unfoldable pub trim_end_zeros : List ℕ → List ℕ
trim_end_zeros [] = []
trim_end_zeros (b ∷ bs) = elim (trim_end_zeros bs) [
  | [] ↦ if b == 0 then [] else b ∷ []
  | c ∷ cs ↦ b ∷ c ∷ cs
]

module _ ⦃prim : Primitives⦄ ⦃net : Net⦄ where
  -- The destination answered: CONNECTED goes to the previous hop, and a task takes the stream over.
  unfoldable pub connected_to :
      Draws
      → ExitCircuitHandler
      → ExitCryptoState
      → ℕ
      → List ℕ
      → net.TcpStream
      → net.WriteHalf
      → ExitCircuitHandler × net.WriteHalf × Reply
  connected_to draws h s stream_id dest stream w =
      let (s', response) = seal_backward s h.context.circuit_id stream_id connected [] in
      let (w', r) = write_to_stream net.write_all response draws.fill w in
      elim r [
        | err e ↦ (with_state h s', w', err (send_failed e))
        | ok _ ↦
            let opened : ExitStream = record { destination = dest; dest_tx = net.channel stream } in
            (record (with_state h s') { streams = insert stream_id opened h.streams }, w', ok none)
      ]

  abbrev beside_writer {ℓ} :
      {W : Type ℓ} → W → ExitCircuitHandler × Reply → ExitCircuitHandler × W × Reply
  beside_writer w (h, r) = (h, w, r)

  unfoldable pub connect_destination :
      Draws
      → ExitCircuitHandler
      → ExitCryptoState
      → ℕ
      → List ℕ
      → net.WriteHalf
      → ExitCircuitHandler × net.WriteHalf × Reply
  unfolding connected_to reply_end
  connect_destination draws h s stream_id dest w = elim (net.connect_tcp dest) [
    | some stream ↦ connected_to draws h s stream_id dest stream w
    | none ↦
        beside_writer w
          (reply_end h s stream_id (bytes_of "Connection failed: " ++ net.connect_error dest))
  ]

  unfoldable pub handle_begin :
      Draws
      → ExitCircuitHandler
      → Message
      → net.WriteHalf
      → ExitCircuitHandler × net.WriteHalf × Reply
  handle_begin draws h msg w = elim h.shared_state [
    | none ↦ (h, w, err not_established)
    | some state ↦
        let (s, decrypted, matches) = open_forward state msg in
        let h' = with_state h s in
        if matches
        then (if net.is_utf8 decrypted
            then connect_destination draws h' s msg.stream_id (trim_end_zeros decrypted) w
            else (h', w, err invalid_utf8))
        else (h', w, err (digest_mismatch begin))
  ]

  -- Hand the bytes to the stream's task, or answer END if that task or the stream is gone.
  unfoldable pub deliver :
      ExitCircuitHandler → ExitCryptoState → ℕ → List ℕ → ExitCircuitHandler × Reply
  unfolding reply_end
  deliver h s stream_id decrypted = elim (lookup stream_id h.streams) [
    | none ↦ reply_end h s stream_id (bytes_of "Stream not found")
    | some stream ↦
        let (tx', sent) = net.send stream.dest_tx decrypted in
        let h' = record h {
          streams = insert stream_id (record stream { dest_tx = tx' }) h.streams;
        } in
        if sent then (h', ok none) else reply_end h' s stream_id (bytes_of "Destination closed")
  ]

  unfoldable pub handle_data : ExitCircuitHandler → Message → ExitCircuitHandler × Reply
  handle_data h msg = elim h.shared_state [
    | none ↦ (h, err not_established)
    | some state ↦
        let (s, decrypted, matches) = open_forward state msg in
        let h' = with_state h s in
        if matches
        then deliver h' s msg.stream_id decrypted
        else (h', err (digest_mismatch data_cell))
  ]

  -- END closes the stream, if there is one, and is answered by END.
  unfoldable pub handle_end : ExitCircuitHandler → Message → ExitCircuitHandler × Reply
  handle_end h msg = elim h.shared_state [
    | none ↦ (h, err not_established)
    | some state ↦
        let (s, decrypted, matches) = open_forward state msg in
        let h' = with_state h s in
        if matches
        then reply_end (record h' { streams = remove msg.stream_id h.streams }) s msg.stream_id []
        else (h', err (digest_mismatch end))
  ]

  unfoldable pub close : ExitCircuitHandler → ExitCircuitHandler
  close h = record h { context = Context.close h.context; streams = []; shared_state = none }

  -- BEGIN needs the writer to the previous hop.
  unfoldable pub begin_with :
      Draws
      → ExitCircuitHandler
      → Message
      → Option net.WriteHalf
      → ExitCircuitHandler × Option net.WriteHalf × Reply
  begin_with draws h msg none = (h, none, err no_writer)
  begin_with draws h msg (some w) = let (h', w', r) = handle_begin draws h msg w in (h', some w', r)

  unfoldable pub dispatch :
      MessageCommand
      → Draws
      → ExitCircuitHandler
      → Message
      → Option net.WriteHalf
      → ExitCircuitHandler × Option net.WriteHalf × Reply
  dispatch create draws h msg w = beside_writer w (handle_create draws h msg)
  dispatch begin draws h msg w = begin_with draws h msg w
  dispatch data_cell draws h msg w = beside_writer w (handle_data h msg)
  dispatch end draws h msg w = beside_writer w (handle_end h msg)
  dispatch destroy draws h msg w = (close h, w, ok none)
  dispatch padding draws h msg w = (h, w, ok none)
  dispatch created draws h msg w = (h, w, err (unexpected_command created))
  dispatch extend draws h msg w = (h, w, err (unexpected_command extend))
  dispatch extended draws h msg w = (h, w, err (unexpected_command extended))
  dispatch connected draws h msg w = (h, w, err (unexpected_command connected))

  unfoldable pub handle_message :
      Draws
      → ExitCircuitHandler
      → Message
      → Option net.WriteHalf
      → ExitCircuitHandler × Option net.WriteHalf × Reply
  handle_message draws h msg w = dispatch msg.command draws h msg w
