-- ===== src/Relay/Exit/Accepted.antt =====
-- What the exit of relay-node/src/circuit/exit.rs does with a cell whose digest matches.
use mini_tor.Prelude.{
  ℕ, ◌≡◌, true, Bool-cases, inl, inr, some, err, List, [], Option-cases, Result-cases, lookup,
}
use mini_tor.Protocol.{
  MessageCommand, Message, padding, create, created, extend, extended, destroy, begin, connected,
  data_cell, end,
}
use mini_tor.Protocol.Wire.{write_to_stream}
use mini_tor.Crypto.{Primitives}
use mini_tor.Net.{Net}
use mini_tor.Relay.{Reply, Draws, digest_mismatch}
use mini_tor.Relay.Exit.{
  ExitCryptoState, ExitCircuitHandler, open_forward, seal_backward, with_state, reply_end,
}
use mini_tor.Relay.Exit.Refused.{Carries}
use mini_tor.Relay.Exit.Handlers.{
  trim_end_zeros, connected_to, connect_destination, deliver, handle_begin, handle_data, handle_end,
  begin_with, dispatch,
}

-- A reply other than the error of a digest.
abbrev pub NoMismatch : Reply → Type 0
NoMismatch (err (digest_mismatch command)) = ⊥
NoMismatch _ = Unit

module _ ⦃prim : Primitives⦄ ⦃net : Net⦄ where
  connected_to-NoMismatch :
      (draws : Draws) (h : ExitCircuitHandler) (s : ExitCryptoState) (stream_id : ℕ) (dest : List ℕ)
      (stream : net.TcpStream) (w : net.WriteHalf)
      → NoMismatch (connected_to draws h s stream_id dest stream w).2
  unfolding connected_to
  connected_to-NoMismatch draws h s stream_id dest stream w =
      let (s', response) = seal_backward s h.context.circuit_id stream_id connected [] in
      elim (Result-cases (write_to_stream net.write_all response draws.fill w).1) [
        | inl (t, done) ↦ rw (connected_to, done) tt
        | inr (e, refused) ↦ rw (connected_to, refused) tt
      ]

  connect_destination-NoMismatch :
      (draws : Draws) (h : ExitCircuitHandler) (s : ExitCryptoState) (stream_id : ℕ) (dest : List ℕ)
      (w : net.WriteHalf)
      → NoMismatch (connect_destination draws h s stream_id dest w).2
  unfolding connect_destination reply_end
  connect_destination-NoMismatch draws h s stream_id dest w =
      elim (Option-cases (net.connect_tcp dest)) [
        | inl refused ↦ rw (connect_destination, refused) tt
        | inr (stream, done) ↦
            rw (connect_destination, done)
              (connected_to-NoMismatch draws h s stream_id dest stream w)
      ]

  deliver-NoMismatch :
      (h : ExitCircuitHandler) (s : ExitCryptoState) (stream_id : ℕ) (bytes : List ℕ)
      → NoMismatch (deliver h s stream_id bytes).1
  unfolding deliver reply_end
  deliver-NoMismatch h s stream_id bytes = elim (Option-cases (lookup stream_id h.streams)) [
    | inl unknown ↦ rw (deliver, unknown) tt
    | inr (stream, known) ↦ elim (Bool-cases (net.send stream.dest_tx bytes).1) [
      | inl taken ↦ rw (deliver, known, taken) tt
      | inr gone ↦ rw (deliver, known, gone) tt
    ]
  ]

  module _ (draws : Draws) (h : ExitCircuitHandler) (msg : Message) (w : net.WriteHalf)
      (state : ExitCryptoState) (ready : h.shared_state ≡ some state)
      (good : (open_forward state msg).2 ≡ true) where
    begin-NoMismatch : NoMismatch (handle_begin draws h msg w).2
    unfolding handle_begin
    begin-NoMismatch = elim (Bool-cases (net.is_utf8 (open_forward state msg).1)) [
      | inr bytes ↦ rw (ready, good, bytes) tt
      | inl text ↦
          rw (ready, good, text)
            (connect_destination-NoMismatch draws (with_state h (open_forward state msg).0)
              (open_forward state msg).0 msg.stream_id (trim_end_zeros (open_forward state msg).1)
              w)
    ]

    data-NoMismatch : NoMismatch (handle_data h msg).1
    unfolding handle_data
    data-NoMismatch =
        rw (ready, good)
          (deliver-NoMismatch (with_state h (open_forward state msg).0) (open_forward state msg).0
            msg.stream_id (open_forward state msg).1)

    end-NoMismatch : NoMismatch (handle_end h msg).1
    unfolding handle_end reply_end
    end-NoMismatch = rw (ready, good) tt

    pub dispatch-NoMismatch :
        (command : MessageCommand)
        → Carries command
        → NoMismatch (dispatch command draws h msg (some w)).2
    unfolding dispatch begin_with
    dispatch-NoMismatch begin carries = begin-NoMismatch
    dispatch-NoMismatch data_cell carries = data-NoMismatch
    dispatch-NoMismatch end carries = end-NoMismatch
    dispatch-NoMismatch create carries = absurd carries
    dispatch-NoMismatch created carries = absurd carries
    dispatch-NoMismatch extend carries = absurd carries
    dispatch-NoMismatch extended carries = absurd carries
    dispatch-NoMismatch destroy carries = absurd carries
    dispatch-NoMismatch padding carries = absurd carries
    dispatch-NoMismatch connected carries = absurd carries
