-- ===== src/Relay/Exit/States.antt =====
-- The states that a circuit of relay-node/src/circuit/exit.rs can be in.
use mini_tor.Prelude.{
  ℕ, ◌≡◌, ◌≢◌, refl, List, [], length, Bool-cases, Option, none, some, Option-cases, Result-cases,
  inl, inr, ltb, lookup, insert, err,
}
use mini_tor.Protocol.{
  MessageCommand, Message, padding, create, created, extend, extended, destroy, begin, connected,
  data_cell, end,
}
use mini_tor.Protocol.Wire.{write_to_stream}
use mini_tor.Crypto.{Primitives}
use mini_tor.Crypto.Ntor.{KeyPair}
use mini_tor.Net.{Net}
use mini_tor.Relay.{Draws, not_established}
use mini_tor.Relay.Context
use mini_tor.Relay.Context.{active, closed, initializing}
use mini_tor.Relay.Exit
use mini_tor.Relay.Exit.{
  ExitStream, ExitCryptoState, ExitCircuitHandler, open_forward, seal_backward, with_state,
  reply_end, handle_create,
}
use mini_tor.Relay.Exit.Handlers.{
  trim_end_zeros, connected_to, connect_destination, handle_begin, deliver, handle_data, handle_end,
  close, begin_with, dispatch, handle_message,
}

module _ ⦃prim : Primitives⦄ ⦃net : Net⦄ where
  -- A circuit is active and has its shared state, or it is not active and has neither shared state
  -- nor streams.
  pub data Coherent (h : ExitCircuitHandler) : Type 0 where
    keyed : (s : ExitCryptoState) → h.shared_state ≡ some s → h.context.state ≡ active → Coherent h
    unkeyed : h.shared_state ≡ none → h.context.state ≢ active → h.streams ≡ [] → Coherent h

  pub new-Coherent : (id : ℕ) (kp : KeyPair) → Coherent (Exit.new id kp)
  unfolding Exit.new Context.new
  new-Coherent id kp = unkeyed refl (λ e. cc) refl

  is_active :
      (h : ExitCircuitHandler) (s : ExitCryptoState)
      → Coherent h
      → h.shared_state ≡ some s
      → h.context.state ≡ active
  is_active h s (keyed k e act) e' = act
  is_active h s (unkeyed e act empty) e' = cc

  close-Coherent : (h : ExitCircuitHandler) → Coherent (close h)
  unfolding close Context.close
  close-Coherent h = unkeyed refl (λ e. cc) refl

  handle_create-Coherent :
      (draws : Draws) (h : ExitCircuitHandler) (msg : Message)
      → Coherent h
      → Coherent (handle_create draws h msg).0
  unfolding handle_create Context.activate
  handle_create-Coherent draws h msg coh = elim (Bool-cases (ltb (length msg.payload) 32)) [
    | inl short ↦ rw short coh
    | inr long ↦ rw long (keyed _ refl refl)
  ]

  reply_end-Coherent :
      (h : ExitCircuitHandler) (s : ExitCryptoState) (stream_id : ℕ) (reason : List ℕ)
      → h.context.state ≡ active
      → Coherent (reply_end h s stream_id reason).0
  unfolding reply_end
  reply_end-Coherent h s stream_id reason act = keyed _ refl act

  connected_to-Coherent :
      (draws : Draws) (h : ExitCircuitHandler) (s : ExitCryptoState) (stream_id : ℕ) (dest : List ℕ)
      (stream : net.TcpStream) (w : net.WriteHalf)
      → h.context.state ≡ active
      → Coherent (connected_to draws h s stream_id dest stream w).0
  unfolding connected_to
  connected_to-Coherent draws h s stream_id dest stream w act =
      let (s', response) = seal_backward s h.context.circuit_id stream_id connected [] in
      elim (Result-cases (write_to_stream net.write_all response draws.fill w).1) [
        | inl (t, done) ↦ rw (connected_to, done) (keyed s' refl act)
        | inr (e, refused) ↦ rw (connected_to, refused) (keyed s' refl act)
      ]

  connect_destination-Coherent :
      (draws : Draws) (h : ExitCircuitHandler) (s : ExitCryptoState) (stream_id : ℕ) (dest : List ℕ)
      (w : net.WriteHalf)
      → h.context.state ≡ active
      → Coherent (connect_destination draws h s stream_id dest w).0
  unfolding connect_destination
  connect_destination-Coherent draws h s stream_id dest w act =
      elim (Option-cases (net.connect_tcp dest)) [
        | inl refused ↦ rw (connect_destination, refused) (reply_end-Coherent h s stream_id _ act)
        | inr (stream, done) ↦
            rw (connect_destination, done)
              (connected_to-Coherent draws h s stream_id dest stream w act)
      ]

  -- A handler whose keys are there, after it has opened a cell.
  module _ (h : ExitCircuitHandler) (s : ExitCryptoState) (ready : h.shared_state ≡ some s)
      (act : h.context.state ≡ active) where
    abbrev opened : Message → ExitCryptoState
    opened msg = (open_forward s msg).0

    handle_begin_ready :
        (draws : Draws) (msg : Message) (w : net.WriteHalf)
        → Coherent (handle_begin draws h msg w).0
    unfolding handle_begin
    handle_begin_ready draws msg w = rw ready (elim (Bool-cases (open_forward s msg).2) [
      | inr wrong ↦ rw wrong (keyed (opened msg) refl act)
      | inl right ↦ elim (Bool-cases (net.is_utf8 (open_forward s msg).1)) [
        | inr bytes ↦ rw (right, bytes) (keyed (opened msg) refl act)
        | inl text ↦
            rw (right, text)
              (connect_destination-Coherent draws (with_state h (opened msg)) (opened msg)
                msg.stream_id (trim_end_zeros (open_forward s msg).1) w act)
      ]
    ])

    deliver-Coherent :
        (s' : ExitCryptoState) (stream_id : ℕ) (bytes : List ℕ)
        → Coherent (deliver (with_state h s') s' stream_id bytes).0
    unfolding deliver
    deliver-Coherent s' stream_id bytes = elim (Option-cases (lookup stream_id h.streams)) [
      | inl unknown ↦
          rw (deliver, unknown) (reply_end-Coherent (with_state h s') s' stream_id _ act)
      | inr (stream, known) ↦ elim (Bool-cases (net.send stream.dest_tx bytes).1) [
        | inl taken ↦ rw (deliver, known, taken) (keyed s' refl act)
        | inr gone ↦
            let stream' : ExitStream = record stream {
              dest_tx = (net.send stream.dest_tx bytes).0;
            } in
            let h' : ExitCircuitHandler = record (with_state h s') {
              streams = insert stream_id stream' h.streams;
            } in
            rw (deliver, known, gone) (reply_end-Coherent h' s' stream_id _ act)
      ]
    ]

    handle_data_ready : (msg : Message) → Coherent (handle_data h msg).0
    unfolding handle_data
    handle_data_ready msg = rw ready (elim (Bool-cases (open_forward s msg).2) [
      | inr wrong ↦ rw wrong (keyed (opened msg) refl act)
      | inl right ↦ rw right (deliver-Coherent (opened msg) msg.stream_id (open_forward s msg).1)
    ])

    handle_end_ready : (msg : Message) → Coherent (handle_end h msg).0
    unfolding handle_end
    handle_end_ready msg = rw ready (elim (Bool-cases (open_forward s msg).2) [
      | inr wrong ↦ rw wrong (keyed (opened msg) refl act)
      | inl right ↦ rw right (reply_end-Coherent _ (opened msg) msg.stream_id [] act)
    ])

  -- What needs the shared state leaves a handler without it as it is.
  begin_without_keys :
      (draws : Draws) (h : ExitCircuitHandler) (msg : Message) (w : net.WriteHalf)
      → h.shared_state ≡ none
      → handle_begin draws h msg w ≡ (h, w, err not_established)
  unfolding handle_begin
  begin_without_keys draws h msg w e = rw e

  handle_begin-Coherent :
      (draws : Draws) (h : ExitCircuitHandler) (msg : Message) (w : net.WriteHalf)
      → Coherent h
      → Coherent (handle_begin draws h msg w).0
  handle_begin-Coherent draws h msg w coh = elim (Option-cases h.shared_state) [
    | inl e ↦ rw (begin_without_keys draws h msg w e) coh
    | inr (s, e) ↦ handle_begin_ready h s e (is_active h s coh e) draws msg w
  ]

  data_without_keys :
      (h : ExitCircuitHandler) (msg : Message)
      → h.shared_state ≡ none
      → handle_data h msg ≡ (h, err not_established)
  unfolding handle_data
  data_without_keys h msg e = rw e

  handle_data-Coherent :
      (h : ExitCircuitHandler) (msg : Message) → Coherent h → Coherent (handle_data h msg).0
  handle_data-Coherent h msg coh = elim (Option-cases h.shared_state) [
    | inl e ↦ rw (data_without_keys h msg e) coh
    | inr (s, e) ↦ handle_data_ready h s e (is_active h s coh e) msg
  ]

  end_without_keys :
      (h : ExitCircuitHandler) (msg : Message)
      → h.shared_state ≡ none
      → handle_end h msg ≡ (h, err not_established)
  unfolding handle_end
  end_without_keys h msg e = rw e

  handle_end-Coherent :
      (h : ExitCircuitHandler) (msg : Message) → Coherent h → Coherent (handle_end h msg).0
  handle_end-Coherent h msg coh = elim (Option-cases h.shared_state) [
    | inl e ↦ rw (end_without_keys h msg e) coh
    | inr (s, e) ↦ handle_end_ready h s e (is_active h s coh e) msg
  ]

  begin_with-Coherent :
      (draws : Draws) (h : ExitCircuitHandler) (msg : Message) (w : Option net.WriteHalf)
      → Coherent h
      → Coherent (begin_with draws h msg w).0
  unfolding begin_with
  begin_with-Coherent draws h msg none coh = coh
  begin_with-Coherent draws h msg (some w) coh = handle_begin-Coherent draws h msg w coh

  dispatch-Coherent :
      (command : MessageCommand) (draws : Draws) (h : ExitCircuitHandler) (msg : Message)
      (w : Option net.WriteHalf)
      → Coherent h
      → Coherent (dispatch command draws h msg w).0
  unfolding dispatch
  dispatch-Coherent create draws h msg w coh = handle_create-Coherent draws h msg coh
  dispatch-Coherent begin draws h msg w coh = begin_with-Coherent draws h msg w coh
  dispatch-Coherent data_cell draws h msg w coh = handle_data-Coherent h msg coh
  dispatch-Coherent end draws h msg w coh = handle_end-Coherent h msg coh
  dispatch-Coherent destroy draws h msg w coh = close-Coherent h
  dispatch-Coherent padding draws h msg w coh = coh
  dispatch-Coherent created draws h msg w coh = coh
  dispatch-Coherent extend draws h msg w coh = coh
  dispatch-Coherent extended draws h msg w coh = coh
  dispatch-Coherent connected draws h msg w coh = coh

  -- Any message leaves a coherent exit handler coherent: it is active exactly while it has its shared
  -- state, and has streams only while it is active.
  pub handle_message-Coherent :
      (draws : Draws) (h : ExitCircuitHandler) (msg : Message) (w : Option net.WriteHalf)
      → Coherent h
      → Coherent (handle_message draws h msg w).0
  unfolding handle_message
  handle_message-Coherent draws h msg w coh = dispatch-Coherent msg.command draws h msg w coh
