-- ===== src/Relay/Reader/Backward.antt =====
-- What a next-hop reader of relay-node/src/circuit writes to the previous hop.
use mini_tor.Prelude.{
  ℕ, ◌≡◌, ◌≤◌, refl, ◌∙◌, sym, List, [], ◌∷◌, ◌++◌, map, length, true, false, Option, none, some,
  ok, arith, ◌==◌,
}
use mini_tor.Protocol.{Message, max_payload_size}
use mini_tor.Protocol.Cells
use mini_tor.Protocol.Codec.{to_bytes}
use mini_tor.Protocol.Wire.{write_to_stream_fits}
use mini_tor.Crypto.{Primitives}
use mini_tor.Crypto.Cipher.{CipherPair, apply_backward}
use mini_tor.Crypto.Laws.{IsStreamCipher}
use mini_tor.Net.{Net}
use mini_tor.Relay.Entry
use mini_tor.Relay.Middle
use mini_tor.Relay.Registry.{
  CircuitHandler, CircuitRegistry, at_entry, at_middle, at_exit, handler_backward, add_circuit,
  get_circuit, handle_backward_message, get_circuit-add_circuit,
}
use mini_tor.Relay.Reader.{
  ReaderTask, CircuitIoContext, Round, reader_id, stops_at, write_prev, answer_prev, destroy_prev,
  send_reply, pass_backward, on_message, on_read, reader_round, run_reader,
}

-- A round that reads this message.
abbrev pub reads : Message × (ℕ → List ℕ) → Round
reads m = record { read = ok (some m.0); fill = m.1; end_fill = m.1 }

-- A round that finds the connection of the next hop closed.
abbrev pub closed_round : (ℕ → List ℕ) → Round
closed_round last = record { read = ok none; fill = last; end_fill = last }

module _ ⦃prim : Primitives⦄ ⦃net : Net⦄ where
  -- The ciphers of an entry's or a middle's circuit.
  unfoldable pub keys : CircuitHandler → Option CipherPair
  keys (at_entry h) = h.context.cipher_pair
  keys (at_middle h) = h.context.cipher_pair
  keys (at_exit h) = none

  abbrev with_keys : CircuitHandler → CipherPair → CircuitHandler
  with_keys (at_entry h) c = at_entry (Entry.with_cipher h c)
  with_keys (at_middle h) c = at_middle (Middle.with_cipher h c)
  with_keys (at_exit h) c = at_exit h

  -- A message under one more layer, and the ciphers afterwards.
  unfoldable pub wrapped : CipherPair → Message → Message
  wrapped c msg = record msg { payload = (apply_backward c msg.payload).1 }

  abbrev moved : CipherPair → Message → CipherPair
  moved c msg = (apply_backward c msg.payload).0

  -- The description: the cells of the messages, in order, each under one more layer.
  unfoldable pub backward_cells :
      CipherPair → List (Message × (ℕ → List ℕ)) → net.WriteHalf → net.WriteHalf
  unfolding wrapped
  backward_cells c [] w = w
  backward_cells c ((msg, fill) ∷ rest) w =
      backward_cells (moved c msg) rest (net.write_all w (to_bytes (wrapped c msg) fill)).0

  -- A message that the task passes back: of the task's circuit, not one that it stops at, and of a
  -- length that fits.
  pub record Passes (task : ReaderTask) (msg : Message) : Type 0 where
    pub own_circuit : msg.circuit_id ≡ reader_id task
    pub passed_on : stops_at task msg ≡ false
    pub fits : length msg.payload ≤ max_payload_size

  abbrev pub AllPass : ReaderTask → List (Message × (ℕ → List ℕ)) → Type 0
  AllPass task [] = Unit
  AllPass task (m ∷ ms) = Passes task m.0 × AllPass task ms

  handler_backward_keyed :
      (h : CircuitHandler) (c : CipherPair) (msg : Message)
      → keys h ≡ some c
      → handler_backward h msg ≡ (with_keys h (moved c msg), ok (some (wrapped c msg)))
  unfolding keys handler_backward Entry.handle_backward_relay Middle.handle_backward_relay wrapped
  handler_backward_keyed (at_entry h) c msg e = rw e
  handler_backward_keyed (at_middle h) c msg e = rw e
  handler_backward_keyed (at_exit h) c msg e = cc

  keys_with_keys :
      (h : CircuitHandler) (c c' : CipherPair) → keys h ≡ some c → keys (with_keys h c') ≡ some c'
  unfolding keys
  keys_with_keys (at_entry h) c c' e = refl
  keys_with_keys (at_middle h) c c' e = refl
  keys_with_keys (at_exit h) c c' e = cc

  get_added :
      (r : CircuitRegistry) (i : ℕ) (h : CircuitHandler)
      → get_circuit (add_circuit r i h) i ≡ some h
  get_added r i h =
      let same : (i == i) ≡ true = ground arith in get_circuit-add_circuit r i i h ∙ rw same

  handle_backward_keyed :
      (r : CircuitRegistry) (h : CircuitHandler) (c : CipherPair) (msg : Message)
      → get_circuit r msg.circuit_id ≡ some h
      → keys h ≡ some c
      → handle_backward_message r msg
        ≡ (add_circuit r msg.circuit_id (with_keys h (moved c msg)), ok (some (wrapped c msg)))
  unfolding handle_backward_message
  handle_backward_keyed r h c msg found keyed =
      rw (handle_backward_message, found, handler_backward_keyed h c msg keyed) refl

  module _ (laws : IsStreamCipher prim)
      (writes : (w : net.WriteHalf) (bytes : List ℕ) → (net.write_all w bytes).1 ≡ true) where
    write_prev_fits :
        (fill : ℕ → List ℕ) (msg : Message) (io : CircuitIoContext)
        → length msg.payload ≤ max_payload_size
        → write_prev fill msg io ≡ (
          record io { prev_hop_write = (net.write_all io.prev_hop_write (to_bytes msg fill)).0 },
          true,
        )
    unfolding write_prev
    write_prev_fits fill msg io fits =
        rw
          (
            write_to_stream_fits net.write_all msg fill io.prev_hop_write fits,
            writes io.prev_hop_write (to_bytes msg fill),
          )
          refl

    pass_backward_keyed :
        (fill : ℕ → List ℕ) (msg : Message) (io : CircuitIoContext) (h : CircuitHandler)
        (c : CipherPair)
        → get_circuit io.circuit_registry msg.circuit_id ≡ some h
        → keys h ≡ some c
        → length msg.payload ≤ max_payload_size
        → pass_backward fill msg io ≡ (
          record {
            circuit_registry =
                add_circuit io.circuit_registry msg.circuit_id (with_keys h (moved c msg));
            prev_hop_write = (net.write_all io.prev_hop_write (to_bytes (wrapped c msg) fill)).0;
          },
          true,
        )
    unfolding pass_backward send_reply answer_prev wrapped apply_backward
    pass_backward_keyed fill msg io h c found keyed fits =
        let io' : CircuitIoContext = record io {
          circuit_registry =
              add_circuit io.circuit_registry msg.circuit_id (with_keys h (moved c msg));
        } in
        let same_length : length (wrapped c msg).payload ≡ length msg.payload =
          laws.keeps_length c.backward msg.payload in
        let fits' : length (wrapped c msg).payload ≤ max_payload_size =
          omega (arith, same_length, fits) in
        rw
          (
            handle_backward_keyed io.circuit_registry h c msg found keyed,
            write_prev_fits fill (wrapped c msg) io' fits',
          )
          refl

    abbrev passed :
        CircuitIoContext → CircuitHandler → CipherPair → Message → (ℕ → List ℕ) → CircuitIoContext
    passed io h c msg fill = record {
      circuit_registry = add_circuit io.circuit_registry msg.circuit_id (with_keys h (moved c msg));
      prev_hop_write = (net.write_all io.prev_hop_write (to_bytes (wrapped c msg) fill)).0;
    }

    reader_round_keyed :
        (task : ReaderTask) (msg : Message) (fill : ℕ → List ℕ) (io : CircuitIoContext)
        (h : CircuitHandler) (c : CipherPair)
        → get_circuit io.circuit_registry (reader_id task) ≡ some h
        → keys h ≡ some c
        → Passes task msg
        → reader_round task (reads (msg, fill)) io ≡ (passed io h c msg fill, true)
    unfolding reader_round on_read on_message
    reader_round_keyed task msg fill io h c found keyed p =
        let found' : get_circuit io.circuit_registry msg.circuit_id ≡ some h =
          rw p.own_circuit found in
        rw (p.passed_on, pass_backward_keyed fill msg io h c found' keyed p.fits) refl

    abbrev closing : ReaderTask → (ℕ → List ℕ) → CircuitIoContext → CircuitIoContext
    closing task last io = record io {
      prev_hop_write =
          net.shutdown
            (net.write_all io.prev_hop_write (to_bytes (Cells.destroy (reader_id task)) last)).0;
    }

    reader_round_closed :
        (task : ReaderTask) (last : ℕ → List ℕ) (io : CircuitIoContext)
        → reader_round task (closed_round last) io ≡ (closing task last io, false)
    unfolding reader_round on_read destroy_prev write_prev Cells.destroy
    reader_round_closed task last io =
        let fits : length (Cells.destroy (reader_id task)).payload ≤ max_payload_size =
          omega arith in
        rw
          (write_to_stream_fits net.write_all (Cells.destroy (reader_id task)) last
            io.prev_hop_write fits)
          refl

    -- A task whose circuit has ciphers takes messages back until the next hop closes the connection: it
    -- has then written the messages in order, each under one more layer, and after them one DESTROY,
    -- has shut the writer down and has ended.
    pub run_reader-backward_cells :
        (task : ReaderTask) (ms : List (Message × (ℕ → List ℕ))) (last : ℕ → List ℕ)
        (io : CircuitIoContext) (h : CircuitHandler) (c : CipherPair)
        → get_circuit io.circuit_registry (reader_id task) ≡ some h
        → keys h ≡ some c
        → AllPass task ms
        → let (io', goes_on) = run_reader task (map reads ms ++ (closed_round last ∷ [])) io in
          (io'.prev_hop_write
            ≡ net.shutdown
                (net.write_all
                  (backward_cells c ms io.prev_hop_write)
                  (to_bytes (Cells.destroy (reader_id task)) last)).0)
          × (goes_on ≡ false)
    unfolding run_reader backward_cells
    run_reader-backward_cells task [] last io h c found keyed pass =
        rw (reader_round_closed task last io) (refl, refl)
    run_reader-backward_cells task ((msg, fill) ∷ ms) last io h c found keyed (p, ps) =
        let h' = with_keys h (moved c msg) in
        let io' = passed io h c msg fill in
        let again : get_circuit io'.circuit_registry (reader_id task) ≡ some h' =
          rw (sym p.own_circuit) (get_added io.circuit_registry msg.circuit_id h') in
        rw (reader_round_keyed task msg fill io h c found keyed p) (
          run_reader-backward_cells task ms last io' h' (moved c msg) again
            (keys_with_keys h c (moved c msg) keyed) ps)
