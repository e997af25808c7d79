-- ===== src/Client/Stream/Chunked.antt =====
-- What a SOCKS5 stream (tor-client/src/core/stream.rs) sends of a read, up to the exit of its circuit.
use mini_tor.Prelude.{
  ℕ, ◌≡◌, ◌≤◌, refl, ap, subst, ◌∙◌, List, [], ◌∷◌, ◌++◌, length, true, ok, arith,
}
use mini_tor.Protocol.{MessageCommand, data_cell, max_payload_size}
use mini_tor.Protocol.Codec.{to_bytes}
use mini_tor.Protocol.Cells
use mini_tor.Protocol.Wire.{write_to_stream_fits}
use mini_tor.Crypto.{Primitives}
use mini_tor.Crypto.Laws.{IsStreamCipher}
use mini_tor.Net.{Net}
use mini_tor.Relay.Exit.Task.{chunks}
use mini_tor.Relay.Exit.Chunks.{joined, AllFit, joined-chunks}
use mini_tor.Client.Engine.{OnionKeys, onion_encrypt}
use mini_tor.Client.Circuit.{Circuit, seal_forward, send_message}
use mini_tor.Client.Stream.{send_chunks}
use mini_tor.Onion.{length-encrypt_layers}
use mini_tor.Onion.Session.{
  Action, to_exit, Ends, InSync, Received, delivered, send_to_exit, perform, run_session,
  run_session-delivers,
}

-- The cells of a read as the session of a circuit sees them.
abbrev pub uploads : ℕ → List (List ℕ) → List Action
uploads stream_id [] = []
uploads stream_id (chunk ∷ rest) = to_exit stream_id data_cell chunk ∷ uploads stream_id rest

-- The data that the receiving end gets, put together.
abbrev pub arrived_data : List Received → List ℕ
arrived_data [] = []
arrived_data (r ∷ rs) = r.0 ++ arrived_data rs

arrived_data-uploads :
    (stream_id : ℕ) (pieces : List (List ℕ))
    → arrived_data (delivered (uploads stream_id pieces)) ≡ joined pieces
arrived_data-uploads stream_id [] = refl
arrived_data-uploads stream_id (p ∷ ps) =
    ap (λ (rest : List ℕ). p ++ rest) (arrived_data-uploads stream_id ps)

module _ ⦃prim : Primitives⦄ ⦃net : Net⦄ (laws : IsStreamCipher prim)
    (writes : (w : net.WriteHalf) (bytes : List ℕ) → (net.write_all w bytes).1 ≡ true) where
  pub send_message_sent :
      (fill : ℕ → List ℕ) (c : Circuit) (stream_id : ℕ) (command : MessageCommand) (plain : List ℕ)
      → length plain ≤ max_payload_size
      → (send_message fill c stream_id command plain).1 ≡ ok tt
  unfolding send_message seal_forward onion_encrypt Cells.new
  send_message_sent fill c stream_id command plain fits =
      let msg = (seal_forward c.onion_keys c.circuit_id stream_id command plain).1 in
      let same : length msg.payload ≡ length plain =
        length-encrypt_layers laws c.onion_keys.ciphers plain in
      let fits' : length msg.payload ≤ max_payload_size = omega (arith, same, fits) in
      rw
        (
          write_to_stream_fits net.write_all msg fill c.entry_writer fits',
          writes c.entry_writer (to_bytes msg fill),
        )
        refl

  keys_move :
      (fill : ℕ → List ℕ) (c : Circuit) (ends : Ends) (stream_id : ℕ) (plain : List ℕ)
      → ends.keys ≡ c.onion_keys
      → (send_to_exit c.circuit_id ends stream_id data_cell plain).0.keys
        ≡ (send_message fill c stream_id data_cell plain).0.onion_keys
  unfolding send_to_exit send_message
  keys_move fill c ends stream_id plain same =
      ap (λ (k : OnionKeys). (seal_forward k c.circuit_id stream_id data_cell plain).0) same

  same_circuit :
      (fill : ℕ → List ℕ) (c : Circuit) (stream_id : ℕ) (plain : List ℕ)
      → (send_message fill c stream_id data_cell plain).0.circuit_id ≡ c.circuit_id
  unfolding send_message
  same_circuit fill c stream_id plain = refl

  -- The keys of the client move on as those of the session do.
  send_chunks-run_session :
      (fill : ℕ → List ℕ) (stream_id : ℕ) (c : Circuit) (ends : Ends) (pieces : List (List ℕ))
      → ends.keys ≡ c.onion_keys
      → AllFit max_payload_size pieces
      → let (c', all) = send_chunks fill stream_id c pieces in
        (all ≡ true)
        × ((run_session c.circuit_id ends (uploads stream_id pieces)).0.keys ≡ c'.onion_keys)
  unfolding send_chunks run_session perform
  send_chunks-run_session fill stream_id c ends [] same fits = (refl, same)
  send_chunks-run_session fill stream_id c ends (p ∷ ps) same (some_byte, fits, more) =
      let c' = (send_message fill c stream_id data_cell p).0 in
      let ends' = (send_to_exit c.circuit_id ends stream_id data_cell p).0 in
      let same' : ends'.keys ≡ c'.onion_keys = keys_move fill c ends stream_id p same in
      let (all, last) = send_chunks-run_session fill stream_id c' ends' ps same' more in
      rw (send_chunks, send_message_sent fill c stream_id data_cell p fits)
        (
          all,
          subst
              (λ (cid : ℕ).
                (run_session cid ends' (uploads stream_id ps)).0.keys
                ≡ (send_chunks fill stream_id c' ps).0.onion_keys)
              (same_circuit fill c stream_id p) last,
        )

  -- What a SOCKS5 client sends in one read reaches the exit in full: over a connection that takes all
  -- writes, and in a circuit whose ends are in step, the client sends every chunk, the exit gets data
  -- whose digests match and that put together are the bytes of the read, and the client's keys are
  -- those of the ends in step afterwards, if the cipher is a stream cipher.
  pub send_chunks-delivers :
      (fill : ℕ → List ℕ) (stream_id : ℕ) (c : Circuit) (ends : Ends) (bytes : List ℕ)
      → ends.keys ≡ c.onion_keys
      → InSync ends
      → let pieces = chunks max_payload_size bytes in
        let (c', all) = send_chunks fill stream_id c pieces in
        let (ends', got) = run_session c.circuit_id ends (uploads stream_id pieces) in
        (all ≡ true)
        × (got ≡ delivered (uploads stream_id pieces))
        × (arrived_data got ≡ bytes)
        × (ends'.keys ≡ c'.onion_keys)
        × InSync ends'
  send_chunks-delivers fill stream_id c ends bytes same sync =
      let pieces = chunks max_payload_size bytes in
      let (whole, fits) = joined-chunks max_payload_size bytes (omega arith) in
      let (all, keys) = send_chunks-run_session fill stream_id c ends pieces same fits in
      let (got, sync') =
        run_session-delivers laws c.circuit_id ends (uploads stream_id pieces) sync in
      (all, got, ap arrived_data got ∙ arrived_data-uploads stream_id pieces ∙ whole, keys, sync')
