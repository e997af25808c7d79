-- ===== src/Relay/Entry/Forwards.antt =====
-- What handle_relay of relay-node/src/circuit/entry.rs hands to the next hop.
use mini_tor.Prelude.{arith, ◌≤◌, ◌≡◌, refl, length, some, ok}
use mini_tor.Protocol.{Message, max_payload_size}
use mini_tor.Protocol.Codec.{to_bytes, from_bytes}
use mini_tor.Protocol.RoundTrip.{IsWire, Fills, from_bytes-to_bytes_fits}
use mini_tor.Protocol.Wire.{write_to_stream_fits}
use mini_tor.Crypto.{Primitives}
use mini_tor.Crypto.Cipher.{CipherPair, apply_forward}
use mini_tor.Crypto.Laws.{IsStreamCipher}
use mini_tor.Net.{Net}
use mini_tor.Relay.{Draws}
use mini_tor.Relay.Context.{NextHop}
use mini_tor.Relay.Relayed.{relayed, relayed-IsWire, length-relayed}
use mini_tor.Relay.Entry.{EntryCircuitHandler, forward_cell, handle_relay}

module _ ⦃prim : Primitives⦄ ⦃net : Net⦄ where
  -- For a message with fields in their ranges and at most 497 bytes of payload, an established
  -- entry relay with a next hop writes one cell there. The cell decodes to the message that came in
  -- with one layer of its payload taken off, and the cipher moves on, if it is a stream cipher and the
  -- fill has the length asked for.
  pub handle_relay-forwards :
      IsStreamCipher prim
      → (draws : Draws) (h : EntryCircuitHandler) (msg : Message) (c : CipherPair) (hop : NextHop)
      → h.context.cipher_pair ≡ some c
      → h.next ≡ some hop
      → IsWire msg
      → Fills draws.fill
      → length msg.payload ≤ max_payload_size
      → ((handle_relay draws h msg).0.next
          ≡ some (record hop {
            write = (net.write_all hop.write (to_bytes (relayed c msg) draws.fill)).0;
          }))
        × ((handle_relay draws h msg).0.context.cipher_pair ≡ some (apply_forward c msg.payload).0)
        × (from_bytes (to_bytes (relayed c msg) draws.fill) ≡ ok (relayed c msg))
  unfolding handle_relay forward_cell relayed
  handle_relay-forwards laws draws h msg c hop keyed inner wire fills fits =
      let small : length (relayed c msg).payload ≤ 497 = omega (arith, length-relayed laws c msg) in
      let sent = write_to_stream_fits net.write_all (relayed c msg) draws.fill hop.write small in
      (
        rw (keyed, inner, sent) refl,
        rw (keyed, inner) refl,
        from_bytes-to_bytes_fits (relayed c msg) draws.fill (relayed-IsWire c msg wire) fills small,
      )
