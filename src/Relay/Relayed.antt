-- ===== src/Relay/Relayed.antt =====
-- The message that a relay sends on: the one that came in, less one layer.
use mini_tor.Prelude.{◌≡◌, length}
use mini_tor.Protocol.{Message}
use mini_tor.Protocol.RoundTrip.{IsWire}
use mini_tor.Crypto.{Primitives}
use mini_tor.Crypto.Cipher.{CipherPair, apply_forward}
use mini_tor.Crypto.Laws.{IsStreamCipher}

module _ ⦃prim : Primitives⦄ where
  unfoldable pub relayed : CipherPair → Message → Message
  relayed c msg = record msg { payload = (apply_forward c msg.payload).1 }

  pub relayed-IsWire : (c : CipherPair) (msg : Message) → IsWire msg → IsWire (relayed c msg)
  unfolding relayed
  relayed-IsWire c msg w = record {
    circuit_u32 = w.circuit_u32;
    stream_u16 = w.stream_u16;
    digest_u8x4 = w.digest_u8x4;
  }

  pub length-relayed :
      IsStreamCipher prim
      → (c : CipherPair) (msg : Message) → length (relayed c msg).payload ≡ length msg.payload
  unfolding relayed apply_forward
  length-relayed laws c msg = laws.keeps_length c.forward msg.payload
