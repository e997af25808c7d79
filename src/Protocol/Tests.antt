-- ===== src/Protocol/Tests.antt =====
-- Cells and byte streams at concrete messages.
use mini_tor.Prelude.{ℕ, ◌≡◌, refl, List, [], ◌∷◌, arith, replicate, length-replicate, take, ok}
use mini_tor.Protocol.{Message, MessageCommand, max_payload_size}
use mini_tor.Protocol.Codec.{to_bytes, from_bytes}
use mini_tor.Protocol.RoundTrip.{IsWire, Fills, from_bytes-to_bytes}
use mini_tor.Protocol.Decode.{decode, from_bytes-eq-decode}

abbrev hello : Message
hello = record {
  circuit_id = 70000;
  stream_id = 3;
  command = MessageCommand.data_cell;
  payload = 104 ∷ 105 ∷ [];
  digest = 1 ∷ 2 ∷ 3 ∷ 4 ∷ [];
}

hello-IsWire : IsWire hello
hello-IsWire = record { circuit_u32 = omega arith; stream_u16 = omega arith; digest_u8x4 = refl }

abbrev zeros : ℕ → List ℕ
zeros n = replicate n 0

zeros-Fills : Fills zeros
zeros-Fills n = length-replicate n 0

from_bytes-to_bytes_example :
    from_bytes (to_bytes hello zeros)
    ≡ ok (record hello { payload = take max_payload_size hello.payload })
from_bytes-to_bytes_example = from_bytes-to_bytes hello zeros hello-IsWire zeros-Fills

from_bytes-eq-decode_example : from_bytes (1 ∷ 2 ∷ 3 ∷ []) ≡ decode (1 ∷ 2 ∷ 3 ∷ [])
from_bytes-eq-decode_example = from_bytes-eq-decode (1 ∷ 2 ∷ 3 ∷ [])
