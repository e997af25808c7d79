-- ===== src/Protocol/Cells.antt =====
-- services/common/src/protocol.rs: the constructors of `Message`.
use mini_tor.Prelude.{ℕ, List, [], ◌∷◌}
use mini_tor.Protocol.{MessageCommand, Message}

unfoldable pub new : ℕ → ℕ → MessageCommand → List ℕ → Message
new circuit_id stream_id command payload = record {
  circuit_id = circuit_id;
  stream_id = stream_id;
  command = command;
  payload = payload;
  digest = 0 ∷ 0 ∷ 0 ∷ 0 ∷ [];
}

unfoldable pub circuit : ℕ → MessageCommand → List ℕ → Message
unfolding new
circuit circuit_id command payload = new circuit_id 0 command payload

unfoldable pub stream : ℕ → ℕ → MessageCommand → List ℕ → Message
unfolding new
stream circuit_id stream_id command payload = new circuit_id stream_id command payload

unfoldable pub create : ℕ → List ℕ → Message
unfolding circuit
create circuit_id public_key = circuit circuit_id MessageCommand.create public_key

unfoldable pub created : ℕ → List ℕ → Message
unfolding circuit
created circuit_id public_key = circuit circuit_id MessageCommand.created public_key

unfoldable pub extend : ℕ → List ℕ → Message
unfolding circuit
extend circuit_id encrypted_payload = circuit circuit_id MessageCommand.extend encrypted_payload

unfoldable pub extended : ℕ → List ℕ → Message
unfolding circuit
extended circuit_id response_data = circuit circuit_id MessageCommand.extended response_data

unfoldable pub destroy : ℕ → Message
unfolding circuit
destroy circuit_id = circuit circuit_id MessageCommand.destroy []

unfoldable pub begin : ℕ → ℕ → List ℕ → Message
unfolding stream
begin circuit_id stream_id destination =
    stream circuit_id stream_id MessageCommand.begin destination

unfoldable pub connected : ℕ → ℕ → Message
unfolding stream
connected circuit_id stream_id = stream circuit_id stream_id MessageCommand.connected []

unfoldable pub data_msg : ℕ → ℕ → List ℕ → Message
unfolding stream
data_msg circuit_id stream_id payload = stream circuit_id stream_id MessageCommand.data_cell payload

unfoldable pub end : ℕ → ℕ → List ℕ → Message
unfolding stream
end circuit_id stream_id reason = stream circuit_id stream_id MessageCommand.end reason

-- `payload_len` is the number that `random_range(0..MAX_PAYLOAD_SIZE)` draws, and `fill n` the `n`
-- bytes that the random generator writes.
unfoldable pub padding : ℕ → ℕ → (ℕ → List ℕ) → Message
unfolding circuit
padding circuit_id payload_len fill = circuit circuit_id MessageCommand.padding (fill payload_len)
