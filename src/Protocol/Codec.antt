-- ===== src/Protocol/Codec.antt =====
-- services/common/src/protocol.rs: `Message::to_bytes` and `Message::from_bytes`.
use mini_tor.Prelude.{
  ℕ, ◌+◌, ◌-◌, min, List, [], ◌∷◌, none, some, length, ltb, ◌==◌, if◌then◌else◌, replicate, slice,
  write_slice, get_elem?, Result, ok, ok_or, guard, ◌>>=◌, ◌>>◌, not,
}
use mini_tor.Protocol.{
  cell_size, header_size, payload_len_size, digest_size, max_payload_size, Message, to_u8, from_u8,
  CellError, cell_too_short, missing_length, missing_circuit_id, missing_stream_id, missing_command,
  missing_payload_len, missing_digest, missing_data, invalid_length_field, payload_exceeds_maximum,
}
use mini_tor.Protocol.Bytes.{be16, be32, from_be}

abbrev pub data_start : ℕ
data_start = header_size + payload_len_size + digest_size

-- The payload copy, and the random fill of what is left. `fill n` stands for the `n` bytes that the
-- random generator writes.
unfoldable pub write_payload : Message → (ℕ → List ℕ) → List ℕ → List ℕ
write_payload m fill cell =
    let data_len = min (length m.payload) max_payload_size in
    let filled : List ℕ = elim (slice 0 data_len m.payload) [
      | none ↦ cell
      | some src ↦ write_slice data_start (data_start + data_len) src cell
    ] in
    if ltb data_len max_payload_size
    then write_slice (data_start + data_len) cell_size (fill (max_payload_size - data_len)) filled
    else filled

-- `cell[10]` is written as the slice 10..11.
unfoldable pub to_bytes : Message → (ℕ → List ℕ) → List ℕ
unfolding write_payload
to_bytes m fill =
    let cell0 = replicate cell_size 0 in
    let cell1 = write_slice 0 4 (be32 (cell_size - 4)) cell0 in
    let cell2 = write_slice 4 8 (be32 m.circuit_id) cell1 in
    let cell3 = write_slice 8 10 (be16 m.stream_id) cell2 in
    let cell4 = write_slice 10 11 (to_u8 m.command ∷ []) cell3 in
    let cell5 = write_slice 11 13 (be16 (min (length m.payload) max_payload_size)) cell4 in
    let cell6 = write_slice 13 17 m.digest cell5 in write_payload m fill cell6

unfoldable pub from_bytes : List ℕ → Result CellError Message
from_bytes bytes = do
  guard (not (ltb (length bytes) cell_size)) (cell_too_short (length bytes))
  length_bytes ← ok_or (slice 0 4 bytes) missing_length
  guard (from_be length_bytes == cell_size - 4) (invalid_length_field (from_be length_bytes))
  circuit_bytes ← ok_or (slice 4 8 bytes) missing_circuit_id
  stream_bytes ← ok_or (slice 8 10 bytes) missing_stream_id
  command_byte ← ok_or (get_elem? bytes 10) missing_command
  command ← from_u8 command_byte
  payload_len_bytes ← ok_or (slice 11 13 bytes) missing_payload_len
  guard (not (ltb max_payload_size (from_be payload_len_bytes)))
      (payload_exceeds_maximum (from_be payload_len_bytes))
  digest_bytes ← ok_or (slice 13 17 bytes) missing_digest
  payload ← ok_or (slice data_start (data_start + from_be payload_len_bytes) bytes) missing_data
  ok (record {
    circuit_id = from_be circuit_bytes;
    stream_id = from_be stream_bytes;
    command = command;
    payload = payload;
    digest = digest_bytes;
  })
