-- ===== src/Protocol.antt =====
-- services/common/src/protocol.rs: the cell commands, the message and its constructors.
pub mod Cells
pub mod Bytes
pub mod Codec
pub mod Layout
pub mod RoundTrip
pub mod Wire
pub mod Tests
pub mod Decode
use mini_tor.Prelude.{ℕ, ◌-◌, Bool, List, Result, ok, err, ◌==◌, if◌then◌else◌}

abbrev pub cell_size : ℕ
cell_size = 514

abbrev pub header_size : ℕ
header_size = 11

abbrev pub payload_len_size : ℕ
payload_len_size = 2

abbrev pub digest_size : ℕ
digest_size = 4

abbrev pub max_payload_size : ℕ
max_payload_size = cell_size - header_size - payload_len_size - digest_size

pub data MessageCommand : Type 0 where
  padding create created extend extended destroy begin connected data_cell end : MessageCommand

unfoldable pub to_u8 : MessageCommand → ℕ
to_u8 padding = 0x00
to_u8 create = 0x01
to_u8 created = 0x02
to_u8 extend = 0x03
to_u8 extended = 0x04
to_u8 destroy = 0x05
to_u8 begin = 0x10
to_u8 connected = 0x11
to_u8 data_cell = 0x12
to_u8 end = 0x13

-- The derived `==`: the discriminants are equal.
unfoldable pub command_eq : MessageCommand → MessageCommand → Bool
unfolding to_u8
command_eq a b = to_u8 a == to_u8 b

-- What `Message::from_bytes` can refuse a cell for.
pub data CellError : Type 0 where
  cell_too_short : ℕ → CellError
  missing_length missing_circuit_id missing_stream_id missing_command : CellError
  missing_payload_len missing_digest missing_data : CellError
  invalid_length_field : ℕ → CellError
  unknown_command : ℕ → CellError
  payload_exceeds_maximum : ℕ → CellError

unfoldable pub from_u8 : ℕ → Result CellError MessageCommand
from_u8 value =
    if value == 0x00
    then ok padding
    else if value == 0x01
    then ok create
    else if value == 0x02
    then ok created
    else if value == 0x03
    then ok extend
    else if value == 0x04
    then ok extended
    else if value == 0x05
    then ok destroy
    else if value == 0x10
    then ok begin
    else if value == 0x11
    then ok connected
    else if value == 0x12
    then ok data_cell
    else if value == 0x13
    then ok end
    else err (unknown_command value)

-- The struct's field `data` is `payload` here.
pub record Message : Type 0 where
  pub circuit_id : ℕ
  pub stream_id : ℕ
  pub command : MessageCommand
  pub payload : List ℕ
  pub digest : List ℕ
