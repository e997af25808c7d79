-- ===== src/Protocol/Wire.antt =====
-- services/common/src/protocol.rs: cells on a byte stream, and services/common/src/error.rs, as far
-- as the cell functions return it. The stream is tokio's or std's: a write half is a parameter, and
-- a read is the outcome of `read_exact`.
use mini_tor.Prelude.{
  ℕ, ◌≤◌, ◌≡◌, Bool, true, false, Option, none, some, List, length, Result, ok, err, ltb, le→ltb,
  if◌then◌else◌,
}
use mini_tor.Protocol.{Message, CellError, max_payload_size}
use mini_tor.Protocol.Codec.{to_bytes, from_bytes}

pub data TorError : Type 0 where
  io : TorError
  payload_too_large : ℕ → ℕ → TorError

-- What `read_exact(&mut buf)` can come to.
pub data ReadExact : Type 0 where
  filled : List ℕ → ReadExact
  unexpected_eof : ReadExact
  failed : ReadExact

pub data IoError : Type 0 where
  read_failed : IoError
  invalid_data : CellError → IoError

abbrev some_message : Result CellError Message → Result IoError (Option Message)
some_message (ok m) = ok (some m)
some_message (err e) = err (invalid_data e)

unfoldable pub from_stream : ReadExact → Result IoError (Option Message)
from_stream (filled buf) = some_message (from_bytes buf)
from_stream unexpected_eof = ok none
from_stream failed = err read_failed

abbrev just_message : Result CellError Message → Result IoError Message
just_message (ok m) = ok m
just_message (err e) = err (invalid_data e)

-- The blocking reader: the end of the input is an error like any other.
unfoldable pub read_from : ReadExact → Result IoError Message
read_from (filled buf) = just_message (from_bytes buf)
read_from unexpected_eof = err read_failed
read_from failed = err read_failed

abbrev pub written : Bool → Result TorError (Unit {0})
written true = ok tt
written false = err io

-- `write_all` gives the stream afterwards and whether all was written.
module _ {S : Type 0} (write_all : S → List ℕ → S × Bool) where
  unfoldable pub write_to_stream : Message → (ℕ → List ℕ) → S → S × Result TorError (Unit {0})
  write_to_stream m fill w =
      if ltb max_payload_size (length m.payload)
      then (w, err (payload_too_large (length m.payload) max_payload_size))
      else let (w', all) = write_all w (to_bytes m fill) in (w', written all)

  -- The blocking writer does not test the payload's length; `flush` is the stream's.
  unfoldable pub write_to : (S → S × Bool) → Message → (ℕ → List ℕ) → S → S × Bool
  write_to flush m fill w =
      let (w', all) = write_all w (to_bytes m fill) in if all then flush w' else (w', false)

  -- A payload that fits is handed to the stream as one encoded cell.
  pub write_to_stream_fits :
      (m : Message) (fill : ℕ → List ℕ) (w : S)
      → length m.payload ≤ max_payload_size
      → write_to_stream m fill w
        ≡ ((write_all w (to_bytes m fill)).0, written (write_all w (to_bytes m fill)).1)
  unfolding write_to_stream
  write_to_stream_fits m fill w h = rw (le→ltb _ _ h)
