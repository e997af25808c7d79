-- ===== src/Protocol/Decode.antt =====
-- `Message::from_bytes` against a description with no partial reads: once the length test has
-- passed, no slice is out of range, so the `Incomplete cell` errors are never returned.
use mini_tor.Prelude.{
  ℕ, zero, suc, ◌+◌, ◌-◌, ◌≤◌, ◌≡◌, refl, ◌∙◌, inl, inr, false, none, some, List, [], ◌∷◌, arith,
  length, take, drop, get_elem?, slice, slice-IsSome, Result, ok, err, ◌>>=◌, ltb, ◌==◌,
  if◌then◌else◌, Bool-cases, Result-cases, ap,
}
use mini_tor.Protocol.{
  Message, CellError, cell_size, max_payload_size, cell_too_short, invalid_length_field,
  payload_exceeds_maximum, from_u8,
}
use mini_tor.Protocol.Bytes.{from_be}
use mini_tor.Protocol.Codec.{from_bytes}

-- The bytes lo .. lo + n.
abbrev pub field : ℕ → ℕ → List ℕ → List ℕ
field lo n bytes = take n (drop lo bytes)

-- The byte at a position, 0 past the end.
abbrev pub byte_at : List ℕ → ℕ → ℕ
byte_at bytes i = elim (get_elem? bytes i) [ none ↦ 0 | some b ↦ b ]

-- What a cell of at least 514 bytes decodes to.
unfoldable pub decode : List ℕ → Result CellError Message
decode bytes =
    if ltb (length bytes) cell_size
    then err (cell_too_short (length bytes))
    else if from_be (field 0 4 bytes) == 510
    then (do
      command ← from_u8 (byte_at bytes 10)
      if ltb max_payload_size (from_be (field 11 2 bytes))
          then err (payload_exceeds_maximum (from_be (field 11 2 bytes)))
          else ok (record {
            circuit_id = from_be (field 4 4 bytes);
            stream_id = from_be (field 8 2 bytes);
            command = command;
            payload = field 17 (from_be (field 11 2 bytes)) bytes;
            digest = field 13 4 bytes;
          }))
    else err (invalid_length_field (from_be (field 0 4 bytes)))

get_elem?-IsSome : (xs : List ℕ) (i : ℕ) → i + 1 ≤ length xs → get_elem? xs i ≡ some (byte_at xs i)
get_elem?-IsSome [] i h = absurd (omega arith)
get_elem?-IsSome (x ∷ xs) zero h = refl
get_elem?-IsSome (x ∷ xs) (suc i) h = get_elem?-IsSome xs i (omega arith)

-- The payload slice, for a payload length that passed its test.
payload_slice :
    (bytes : List ℕ) (k : ℕ)
    → 514 ≤ length bytes
    → ltb max_payload_size k ≡ false
    → slice 17 (17 + k) bytes ≡ some (field 17 k bytes)
payload_slice bytes k n h =
    let room : 17 + k ≤ length bytes = ground arith in
    let e : 17 + k - 17 ≡ k = omega arith in
    slice-IsSome 17 (17 + k) bytes room ∙ ap (λ (t : ℕ). some (take t (drop 17 bytes))) e

from_bytes_whole :
    (bytes : List ℕ) → ltb (length bytes) 514 ≡ false → from_bytes bytes ≡ decode bytes
unfolding from_bytes decode
from_bytes_whole bytes whole =
    let n : 514 ≤ length bytes = ground arith in
    let len = from_be (field 11 2 bytes) in
    rw
      (
        whole,
        slice-IsSome 0 4 bytes (omega arith),
        slice-IsSome 4 8 bytes (omega arith),
        slice-IsSome 8 10 bytes (omega arith),
        slice-IsSome 11 13 bytes (omega arith),
        slice-IsSome 13 17 bytes (omega arith),
        get_elem?-IsSome bytes 10 (omega arith),
      )
      (elim (Bool-cases (from_be (field 0 4 bytes) == 510)) [
        | inr bad ↦ rw bad
        | inl good ↦ rw good (elim (Result-cases (from_u8 (byte_at bytes 10))) [
          | inr (e, refused) ↦ rw refused
          | inl (c, known) ↦ rw known (elim (Bool-cases (ltb 497 len)) [
            | inl long ↦ rw long
            | inr short ↦ rw (short, payload_slice bytes len n short)
          ])
        ])
      ])

-- Decoding is total: it fails for a short cell, a wrong length field, an unknown command or a
-- payload length above the maximum, tested in this order, and otherwise reads every field at its
-- fixed place.
pub from_bytes-eq-decode : (bytes : List ℕ) → from_bytes bytes ≡ decode bytes
unfolding from_bytes decode
from_bytes-eq-decode bytes = elim (Bool-cases (ltb (length bytes) 514)) [
  | inl short ↦ rw short
  | inr whole ↦ from_bytes_whole bytes whole
]
