-- ===== src/Protocol/Layout.antt =====
-- The layout of an encoded cell: a header of 17 bytes, the payload and the random fill.
use mini_tor.Prelude.{
  ℕ, ◌+◌, ◌-◌, ◌≤◌, min, ◌≡◌, refl, sym, ap, ◌∙◌, inl, inr, List, [], ◌∷◌, ◌++◌, arith, length,
  take, replicate, replicate-add, length-replicate, length-take, slice, slice-IsSome, write_slice,
  write_slice-append, append-nil, append_assoc, ltb, Bool-cases, length-append, eq-nil_of_length,
  some,
}
use mini_tor.Protocol.{Message, max_payload_size, to_u8}
use mini_tor.Protocol.Bytes.{be16, be32}
use mini_tor.Protocol.Codec.{to_bytes, write_payload}

-- How many payload bytes a cell carries.
abbrev pub data_len : Message → ℕ
data_len m = min (length m.payload) max_payload_size

-- The length field, the ids, the command and the payload length.
unfoldable pub fields : Message → List ℕ
unfolding be32 be16
fields m =
    be32 510
    ++ (be32 m.circuit_id ++ (be16 m.stream_id ++ ((to_u8 m.command ∷ []) ++ be16 (data_len m))))

unfoldable pub header : Message → List ℕ
unfolding fields
header m = fields m ++ m.digest

module _ (m : Message) (fill : ℕ → List ℕ) where
  rest : List ℕ
  rest = replicate 497 0

  cell0_lem :
      replicate 514 0
      ≡ (0 ∷ 0 ∷ 0 ∷ 0 ∷ 0 ∷ 0 ∷ 0 ∷ 0 ∷ 0 ∷ 0 ∷ 0 ∷ 0 ∷ 0 ∷ 0 ∷ 0 ∷ 0 ∷ 0 ∷ []) ++ rest
  unfolding rest replicate
  cell0_lem = replicate-add 17 497 514 0 (omega arith)

  cell6 : List ℕ → List ℕ
  cell6 cell0 =
      let cell1 = write_slice 0 4 (be32 510) cell0 in
      let cell2 = write_slice 4 8 (be32 m.circuit_id) cell1 in
      let cell3 = write_slice 8 10 (be16 m.stream_id) cell2 in
      let cell4 = write_slice 10 11 (to_u8 m.command ∷ []) cell3 in
      let cell5 = write_slice 11 13 (be16 (data_len m)) cell4 in write_slice 13 17 m.digest cell5

  cell6_lem :
      (xs : List ℕ)
      → cell6 ((0 ∷ 0 ∷ 0 ∷ 0 ∷ 0 ∷ 0 ∷ 0 ∷ 0 ∷ 0 ∷ 0 ∷ 0 ∷ 0 ∷ 0 ∷ 0 ∷ 0 ∷ 0 ∷ 0 ∷ []) ++ xs)
        ≡ fields m ++ (m.digest ++ xs)
  unfolding cell6 fields
  cell6_lem xs =
      let z13 = λ (t : List ℕ). 0 ∷ 0 ∷ 0 ∷ 0 ∷ 0 ∷ 0 ∷ 0 ∷ 0 ∷ 0 ∷ 0 ∷ 0 ∷ 0 ∷ 0 ∷ t in
      let b1 = be32 510 in
      let b2 = b1 ++ be32 m.circuit_id in
      let b3 = b2 ++ be16 m.stream_id in
      let b4 = b3 ++ (to_u8 m.command ∷ []) in
      let b5 = b4 ++ be16 (data_len m) in
      rw (
        write_slice-append [] (0 ∷ 0 ∷ 0 ∷ 0 ∷ []) (z13 xs) (be32 510) 0 4 refl refl,
        write_slice-append b1 (0 ∷ 0 ∷ 0 ∷ 0 ∷ []) (0 ∷ 0 ∷ 0 ∷ 0 ∷ 0 ∷ 0 ∷ 0 ∷ 0 ∷ 0 ∷ xs)
            (be32 m.circuit_id) 4 8 refl refl,
        write_slice-append b2 (0 ∷ 0 ∷ []) (0 ∷ 0 ∷ 0 ∷ 0 ∷ 0 ∷ 0 ∷ 0 ∷ xs) (be16 m.stream_id) 8 10
            refl refl,
        write_slice-append b3 (0 ∷ []) (0 ∷ 0 ∷ 0 ∷ 0 ∷ 0 ∷ 0 ∷ xs) (to_u8 m.command ∷ []) 10 11
            refl refl,
        write_slice-append b4 (0 ∷ 0 ∷ []) (0 ∷ 0 ∷ 0 ∷ 0 ∷ xs) (be16 (data_len m)) 11 13 refl refl,
        write_slice-append b5 (0 ∷ 0 ∷ 0 ∷ 0 ∷ []) xs m.digest 13 17 refl refl,
      )

  length-header : length m.digest ≡ 4 → length (header m) ≡ 17
  unfolding header
  length-header h = omega (arith, length-append (fields m) m.digest)

  -- The payload copy and the fill, behind any header of 17 bytes.
  write_payload_lem :
      (h : List ℕ)
      → length h ≡ 17
      → ((n : ℕ) → length (fill n) ≡ n)
      → write_payload m fill (h ++ replicate 497 0)
        ≡ h ++ (take (data_len m) m.payload ++ fill (497 - data_len m))
  unfolding write_payload
  write_payload_lem h h17 filled =
      let z : ℕ = 0 in
      let d = data_len m in
      let p = take d m.payload in
      let fits : d ≤ length m.payload = omega arith in
      let small : d ≤ 497 = omega arith in
      let room = replicate (497 - d) z in
      let copied : write_slice 17 (17 + d) p (h ++ replicate 497 0) ≡ h ++ (p ++ room) =
        rw (replicate-add d (497 - d) 497 z (omega arith)) (
          write_slice-append h (replicate d z) room p 17 (17 + d) (omega arith)
            (omega (arith, length-replicate d z))) in
      let spread : h ++ (p ++ room) ≡ (h ++ p) ++ (room ++ []) =
        rw append-nil (sym (append_assoc h p room)) in
      let hp : length (h ++ p) ≡ 17 + d =
        omega (arith, length-append h p, length-take d m.payload) in
      let src : slice 0 d m.payload ≡ some p =
        slice-IsSome 0 d m.payload fits ∙ ap (λ (k : ℕ). some (take k m.payload)) (omega arith) in
      rw (src, copied)
        (elim (Bool-cases (ltb d 497)) [
          | inl less ↦
              rw
                (
                  less,
                  spread,
                  write_slice-append (h ++ p) room [] (fill (497 - d)) (17 + d) 514
                      (omega (arith, hp)) (omega (arith, hp, length-replicate (497 - d) z)),
                )
                (rw append-nil (append_assoc h p (fill (497 - d))))
          | inr full ↦
              let d497 : d ≡ 497 = ground arith in
              let room_nil : room ≡ [] =
                eq-nil_of_length room (omega (arith, length-replicate (497 - d) z)) in
              let fill_nil : fill (497 - d) ≡ [] =
                eq-nil_of_length (fill (497 - d)) (omega (arith, filled (497 - d))) in
              rw full (ap (λ (t : List ℕ). h ++ (p ++ t)) (room_nil ∙ sym fill_nil))
        ])

  -- An encoded cell is its header, as much of the payload as fits, and the fill.
  pub to_bytes_layout :
      length m.digest ≡ 4
      → ((n : ℕ) → length (fill n) ≡ n)
      → to_bytes m fill ≡ header m ++ (take (data_len m) m.payload ++ fill (497 - data_len m))
  unfolding to_bytes header cell6 rest
  to_bytes_layout digest4 filled =
      ap (λ (c : List ℕ). write_payload m fill (cell6 c)) cell0_lem
      ∙ (ap (write_payload m fill) (cell6_lem rest ∙ sym (append_assoc (fields m) m.digest rest))
          ∙ write_payload_lem (fields m ++ m.digest) (length-header digest4) filled)

  -- Every encoded cell has 514 bytes, whatever the length of the payload.
  pub length-to_bytes :
      length m.digest ≡ 4 → ((n : ℕ) → length (fill n) ≡ n) → length (to_bytes m fill) ≡ 514
  length-to_bytes digest4 filled =
      let d = data_len m in
      let p = take d m.payload in
      let f = fill (497 - d) in
      omega (
        arith,
        ap length (to_bytes_layout digest4 filled),
        length-append (header m) (p ++ f),
        length-append p f,
        length-header digest4,
        filled (497 - d),
        length-take d m.payload,
      )
