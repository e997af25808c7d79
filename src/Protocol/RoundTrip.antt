-- ===== src/Protocol/RoundTrip.antt =====
-- `Message::from_bytes` after `Message::to_bytes`.
use mini_tor.Prelude.{
  ℕ, ◌+◌, ◌-◌, ◌≤◌, ◌<◌, ◌^◌, ◌≡◌, refl, sym, ap, ◌∙◌, List, [], ◌∷◌, ◌++◌, arith, length, take,
  slice, slice-append, append_assoc, length-append, length-take, take_of_le, take-min, ok, some,
  ltb, le→ltb, false,
}
use mini_tor.Protocol.{Message, MessageCommand, padding, to_u8, from_u8, max_payload_size}
use mini_tor.Protocol.Bytes.{be16, be32, from_be-be16, from_be-be32}
use mini_tor.Protocol.Codec.{to_bytes, from_bytes}
use mini_tor.Protocol.Layout.{fields, header, data_len, to_bytes_layout}

-- The ranges that the Rust types of the fields give: u32, u16 and [u8; 4].
pub record IsWire (m : Message) : Type 0 where
  pub circuit_u32 : m.circuit_id < 2 ^ 32
  pub stream_u16 : m.stream_id < 2 ^ 16
  pub digest_u8x4 : length m.digest ≡ 4

-- The bytes of the random fill are as many as were asked for.
abbrev pub Fills : (ℕ → List ℕ) → Type 0
Fills fill = (n : ℕ) → length (fill n) ≡ n

pub from_u8-to_u8 : (c : MessageCommand) → from_u8 (to_u8 c) ≡ ok c
unfolding from_u8 to_u8
from_u8-to_u8 padding = refl
from_u8-to_u8 _ = refl

module _ (m : Message) (w : IsWire m) (p f : List ℕ) (fits : length p ≡ data_len m)
    (whole : 497 ≤ length p + length f) where
  cell_bytes : List ℕ
  cell_bytes = fields m ++ (m.digest ++ (p ++ f))

  length-cell_bytes : length cell_bytes ≡ 17 + length p + length f
  unfolding cell_bytes fields
  length-cell_bytes =
      omega (arith, length-append m.digest (p ++ f), length-append p f, w.digest_u8x4)

  from_bytes-cell_bytes : from_bytes cell_bytes ≡ ok (record m { payload = p })
  unfolding from_bytes cell_bytes fields
  from_bytes-cell_bytes =
      let r = m.digest ++ (p ++ f) in
      let b0 = be32 510 in
      let b1 = be32 m.circuit_id in
      let b2 = be16 m.stream_id in
      let b3 = be16 (data_len m) in
      let c : List ℕ = to_u8 m.command ∷ [] in
      let short : ltb (length cell_bytes) 514 ≡ false =
        le→ltb _ _ (omega (arith, length-cell_bytes)) in
      let small : ltb 497 (data_len m) ≡ false = le→ltb _ _ (omega arith) in
      let d17 : 17 ≡ length (fields m ++ m.digest) =
        omega (arith, length-append (fields m) m.digest, w.digest_u8x4) in
      let payload_slice : slice 17 (17 + data_len m) cell_bytes ≡ some p =
        ap (slice 17 (17 + data_len m)) (sym (append_assoc (fields m) m.digest (p ++ f)))
        ∙ slice-append (fields m ++ m.digest) p f 17 (17 + data_len m) d17 (omega (arith, d17)) in
      rw (
        short,
        slice-append [] b0 (b1 ++ (b2 ++ (c ++ (b3 ++ r)))) 0 4 refl refl,
        slice-append b0 b1 (b2 ++ (c ++ (b3 ++ r))) 4 8 refl refl,
        from_be-be32 m.circuit_id w.circuit_u32,
        slice-append (b0 ++ b1) b2 (c ++ (b3 ++ r)) 8 10 refl refl,
        from_be-be16 m.stream_id w.stream_u16,
        from_u8-to_u8 m.command,
        slice-append (b0 ++ (b1 ++ (b2 ++ c))) b3 r 11 13 refl refl,
        from_be-be16 (data_len m) (omega arith),
        small,
        slice-append (fields m) m.digest (p ++ f) 13 17 refl (omega (arith, w.digest_u8x4)),
        from_be-be32 510 (omega arith),
        payload_slice,
      )

-- Decoding an encoded message gives the message back, with the payload cut to the 497 bytes that a
-- cell carries, if its fields are in the ranges of their Rust types and the random fill has the
-- length asked for.
pub from_bytes-to_bytes :
    (m : Message) (fill : ℕ → List ℕ)
    → IsWire m
    → Fills fill
    → from_bytes (to_bytes m fill) ≡ ok (record m { payload = take max_payload_size m.payload })
unfolding header cell_bytes
from_bytes-to_bytes m fill w filled =
    let d = data_len m in
    let p = take d m.payload in
    let f = fill (497 - d) in
    let p_len : length p ≡ d = omega (arith, length-take d m.payload) in
    let cut : take d m.payload ≡ take 497 m.payload = take-min m.payload 497 in
    ap from_bytes
      (to_bytes_layout m fill w.digest_u8x4 filled ∙ append_assoc (fields m) m.digest (p ++ f))
    ∙ (from_bytes-cell_bytes m w p f p_len (omega (arith, filled (497 - d)))
        ∙ ap (λ (t : List ℕ). ok (record m { payload = t })) cut)

-- So a message whose payload fits survives the wire unchanged.
pub from_bytes-to_bytes_fits :
    (m : Message) (fill : ℕ → List ℕ)
    → IsWire m
    → Fills fill
    → length m.payload ≤ max_payload_size
    → from_bytes (to_bytes m fill) ≡ ok m
from_bytes-to_bytes_fits m fill w filled h =
    from_bytes-to_bytes m fill w filled
    ∙ ap (λ (t : List ℕ). ok (record m { payload = t })) (take_of_le 497 m.payload h)
