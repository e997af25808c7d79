-- ===== src/Onion/ThreeHops.antt =====
-- A cell on its way from the client (tor-client/src/core/circuit.rs) through the entry and the middle
-- relay (relay-node/src/circuit) to the exit, with the bytes that go over every connection.
use mini_tor.Prelude.{
  ℕ, ◌^◌, ◌<◌, ◌≤◌, ◌≡◌, ◌⊎◌, refl, ap, ◌∙◌, List, [], ◌∷◌, length, length-take, take, slice, leb,
  true, Bool-cases, inl, inr, Option, none, some, ok, arith,
}
use mini_tor.Protocol.{MessageCommand, Message, max_payload_size}
use mini_tor.Protocol.Cells
use mini_tor.Protocol.Codec.{to_bytes, from_bytes}
use mini_tor.Protocol.RoundTrip.{IsWire, Fills}
use mini_tor.Crypto.{Primitives}
use mini_tor.Crypto.Cipher.{CipherPair}
use mini_tor.Crypto.Digest.{tag_of, tag_from, update}
use mini_tor.Crypto.Laws.{IsStreamCipher}
use mini_tor.Net.{Net}
use mini_tor.Relay.{Draws}
use mini_tor.Relay.Context.{NextHop}
use mini_tor.Relay.Relayed.{relayed, relayed-IsWire, length-relayed}
use mini_tor.Relay.Entry
use mini_tor.Relay.Entry.{EntryCircuitHandler}
use mini_tor.Relay.Entry.Forwards
use mini_tor.Relay.Middle
use mini_tor.Relay.Middle.{MiddleCircuitHandler}
use mini_tor.Relay.Middle.Forwards as MiddleForwards
use mini_tor.Relay.Exit.{ExitCryptoState, open_forward}
use mini_tor.Client.Engine.{OnionKeys, onion_encrypt}
use mini_tor.Client.Circuit.{seal_forward}
use mini_tor.Onion.{peel, length-encrypt_layers}
use mini_tor.Onion.Session.{Ends, Received, InSync, send_to_exit, send_to_exit-Delivers}

slice_first :
    (xs : List ℕ)
    → (slice 0 4 xs ≡ none) ⊎ ((t : List ℕ) × (slice 0 4 xs ≡ some t) × (length t ≡ 4))
unfolding slice
slice_first xs = elim (Bool-cases (leb 4 (length xs))) [
  | inl enough ↦
      let n : 4 ≤ length xs = ground arith in
      inr (take 4 xs, rw enough refl, omega (arith, length-take 4 xs))
  | inr short ↦ inl (rw short refl)
]

length-tag_of : (snapshot : List ℕ) → length (tag_of snapshot) ≡ 4
length-tag_of snapshot = elim (slice_first snapshot) [
  | inl short ↦ ap (λ (o : Option (List ℕ)). length (tag_from o)) short
  | inr (t, cut, four) ↦ ap (λ (o : Option (List ℕ)). length (tag_from o)) cut ∙ four
]

module _ ⦃prim : Primitives⦄ where
  seal_forward-IsWire :
      (keys : OnionKeys) (cid s : ℕ) (c : MessageCommand) (plain : List ℕ)
      → cid < 2 ^ 32
      → s < 2 ^ 16
      → IsWire (seal_forward keys cid s c plain).1
  unfolding seal_forward Cells.new update
  seal_forward-IsWire keys cid s c plain small_cid small_s = record {
    circuit_u32 = small_cid;
    stream_u16 = small_s;
    digest_u8x4 = length-tag_of _;
  }

  length-seal_forward :
      IsStreamCipher prim
      → (keys : OnionKeys) (cid s : ℕ) (c : MessageCommand) (plain : List ℕ)
      → length (seal_forward keys cid s c plain).1.payload ≡ length plain
  unfolding seal_forward Cells.new onion_encrypt
  length-seal_forward laws keys cid s c plain = length-encrypt_layers laws keys.ciphers plain

  -- The circuit's ends, with two relays before the exit.
  abbrev pub three_hops : OnionKeys → CipherPair → CipherPair → ExitCryptoState → Ends
  three_hops keys c1 c2 exit = record { keys = keys; front = c1 ∷ c2 ∷ []; exit = exit }

  exit_reads :
      IsStreamCipher prim
      → (keys : OnionKeys) (c1 c2 : CipherPair) (exit : ExitCryptoState) (cid s : ℕ)
        (c : MessageCommand) (plain : List ℕ)
      → InSync (three_hops keys c1 c2 exit)
      → let m2 = relayed c2 (relayed c1 (seal_forward keys cid s c plain).1) in
        ((open_forward exit m2).1 ≡ plain) × ((open_forward exit m2).2 ≡ true)
  unfolding send_to_exit relayed peel
  exit_reads laws keys c1 c2 exit cid s c plain sync =
      let got = (send_to_exit-Delivers laws cid (three_hops keys c1 c2 exit) s c plain sync).0 in
      (ap (λ (r : Received). r.0) got, ap (λ (r : Received). r.1) got)

module _ ⦃prim : Primitives⦄ ⦃net : Net⦄ where
  -- The cell that stands for a message on the wire.
  abbrev pub cell_of : Draws → Message → List ℕ
  cell_of draws m = to_bytes m draws.fill

  -- A message of at most 497 bytes, with ids in their ranges, that the client sends through an entry
  -- and a middle relay reaches the exit, if the four are in step, the cipher is a stream cipher and
  -- the fills have the length asked for: the entry writes one cell to the middle relay, which decodes
  -- it and writes one cell to the exit, which decodes it, strips the last layer, finds the digest in
  -- order and has the client's bytes.
  pub three_hops-deliver :
      IsStreamCipher prim
      → (draws draws' : Draws) (keys : OnionKeys) (c1 c2 : CipherPair) (exit : ExitCryptoState)
        (entry : EntryCircuitHandler) (middle : MiddleCircuitHandler) (hop1 hop2 : NextHop)
        (cid s : ℕ) (c : MessageCommand) (plain : List ℕ)
      → InSync (three_hops keys c1 c2 exit)
      → entry.context.cipher_pair ≡ some c1
      → entry.next ≡ some hop1
      → middle.context.cipher_pair ≡ some c2
      → middle.next ≡ some hop2
      → cid < 2 ^ 32
      → s < 2 ^ 16
      → length plain ≤ max_payload_size
      → Fills draws.fill
      → Fills draws'.fill
      → let sent = (seal_forward keys cid s c plain).1 in
        let m1 = relayed c1 sent in
        let m2 = relayed c2 m1 in
        ((Entry.handle_relay draws entry sent).0.next
          ≡ some (record hop1 { write = (net.write_all hop1.write (cell_of draws m1)).0 }))
        × (from_bytes (cell_of draws m1) ≡ ok m1)
        × ((Middle.handle_relay draws' middle m1).0.next
            ≡ some (record hop2 { write = (net.write_all hop2.write (cell_of draws' m2)).0 }))
        × (from_bytes (cell_of draws' m2) ≡ ok m2)
        × ((open_forward exit m2).1 ≡ plain)
        × ((open_forward exit m2).2 ≡ true)
  three_hops-deliver laws draws draws' keys c1 c2 exit entry middle hop1 hop2 cid s c plain sync e1
        n1 e2 n2 small_cid small_s fits fills fills' =
      let sent = (seal_forward keys cid s c plain).1 in
      let m1 = relayed c1 sent in
      let wire = seal_forward-IsWire keys cid s c plain small_cid small_s in
      let size = length-seal_forward laws keys cid s c plain in
      let size1 = length-relayed laws c1 sent in
      let f1 : length sent.payload ≤ 497 = omega (arith, size) in
      let f2 : length m1.payload ≤ 497 = omega (arith, size, size1) in
      let (w1, k1, d1) =
        Forwards.handle_relay-forwards laws draws entry sent c1 hop1 e1 n1 wire fills f1 in
      let (w2, k2, d2) =
        MiddleForwards.middle_relay-forwards laws draws' middle m1 c2 hop2 e2 n2
          (relayed-IsWire c1 sent wire) fills' f2 in
      let (got, matches) = exit_reads laws keys c1 c2 exit cid s c plain sync in
      (w1, d1, w2, d2, got, matches)
