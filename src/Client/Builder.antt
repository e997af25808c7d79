-- ===== src/Client/Builder.antt =====
-- services/tor-client/src/core/circuit.rs: `CircuitBuilder`. An early return drops the connection and
-- the ciphers, so a failure carries no state. `Draws` holds what is drawn for one hop: the ephemeral
-- secret, and the fill of the cell.
mod Heard
mod Authentic
pub mod Tests
use mini_tor.Prelude.{
  ℕ, List, [], ◌∷◌, ◌++◌, Result, ok, err, length, slice, ok_or, guard, map_err, ◌>>=◌, ◌>>◌, ltb,
  not,
}
use mini_tor.Protocol.{MessageCommand, Message, command_eq, created, extended}
use mini_tor.Protocol.Cells
use mini_tor.Protocol.Wire.{TorError, IoError, write_to_stream, from_stream}
use mini_tor.Types.{NodeDescriptor}
use mini_tor.Crypto.{Primitives}
use mini_tor.Crypto.Keys.{SessionKey}
use mini_tor.Crypto.Cipher
use mini_tor.Crypto.Cipher.{CipherPair}
use mini_tor.Crypto.Ntor.{HandshakeError, ntor_client_finish_raw}
use mini_tor.Net.{Net}
use mini_tor.Relay.{Draws}
use mini_tor.Client.Engine
use mini_tor.Client.Engine.{OnionKeys, encrypt_layers, decrypt_layers}
use mini_tor.Client.Circuit.{Circuit, ready}

pub data BuildError : Type 0 where
  path_too_short : ℕ → BuildError
  connection_failed timed_out connection_closed invalid_data : BuildError
  reply_too_short : ℕ → BuildError
  send_failed : TorError → BuildError
  read_failed : IoError → BuildError
  unexpected_reply : MessageCommand → BuildError
  handshake_failed : HandshakeError → BuildError

module _ ⦃net : Net⦄ where
  -- What handshake_extend puts together: address, 0, ephemeral key, 0, fingerprint.
  unfoldable pub extend_payload : NodeDescriptor → List ℕ → List ℕ
  extend_payload node our_public =
      net.show_addr node.address ++ (0 ∷ (our_public ++ (0 ∷ node.tls_cert_fingerprint)))

  -- Write a cell, and read the answer, which must be of this command.
  unfoldable pub exchange :
      Draws → Message → MessageCommand → net.Stream → Result BuildError (net.Stream × Message)
  exchange draws msg expected stream = do
    let sent = write_to_stream net.stream_write_all msg draws.fill stream
    map_err send_failed sent.1
    let reply = net.read_cell_within 60 sent.0
    cell ← ok_or reply.1 timed_out
    received ← map_err read_failed (from_stream cell)
    answer ← ok_or received connection_closed
    guard (command_eq answer.command expected) (unexpected_reply answer.command)
    ok (reply.0, answer)

module _ ⦃prim : Primitives⦄ where
  -- The 64 bytes of a reply are the relay's ephemeral key and its AUTH tag.
  unfoldable pub finish_handshake : Draws → NodeDescriptor → List ℕ → Result BuildError SessionKey
  finish_handshake draws node data_bytes = do
    guard (not (ltb (length data_bytes) 64)) (reply_too_short (length data_bytes))
    server_eph_pub ← ok_or (slice 0 32 data_bytes) invalid_data
    auth ← ok_or (slice 32 64 data_bytes) invalid_data
    map_err handshake_failed (
        ntor_client_finish_raw draws.ephemeral_secret (prim.public_of draws.ephemeral_secret)
          node.public_key server_eph_pub auth)

module _ ⦃prim : Primitives⦄ ⦃net : Net⦄ where
  unfoldable pub handshake_create :
      Draws → ℕ → net.Stream → NodeDescriptor → Result BuildError (net.Stream × SessionKey)
  unfolding exchange finish_handshake
  handshake_create draws circuit_id stream entry = do
    let our_public = prim.public_of draws.ephemeral_secret
    (stream', created_msg) ← exchange draws (Cells.create circuit_id our_public) created stream
    session_key ← finish_handshake draws entry created_msg.payload
    ok (stream', session_key)

  -- The payload goes out under the layers of the hops so far, and the answer comes back under them.
  unfoldable pub handshake_extend :
      Draws
      → ℕ
      → net.Stream
      → NodeDescriptor
      → List CipherPair
      → Result BuildError (net.Stream × List CipherPair × SessionKey)
  unfolding extend_payload exchange finish_handshake
  handshake_extend draws circuit_id stream node ciphers = do
    let our_public = prim.public_of draws.ephemeral_secret
    let wrapped = encrypt_layers ciphers (extend_payload node our_public)
    (stream', extended_msg) ← exchange draws (Cells.extend circuit_id wrapped.1) extended stream
    let unwrapped = decrypt_layers wrapped.0 extended_msg.payload
    session_key ← finish_handshake draws node unwrapped.1
    ok (stream', unwrapped.0, session_key)

  -- The hops after the entry, each with its own draws.
  unfoldable pub extend_all :
      ℕ
      → (ℕ → Draws)
      → List NodeDescriptor
      → net.Stream
      → List SessionKey
      → List CipherPair
      → Result BuildError (net.Stream × List SessionKey × List CipherPair)
  unfolding handshake_extend
  extend_all circuit_id draws [] stream session_keys ciphers = ok (stream, session_keys, ciphers)
  extend_all circuit_id draws (node ∷ path) stream session_keys ciphers = do
    (stream', ciphers', key) ←
        handshake_extend (draws (length ciphers)) circuit_id stream node ciphers
    extend_all circuit_id draws path stream' (session_keys ++ key ∷ [])
        (ciphers' ++ Cipher.new key ∷ [])

  unfoldable pub ready_circuit :
      ℕ → net.Stream → List SessionKey → List CipherPair → Circuit × net.ReadHalf
  ready_circuit circuit_id stream session_keys ciphers =
      let (read_half, write_half) = net.split stream in
      (
        record {
          circuit_id = circuit_id;
          state = ready;
          entry_writer = write_half;
          onion_keys = Engine.new session_keys ciphers;
          stream_senders = [];
          next_stream_id = 1;
        },
        read_half,
      )

  abbrev built : ℕ → net.Stream × List SessionKey × List CipherPair → Circuit × net.ReadHalf
  built circuit_id (stream, session_keys, ciphers) =
      ready_circuit circuit_id stream session_keys ciphers

  -- The entry's handshake, and then the other hops.
  unfoldable pub build_from :
      (ℕ → Draws)
      → ℕ
      → NodeDescriptor
      → List NodeDescriptor
      → Result BuildError (Circuit × net.ReadHalf)
  unfolding handshake_create extend_all ready_circuit
  build_from draws circuit_id entry later = do
    entry_stream ←
        ok_or (net.connect_tls entry.address entry.tls_cert_fingerprint) connection_failed
    (stream, entry_key) ← handshake_create (draws 0) circuit_id entry_stream entry
    all ← extend_all circuit_id draws later stream (entry_key ∷ []) (Cipher.new entry_key ∷ [])
    ok (built circuit_id all)

  unfoldable pub build :
      (ℕ → Draws) → ℕ → List NodeDescriptor → Result BuildError (Circuit × net.ReadHalf)
  unfolding build_from
  build draws circuit_id [] = err (path_too_short 0)
  build draws circuit_id (entry ∷ later) = do
    guard (not (ltb (length (entry ∷ later)) 3)) (path_too_short (length (entry ∷ later)))
    build_from draws circuit_id entry later
