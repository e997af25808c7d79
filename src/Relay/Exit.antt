-- ===== src/Relay/Exit.antt =====
-- services/relay-node/src/circuit/exit.rs: the last hop, which holds the streams to destinations. The
-- metrics events are not modelled.
pub mod Handlers
pub mod Task
pub mod Chunks
pub mod Refused
pub mod Accepted
pub mod Integrity
pub mod States
use mini_tor.Prelude.{
  ℕ, List, [], ◌∷◌, ◌++◌, Bool, true, false, Option, none, some, Result, ok, err, length, take, ltb,
  ◌==◌, if◌then◌else◌, map_err, ◌>>=◌, ◌>>◌, bytes_of,
}
use mini_tor.Protocol.{
  MessageCommand, Message, padding, create, created, extend, extended, destroy, begin, connected,
  data_cell, end, to_u8,
}
use mini_tor.Protocol.Cells
use mini_tor.Protocol.Wire.{write_to_stream}
use mini_tor.Crypto.{Primitives}
use mini_tor.Crypto.Cipher.{CipherPair, apply_forward, apply_backward}
use mini_tor.Crypto.Digest
use mini_tor.Crypto.Digest.{RunningDigest, update, verify}
use mini_tor.Crypto.Ntor.{KeyPair, ntor_server_handshake}
use mini_tor.Net.{Net}
use mini_tor.Relay.{
  RelayError, Reply, Draws, create_too_short, not_established, send_failed, unexpected_command,
  digest_mismatch, invalid_utf8, no_writer,
}
use mini_tor.Relay.Context
use mini_tor.Relay.Context.{CircuitContext}

module _ ⦃prim : Primitives⦄ where
  -- Shared with the stream tasks behind a mutex.
  pub record ExitCryptoState : Type 0 where
    pub cipher : CipherPair
    pub forward_digest : RunningDigest
    pub backward_digest : RunningDigest

  -- Decrypt a forward cell and check its digest. The shared state is changed also on a mismatch.
  unfoldable pub open_forward : ExitCryptoState → Message → ExitCryptoState × List ℕ × Bool
  open_forward state msg =
      let (cipher', decrypted) = apply_forward state.cipher msg.payload in
      let (digest', matches) =
        verify state.forward_digest msg.stream_id (to_u8 msg.command) decrypted msg.digest in
      (record state { cipher = cipher'; forward_digest = digest' }, decrypted, matches)

  -- A backward cell: the digest of the plaintext, then one layer of encryption.
  unfoldable pub seal_backward :
      ExitCryptoState → ℕ → ℕ → MessageCommand → List ℕ → ExitCryptoState × Message
  seal_backward state circuit_id stream_id command plain =
      let (digest', digest) = update state.backward_digest stream_id (to_u8 command) plain in
      let (cipher', encrypted) = apply_backward state.cipher plain in
      let msg = Cells.stream circuit_id stream_id command encrypted in
      (record state { cipher = cipher'; backward_digest = digest' }, record msg { digest = digest })

module _ ⦃prim : Primitives⦄ ⦃net : Net⦄ where
  pub record ExitStream : Type 0 where
    pub destination : List ℕ
    pub dest_tx : net.Sender

  pub record ExitCircuitHandler : Type 0 where
    pub context : CircuitContext
    pub keypair : KeyPair
    pub streams : List (ℕ × ExitStream)
    pub shared_state : Option ExitCryptoState

  unfoldable pub new : ℕ → KeyPair → ExitCircuitHandler
  new circuit_id keypair = record {
    context = Context.new circuit_id;
    keypair = keypair;
    streams = [];
    shared_state = none;
  }

  -- `activate` makes the cipher pair, and `take` moves it into the shared state.
  abbrev take_cipher : ExitCircuitHandler → Option CipherPair → Reply → ExitCircuitHandler × Reply
  take_cipher h none r = (h, err not_established)
  take_cipher h (some c) r = (
    record h {
      context = record h.context { cipher_pair = none };
      shared_state =
          some (record { cipher = c; forward_digest = Digest.new; backward_digest = Digest.new });
    },
    r,
  )

  unfoldable pub handle_create : Draws → ExitCircuitHandler → Message → ExitCircuitHandler × Reply
  handle_create draws h msg =
      if ltb (length msg.payload) 32
      then (h, err create_too_short)
      else let client_public = take 32 msg.payload in
        let (server_eph_pub, auth, session_key) =
          ntor_server_handshake h.keypair draws.ephemeral_secret client_public in
        let h' = record h { context = Context.activate h.context session_key } in
        take_cipher h' h'.context.cipher_pair
          (ok (some (Cells.created h.context.circuit_id (server_eph_pub ++ auth))))

  abbrev pub with_state : ExitCircuitHandler → ExitCryptoState → ExitCircuitHandler
  with_state h s = record h { shared_state = some s }

  -- The handler's last step where it answers with a sealed END.
  unfoldable pub reply_end :
      ExitCircuitHandler → ExitCryptoState → ℕ → List ℕ → ExitCircuitHandler × Reply
  unfolding seal_backward
  reply_end h s stream_id reason =
      let (s', response) = seal_backward s h.context.circuit_id stream_id end reason in
      (with_state h s', ok (some response))
