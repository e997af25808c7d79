-- ===== src/Relay/Entry.antt =====
-- services/relay-node/src/circuit/entry.rs: the first hop of a circuit. The metrics events are not
-- modelled.
pub mod Destroyed
pub mod Forwards
pub mod States
use mini_tor.Prelude.{
  ℕ, List, [], ◌∷◌, ◌++◌, Option, none, some, Result, ok, err, length, take, ltb, if◌then◌else◌,
  map_err, ◌>>=◌, ◌>>◌,
}
use mini_tor.Protocol.{
  MessageCommand, Message, padding, create, created, extend, extended, destroy, begin, connected,
  data_cell, end,
}
use mini_tor.Protocol.Cells
use mini_tor.Protocol.Wire.{write_to_stream}
use mini_tor.Crypto.{Primitives}
use mini_tor.Crypto.Cipher.{CipherPair, apply_forward, apply_backward}
use mini_tor.Crypto.Ntor.{KeyPair, ntor_server_handshake}
use mini_tor.Net.{Net}
use mini_tor.Relay.{
  RelayError, Reply, Draws, create_too_short, not_established, send_failed, unexpected_command,
}
use mini_tor.Relay.Context
use mini_tor.Relay.Context.{CircuitContext, NextHop, next_hop}
use mini_tor.Relay.Extend.{open_next_hop}

module _ ⦃prim : Primitives⦄ ⦃net : Net⦄ where
  pub record EntryCircuitHandler : Type 0 where
    pub context : CircuitContext
    pub keypair : KeyPair
    pub next : Option NextHop

  unfoldable pub new : ℕ → KeyPair → EntryCircuitHandler
  new circuit_id keypair = record {
    context = Context.new circuit_id;
    keypair = keypair;
    next = none;
  }

  -- The cipher pair is borrowed mutably: what it has become is put back.
  abbrev pub with_cipher : EntryCircuitHandler → CipherPair → EntryCircuitHandler
  with_cipher h c = record h { context = record h.context { cipher_pair = some c } }

  unfoldable pub handle_create : Draws → EntryCircuitHandler → Message → EntryCircuitHandler × Reply
  handle_create draws h msg =
      if ltb (length msg.payload) 32
      then (h, err create_too_short)
      else let client_public = take 32 msg.payload in
        let (server_eph_pub, auth, session_key) =
          ntor_server_handshake h.keypair draws.ephemeral_secret client_public in
        let h' = record h { context = Context.activate h.context session_key } in
        (h', ok (some (Cells.created h.context.circuit_id (server_eph_pub ++ auth))))

  -- CREATED came back: keep the connection, and send its payload on as EXTENDED under one layer.
  unfoldable pub finish_extend :
      EntryCircuitHandler → CipherPair → net.Stream → Message → EntryCircuitHandler × Reply
  finish_extend h c stream created_msg =
      let h1 = record h { next = some (next_hop stream) } in
      let response = Cells.extended h1.context.circuit_id created_msg.payload in
      let (c', encrypted_data) = apply_backward c response.payload in
      (with_cipher h1 c', ok (some (Cells.extended h1.context.circuit_id encrypted_data)))

  unfoldable pub handle_extend : Draws → EntryCircuitHandler → Message → EntryCircuitHandler × Reply
  unfolding finish_extend
  handle_extend draws h msg = elim h.context.cipher_pair [
    | none ↦ (h, err not_established)
    | some cipher_pair ↦
        let (c', decrypted) = apply_forward cipher_pair msg.payload in
        let h' = with_cipher h c' in
        elim (open_next_hop draws h.context.circuit_id decrypted) [
          | err e ↦ (h', err e)
          | ok (stream, created_msg) ↦ finish_extend h' c' stream created_msg
        ]
  ]

  -- Without a next hop the cell is dropped, after the cipher has moved on.
  unfoldable pub forward_cell : Draws → EntryCircuitHandler → Message → EntryCircuitHandler × Reply
  forward_cell draws h forward_msg = elim h.next [
    | none ↦ (h, ok none)
    | some hop ↦
        let (write', r) = write_to_stream net.write_all forward_msg draws.fill hop.write in
        (record h { next = some (record hop { write = write' }) }, map_err send_failed r >> ok none)
  ]

  unfoldable pub handle_relay : Draws → EntryCircuitHandler → Message → EntryCircuitHandler × Reply
  unfolding forward_cell
  handle_relay draws h msg = elim h.context.cipher_pair [
    | none ↦ (h, err not_established)
    | some cipher_pair ↦
        let (c', decrypted) = apply_forward cipher_pair msg.payload in
        forward_cell draws (with_cipher h c') (record msg { payload = decrypted })
  ]

  unfoldable pub handle_backward_relay : EntryCircuitHandler → Message → EntryCircuitHandler × Reply
  handle_backward_relay h msg = elim h.context.cipher_pair [
    | none ↦ (h, err not_established)
    | some cipher_pair ↦
        let (c', encrypted) = apply_backward cipher_pair msg.payload in
        (with_cipher h c', ok (some (record msg { payload = encrypted })))
  ]

  unfoldable pub close : EntryCircuitHandler → EntryCircuitHandler
  close h = record h { context = Context.close h.context; next = none }

  -- EXTEND is relayed once there is a next hop.
  unfoldable pub extend_or_relay :
      Draws → EntryCircuitHandler → Message → EntryCircuitHandler × Reply
  extend_or_relay draws h msg = elim h.next [
    | some hop ↦ handle_relay draws h msg
    | none ↦ handle_extend draws h msg
  ]

  unfoldable pub dispatch :
      MessageCommand → Draws → EntryCircuitHandler → Message → EntryCircuitHandler × Reply
  dispatch create draws h msg = handle_create draws h msg
  dispatch extend draws h msg = extend_or_relay draws h msg
  dispatch data_cell draws h msg = handle_relay draws h msg
  dispatch begin draws h msg = handle_relay draws h msg
  dispatch end draws h msg = handle_relay draws h msg
  dispatch connected draws h msg = handle_relay draws h msg
  dispatch destroy draws h msg = (close h, ok none)
  dispatch padding draws h msg = (h, ok none)
  dispatch created draws h msg = (h, err (unexpected_command created))
  dispatch extended draws h msg = (h, err (unexpected_command extended))

  unfoldable pub handle_message :
      Draws → EntryCircuitHandler → Message → EntryCircuitHandler × Reply
  handle_message draws h msg = dispatch msg.command draws h msg
