-- ===== src/Relay/Extend.antt =====
-- The EXTEND payload: address, 0, ephemeral key, 0, TLS fingerprint. `parse_extend` is what
-- handle_extend of relay-node/src/circuit/entry.rs and middle.rs reads from the decrypted bytes.
use mini_tor.Prelude.{
  ℕ, suc, ◌+◌, List, [], ◌∷◌, Option, none, some, length, drop, get_elem?, slice, Result, ok, ok_or,
  guard, ◌>>=◌, ◌>>◌, ltb, leb, not, ◌==◌, if◌then◌else◌, map_err,
}
use mini_tor.Net.{Net}
use mini_tor.Types.{SocketAddr}
use mini_tor.Relay.{
  RelayError, extend_too_short, missing_address_separator, invalid_utf8, too_short_for_key,
  missing_fingerprint_separator, missing_fingerprint, invalid_address, Draws, connection_failed,
  send_failed, read_failed, created_timed_out, next_hop_closed, unexpected_reply,
}
use mini_tor.Protocol.{MessageCommand, Message, command_eq}
use mini_tor.Protocol.Cells
use mini_tor.Protocol.Wire.{write_to_stream, from_stream}

-- `iter().position(|&b| b == 0)`
unfoldable pub position_zero : List ℕ → Option ℕ
position_zero [] = none
position_zero (b ∷ bs) =
    if b == 0 then some 0 else (elim (position_zero bs) [ none ↦ none | some i ↦ some (suc i) ])

-- `bytes.get(lo..)`
unfoldable pub tail_from : ℕ → List ℕ → Option (List ℕ)
unfolding slice
tail_from lo bytes = if leb lo (length bytes) then some (drop lo bytes) else none

pub record ExtendRequest : Type 0 where
  pub address : SocketAddr
  pub client_public : List ℕ
  pub fingerprint : List ℕ

module _ ⦃net : Net⦄ where
  unfoldable pub parse_extend : List ℕ → Result RelayError ExtendRequest
  parse_extend decrypted = do
    guard (not (ltb (length decrypted) 33)) extend_too_short
    addr_end ← ok_or (position_zero decrypted) missing_address_separator
    addr_bytes ← ok_or (slice 0 addr_end decrypted) invalid_address
    guard (net.is_utf8 addr_bytes) invalid_utf8
    let key_start = addr_end + 1
    let key_end = key_start + 32
    guard (not (ltb (length decrypted) key_end)) too_short_for_key
    client_public ← ok_or (slice key_start key_end decrypted) too_short_for_key
    fp_start ← ok_or (get_elem? decrypted key_end) missing_fingerprint_separator
    guard (fp_start == 0) missing_fingerprint_separator
    fp_bytes ← ok_or (tail_from (key_end + 1) decrypted) missing_fingerprint
    guard (net.is_utf8 fp_bytes) invalid_utf8
    address ← ok_or (net.parse_addr addr_bytes) invalid_address
    ok (record { address = address; client_public = client_public; fingerprint = fp_bytes })

  -- The CREATE exchange with the next relay, within the relay's timeout of 50 seconds. `create`
  -- carries the client's key on; the reply must be CREATED.
  unfoldable pub create_at_next_hop :
      Draws → ℕ → ExtendRequest → Result RelayError (net.Stream × Message)
  create_at_next_hop draws circuit_id req = do
    stream ← ok_or (net.connect_tls req.address req.fingerprint) connection_failed
    let create_msg = Cells.create circuit_id req.client_public
    let sent = write_to_stream net.stream_write_all create_msg draws.fill stream
    map_err send_failed sent.1
    let reply = net.read_cell_within 50 sent.0
    cell ← ok_or reply.1 created_timed_out
    received ← map_err read_failed (from_stream cell)
    created_msg ← ok_or received next_hop_closed
    guard (command_eq created_msg.command MessageCommand.created)
        (unexpected_reply created_msg.command)
    ok (reply.0, created_msg)

  -- The two steps of handle_extend between its ciphers.
  unfoldable pub open_next_hop : Draws → ℕ → List ℕ → Result RelayError (net.Stream × Message)
  unfolding parse_extend create_at_next_hop
  open_next_hop draws circuit_id decrypted =
      parse_extend decrypted >>= create_at_next_hop draws circuit_id
