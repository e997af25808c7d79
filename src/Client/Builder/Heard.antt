-- ===== src/Client/Builder/Heard.antt =====
-- What `CircuitBuilder` (tor-client/src/core/circuit.rs) takes from a relay's answer.
use mini_tor.Prelude.{
  ℕ, ◌≡◌, ◌≤◌, refl, ap, ◌∙◌, sym, List, length, take, drop, Option, none, some, Result, ok, err,
  ok_or, map_err, Bool, true, false, if◌then◌else◌, not, ltb, slice-IsSome, bytes_eq, bytes_eq_iff,
  OnOk, OnOk-bind, OnOk-map_err, OnOk-guard, arith,
}
use mini_tor.Protocol.{MessageCommand, Message, command_eq}
use mini_tor.Protocol.Wire.{ReadExact, write_to_stream, from_stream}
use mini_tor.Types.{NodeDescriptor}
use mini_tor.Crypto.{Primitives}
use mini_tor.Crypto.Keys.{SessionKey}
use mini_tor.Crypto.Ntor.{
  t_key, t_verify, t_mac, hmac_sha256, build_secret_input, auth_input, expand_key_seed,
  raw_dh_static, handshake_auth_failed, ntor_client_finish_raw,
}
use mini_tor.Net.{Net}
use mini_tor.Relay.{Draws}
use mini_tor.Client.Builder.{
  send_failed, timed_out, read_failed, connection_closed, unexpected_reply, reply_too_short,
  handshake_failed, exchange, finish_handshake,
}

pub ok_or-ok {ℓ κ} :
    {A : Type ℓ} {E : Type κ} (o : Option A) (e : E) (a : A) → ok_or o e ≡ ok a → o ≡ some a
ok_or-ok none e a found = cc
ok_or-ok (some b) e a found = cc

map_err-ok {ℓ κ ι} :
    {E : Type ℓ} {F : Type κ} {A : Type ι} (g : E → F) (r : Result E A) (a : A)
    → map_err g r ≡ ok a
    → r ≡ ok a
map_err-ok g (ok b) a done = cc
map_err-ok g (err e) a done = cc

if-ok {ℓ κ} :
    {A : Type ℓ} {E : Type κ} (b : Bool) (x a : A) (e : E)
    → (if b then ok x else err e) ≡ ok a
    → (b ≡ true) × (x ≡ a)
if-ok true x a e done = (refl, cc)
if-ok false x a e done = cc

module _ ⦃net : Net⦄ where
  -- After this message was written to the connection, the next cell from it was this answer, and it has
  -- the command that was expected.
  pub record Heard (draws : Draws) (msg : Message) (expected : MessageCommand) (stream : net.Stream)
      (answer : Message) (later : net.Stream) : Type 0 where
    pub cell : ReadExact
    pub read :
        (net.read_cell_within 60 (write_to_stream net.stream_write_all msg draws.fill stream).0).1
        ≡ some cell
    pub left :
        later
        ≡ (net.read_cell_within 60 (write_to_stream net.stream_write_all msg draws.fill stream).0).0
    pub decoded : from_stream cell ≡ ok (some answer)
    pub wanted : command_eq answer.command expected ≡ true

  pub exchange-Heard :
      (draws : Draws) (msg : Message) (expected : MessageCommand) (stream : net.Stream)
      → OnOk
          (λ (r : net.Stream × Message). Heard draws msg expected stream r.1 r.0)
          (exchange draws msg expected stream)
  unfolding exchange
  exchange-Heard draws msg expected stream =
      let Goal : net.Stream × Message → Type 0 = λ r. Heard draws msg expected stream r.1 r.0 in
      let sent = write_to_stream net.stream_write_all msg draws.fill stream in
      let reply = net.read_cell_within 60 sent.0 in
      OnOk-bind Goal (map_err send_failed sent.1) _ λ written done.
        OnOk-bind Goal (ok_or reply.1 timed_out) _ λ cell in_time.
          OnOk-bind Goal (map_err read_failed (from_stream cell)) _ λ received decoded.
            OnOk-bind Goal (ok_or received connection_closed) _ λ answer there.
              OnOk-guard Goal (command_eq answer.command expected) (unexpected_reply answer.command)
                _
                λ wanted. record {
                  cell = cell;
                  read = ok_or-ok reply.1 timed_out cell in_time;
                  left = refl;
                  decoded =
                      map_err-ok read_failed (from_stream cell) received decoded
                      ∙ ap ok (ok_or-ok received connection_closed answer there);
                  wanted = wanted;
                }

module _ ⦃prim : Primitives⦄ where
  -- The secrets of the ntor handshake with a node that answers with this ephemeral key.
  abbrev pub secrets : Draws → NodeDescriptor → List ℕ → List ℕ
  secrets draws node server_eph_pub =
      build_secret_input (raw_dh_static draws.ephemeral_secret server_eph_pub)
        (raw_dh_static draws.ephemeral_secret node.public_key) node.public_key
        (prim.public_of draws.ephemeral_secret) server_eph_pub

  -- The AUTH tag that only a holder of these secrets can make.
  abbrev pub proof : Draws → NodeDescriptor → List ℕ → List ℕ
  proof draws node server_eph_pub = hmac_sha256 t_mac (
      auth_input (hmac_sha256 t_verify (secrets draws node server_eph_pub)) node.public_key
        server_eph_pub (prim.public_of draws.ephemeral_secret))

  -- The first 32 bytes of what was received are the ephemeral key of the node, the next 32 are the AUTH
  -- tag, which is the right one, and the session key is derived from the secrets.
  pub record Proven (draws : Draws) (node : NodeDescriptor) (received : List ℕ) (key : SessionKey)
      : Type 0 where
    pub long : 64 ≤ length received
    pub authentic : take 32 (drop 32 received) ≡ proof draws node (take 32 received)
    pub derived : key ≡ expand_key_seed (hmac_sha256 t_key (secrets draws node (take 32 received)))

  client_finish-Proven :
      (draws : Draws) (node : NodeDescriptor) (received : List ℕ) (key : SessionKey)
      → 64 ≤ length received
      → ntor_client_finish_raw draws.ephemeral_secret
          (prim.public_of draws.ephemeral_secret)
          node.public_key
          (take 32 received)
          (take 32 (drop 32 received))
        ≡ ok key
      → Proven draws node received key
  unfolding ntor_client_finish_raw
  client_finish-Proven draws node received key long done =
      let auth = take 32 (drop 32 received) in
      let expected = proof draws node (take 32 received) in
      let (same, derived) =
        if-ok (bytes_eq auth expected)
          (expand_key_seed (hmac_sha256 t_key (secrets draws node (take 32 received)))) key
          handshake_auth_failed done in
      record { long = long; authentic = (bytes_eq_iff auth expected).0 same; derived = sym derived }

  pub finish_handshake-Proven :
      (draws : Draws) (node : NodeDescriptor) (received : List ℕ)
      → OnOk (Proven draws node received) (finish_handshake draws node received)
  unfolding finish_handshake
  finish_handshake-Proven draws node received =
      let Goal = Proven draws node received in
      OnOk-guard Goal (not (ltb (length received) 64)) (reply_too_short (length received)) _ λ long.
        let enough : 64 ≤ length received = ground (arith, long) in
        rw
          (
            slice-IsSome 0 32 received (omega (arith, enough)),
            slice-IsSome 32 64 received (omega (arith, enough)),
          )
          (OnOk-map_err Goal handshake_failed _
            λ key done. client_finish-Proven draws node received key enough done)
