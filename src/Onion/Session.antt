-- ===== src/Onion/Session.antt =====
-- A circuit in use: the client (tor-client/src/core/circuit.rs), the cipher pairs of the relays before
-- the exit, and the exit's shared state (relay-node/src/circuit/exit.rs), with cells in both
-- directions in any order.
use mini_tor.Prelude.{
  ℕ, ◌≡◌, refl, sym, ap, ap₂, ◌∙◌, Bool, true, List, [], ◌∷◌, ◌++◌, bytes_eq_self,
}
use mini_tor.Protocol.{MessageCommand}
use mini_tor.Protocol.Cells
use mini_tor.Crypto.{Primitives}
use mini_tor.Crypto.Cipher.{CipherPair, apply_forward, apply_backward}
use mini_tor.Crypto.Digest.{verify}
use mini_tor.Crypto.Laws.{IsStreamCipher}
use mini_tor.Client.Engine.{OnionKeys, onion_encrypt, onion_decrypt, encrypt_layers, decrypt_layers}
use mini_tor.Client.Circuit.{seal_forward, open_backward}
use mini_tor.Relay.Exit.{ExitCryptoState, open_forward, seal_backward}
use mini_tor.Onion.{
  peel, wrap, forwards, backwards, SameForward, SameBackward, peel-encrypt_layers,
  decrypt_layers-wrap,
}
use mini_tor.Onion.Rows.{
  peel-append, wrap-append, backwards-encrypt, backwards-peel, forwards-wrap, forwards-decrypt,
  forwards-append, backwards-append,
}

-- A cell that the client sends, or that the exit sends: stream, command and plain data.
pub data Action : Type 0 where
  to_exit : ℕ → MessageCommand → List ℕ → Action
  to_client : ℕ → MessageCommand → List ℕ → Action

-- What the receiving end gets: the data, and whether the digest matched.
abbrev pub Received : Type 0
Received = List ℕ × Bool

-- The data of every cell, with a digest that matched.
abbrev pub delivered : List Action → List Received
delivered [] = []
delivered (to_exit s c d ∷ as_) = (d, true) ∷ delivered as_
delivered (to_client s c d ∷ as_) = (d, true) ∷ delivered as_

module _ ⦃prim : Primitives⦄ where
  pub record Ends : Type 0 where
    pub keys : OnionKeys
    pub front : List CipherPair
    pub exit : ExitCryptoState

  unfoldable pub send_to_exit : ℕ → Ends → ℕ → MessageCommand → List ℕ → Ends × Received
  send_to_exit circuit_id ends stream_id command plain =
      let (keys', msg) = seal_forward ends.keys circuit_id stream_id command plain in
      let (front', p) = peel ends.front msg.payload in
      let (exit', decrypted, matches) = open_forward ends.exit (record msg { payload = p }) in
      (record { keys = keys'; front = front'; exit = exit' }, (decrypted, matches))

  unfoldable pub send_to_client : ℕ → Ends → ℕ → MessageCommand → List ℕ → Ends × Received
  send_to_client circuit_id ends stream_id command plain =
      let (exit', msg) = seal_backward ends.exit circuit_id stream_id command plain in
      let (front', p) = wrap ends.front msg.payload in
      let (keys', decrypted, matches) = open_backward ends.keys (record msg { payload = p }) in
      (record { keys = keys'; front = front'; exit = exit' }, (decrypted, matches))

  unfoldable pub perform : ℕ → Ends → Action → Ends × Received
  perform circuit_id ends (to_exit s c d) = send_to_exit circuit_id ends s c d
  perform circuit_id ends (to_client s c d) = send_to_client circuit_id ends s c d

  unfoldable pub run_session : ℕ → Ends → List Action → Ends × List Received
  run_session circuit_id ends [] = (ends, [])
  run_session circuit_id ends (a ∷ as_) =
      let (ends', r) = perform circuit_id ends a in
      let (last, rs) = run_session circuit_id ends' as_ in (last, r ∷ rs)

  -- The hops of the circuit, the exit last.
  abbrev pub hops : Ends → List CipherPair
  hops ends = ends.front ++ ends.exit.cipher ∷ []

  pub record InSync (ends : Ends) : Type 0 where
    pub forward : SameForward ends.keys.ciphers (hops ends)
    pub backward : SameBackward (hops ends) ends.keys.ciphers
    pub forward_digest : ends.keys.forward_digest ≡ ends.exit.forward_digest
    pub backward_digest : ends.exit.backward_digest ≡ ends.keys.backward_digest

  module _ (laws : IsStreamCipher prim) where
    abbrev pub Delivers : Ends × Received → List ℕ → Type 0
    Delivers r plain = (r.1 ≡ (plain, true)) × InSync r.0

    pub send_to_exit-Delivers :
        (cid : ℕ) (ends : Ends) (s : ℕ) (c : MessageCommand) (plain : List ℕ)
        → InSync ends
        → Delivers (send_to_exit cid ends s c plain) plain
    unfolding send_to_exit seal_forward open_forward onion_encrypt verify apply_forward Cells.new
        Cells.stream
    send_to_exit-Delivers cid ends s c plain sync =
        let keys = ends.keys.ciphers in
        let last = ends.exit.cipher in
        let e = (encrypt_layers keys plain).1 in
        let row = peel-append ends.front last e in
        let (undone, together) = peel-encrypt_layers laws keys (hops ends) plain sync.forward in
        let got : (apply_forward last (peel ends.front e).1).1 ≡ plain =
          ap (λ (r : List CipherPair × List ℕ). r.1) (sym row) ∙ undone in
        let same_row = ap (λ (r : List CipherPair × List ℕ). forwards r.0) row in
        let back : backwards
              ((peel ends.front e).0 ++ (apply_forward last (peel ends.front e).1).0 ∷ [])
            ≡ backwards (encrypt_layers keys plain).0 =
          rw
            (
              backwards-append (peel ends.front e).0 (apply_forward last (peel ends.front e).1).0,
              backwards-peel ends.front e,
              backwards-encrypt keys plain,
              ← sync.backward,
              backwards-append ends.front last,
            )
            refl in
        (
          rw (got, sync.forward_digest) (ap (λ (b : Bool). (plain, b)) (bytes_eq_self _)),
          record {
            forward = together ∙ same_row;
            backward = back;
            forward_digest = rw (got, sync.forward_digest) refl;
            backward_digest = sync.backward_digest;
          },
        )

    send_to_client-Delivers :
        (cid : ℕ) (ends : Ends) (s : ℕ) (c : MessageCommand) (plain : List ℕ)
        → InSync ends
        → Delivers (send_to_client cid ends s c plain) plain
    unfolding send_to_client seal_backward open_backward onion_decrypt verify apply_backward
        Cells.stream
    send_to_client-Delivers cid ends s c plain sync =
        let keys = ends.keys.ciphers in
        let last = ends.exit.cipher in
        let p = (apply_backward last plain).1 in
        let w = (wrap ends.front p).1 in
        let row = wrap-append ends.front last plain in
        let (undone, together) = decrypt_layers-wrap laws keys (hops ends) plain sync.backward in
        let on_wire = ap (λ (r : List CipherPair × List ℕ). r.1) row in
        let got : (decrypt_layers keys w).1 ≡ plain =
          ap (λ (x : List ℕ). (decrypt_layers keys x).1) (sym on_wire) ∙ undone in
        let back : backwards ((wrap ends.front p).0 ++ (apply_backward last plain).0 ∷ [])
            ≡ backwards (decrypt_layers keys w).0 =
          ap (λ (r : List CipherPair × List ℕ). backwards r.0) (sym row)
          ∙ together
          ∙ ap (λ (x : List ℕ). backwards (decrypt_layers keys x).0) on_wire in
        let fore : forwards (decrypt_layers keys w).0
            ≡ forwards ((wrap ends.front p).0 ++ (apply_backward last plain).0 ∷ []) =
          rw
            (
              forwards-append (wrap ends.front p).0 (apply_backward last plain).0,
              forwards-wrap ends.front p,
              forwards-decrypt keys w,
              sync.forward,
              forwards-append ends.front last,
            )
            refl in
        (
          rw (got, sync.backward_digest) (ap (λ (b : Bool). (plain, b)) (bytes_eq_self _)),
          record {
            forward = fore;
            backward = back;
            forward_digest = sync.forward_digest;
            backward_digest = rw (got, sync.backward_digest) refl;
          },
        )

    -- In a circuit of any length whose ends are in step, any sequence of cells in the two directions
    -- arrives in full and with a matching digest, and the ends are in step afterwards, if the cipher
    -- is a stream cipher.
    pub run_session-delivers :
        (cid : ℕ) (ends : Ends) (as_ : List Action)
        → InSync ends
        → ((run_session cid ends as_).1 ≡ delivered as_) × InSync (run_session cid ends as_).0
    unfolding run_session perform
    run_session-delivers cid ends [] sync = (refl, sync)
    run_session-delivers cid ends (to_exit s c d ∷ as_) sync =
        let (first, sync') = send_to_exit-Delivers cid ends s c d sync in
        let (rest, last) = run_session-delivers cid (send_to_exit cid ends s c d).0 as_ sync' in
        (ap₂ (λ (r : Received) (rs : List Received). r ∷ rs) first rest, last)
    run_session-delivers cid ends (to_client s c d ∷ as_) sync =
        let (first, sync') = send_to_client-Delivers cid ends s c d sync in
        let (rest, last) = run_session-delivers cid (send_to_client cid ends s c d).0 as_ sync' in
        (ap₂ (λ (r : Received) (rs : List Received). r ∷ rs) first rest, last)
