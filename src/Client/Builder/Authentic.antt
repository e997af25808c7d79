-- ===== src/Client/Builder/Authentic.antt =====
-- Every hop of a circuit that `CircuitBuilder` (tor-client/src/core/circuit.rs) builds has proven itself.
use mini_tor.Prelude.{
  ℕ, suc, ◌+◌, ◌≡◌, ◌≤◌, refl, ap, sym, some, ◌∙◌, List, [], ◌∷◌, ◌++◌, length, length-append,
  append_assoc, append-nil, ok, ok_or, not, ltb, OnOk, OnOk-of, OnOk-bind, OnOk-weaken, subst,
  OnOk-guard, arith,
}
use mini_tor.Types.{NodeDescriptor}
use mini_tor.Protocol.Cells
use mini_tor.Protocol.{Message, created, extended}
use mini_tor.Crypto.{Primitives}
use mini_tor.Crypto.Keys.{SessionKey}
use mini_tor.Crypto.Cipher
use mini_tor.Crypto.Cipher.{CipherPair, apply_forward, apply_backward}
use mini_tor.Net.{Net}
use mini_tor.Relay.{Draws}
use mini_tor.Client.Engine
use mini_tor.Client.Engine.{encrypt_layers, decrypt_layers}
use mini_tor.Client.Circuit.{Circuit, ready}
use mini_tor.Client.Builder.Heard.{ok_or-ok, Heard, exchange-Heard, Proven, finish_handshake-Proven}
use mini_tor.Client.Builder.{
  connection_failed, path_too_short, exchange, finish_handshake, handshake_create, extend_payload,
  handshake_extend, extend_all, ready_circuit, build_from, build,
}

module _ ⦃prim : Primitives⦄ where
  length-encrypted :
      (ciphers : List CipherPair) (payload : List ℕ)
      → length (encrypt_layers ciphers payload).0 ≡ length ciphers
  unfolding encrypt_layers
  length-encrypted [] payload = refl
  length-encrypted (c ∷ cs) payload = ap suc (length-encrypted cs payload)

  length-decrypted :
      (ciphers : List CipherPair) (payload : List ℕ)
      → length (decrypt_layers ciphers payload).0 ≡ length ciphers
  unfolding decrypt_layers
  length-decrypted [] payload = refl
  length-decrypted (c ∷ cs) payload = ap suc (length-decrypted cs (apply_backward c payload).1)

module _ ⦃prim : Primitives⦄ ⦃net : Net⦄ where
  -- The entry has answered CREATE on this connection, and its key is proven by the answer.
  abbrev Entered : Draws → ℕ → net.Stream → NodeDescriptor → net.Stream × SessionKey → Type 0
  Entered draws circuit_id stream entry r =
      (answer : Message) × Heard draws
        (Cells.create circuit_id (prim.public_of draws.ephemeral_secret)) created stream answer r.0
      × Proven draws entry answer.payload r.1

  -- The EXTEND payload under the layers of the hops so far, and the ciphers then.
  abbrev onion_payload : Draws → NodeDescriptor → List CipherPair → List CipherPair × List ℕ
  onion_payload draws node ciphers =
      encrypt_layers ciphers (extend_payload node (prim.public_of draws.ephemeral_secret))

  -- A later hop has answered EXTEND, its key is proven by the answer without the layers, and these are
  -- the ciphers then.
  abbrev Extended :
      Draws
      → ℕ
      → net.Stream
      → NodeDescriptor
      → List CipherPair
      → net.Stream × List CipherPair × SessionKey
      → Type 0
  Extended draws circuit_id stream node ciphers r =
      let wrapped = onion_payload draws node ciphers in
      (answer : Message) × Heard draws (Cells.extend circuit_id wrapped.1) extended stream answer
        r.0
      × Proven draws node (decrypt_layers wrapped.0 answer.payload).1 r.2
      × (r.1 ≡ (decrypt_layers wrapped.0 answer.payload).0)

  -- Each of the later hops has answered in its turn, and a cipher for its key was added.
  abbrev pub Later :
      ℕ
      → (ℕ → Draws)
      → ℕ
      → List NodeDescriptor
      → List SessionKey
      → net.Stream
      → List CipherPair
      → List CipherPair
      → Type 0
  Later circuit_id draws hop [] [] stream ciphers last = ciphers ≡ last
  Later circuit_id draws hop [] (key ∷ keys) stream ciphers last = ⊥
  Later circuit_id draws hop (node ∷ path) [] stream ciphers last = ⊥
  Later circuit_id draws hop (node ∷ path) (key ∷ keys) stream ciphers last =
      (stream' : net.Stream) × (ciphers' : List CipherPair) × Extended (draws hop) circuit_id stream
        node ciphers (stream', ciphers', key)
      × Later circuit_id draws (suc hop) path keys stream' (ciphers' ++ Cipher.new key ∷ []) last

  -- All hops, from the connection to the entry on: a key for each, and the ciphers at the end.
  abbrev pub AllProven :
      ℕ → (ℕ → Draws) → List NodeDescriptor → List SessionKey → List CipherPair → Type 0
  AllProven circuit_id draws [] keys last = ⊥
  AllProven circuit_id draws (entry ∷ later) [] last = ⊥
  AllProven circuit_id draws (entry ∷ later) (key ∷ keys) last =
      (stream : net.Stream) × (stream' : net.Stream) × (net.connect_tls entry.address
          entry.tls_cert_fingerprint
        ≡ some stream)
      × Entered (draws 0) circuit_id stream entry (stream', key)
      × Later circuit_id draws 1 later keys stream' (Cipher.new key ∷ []) last

  handshake_create-Proven :
      (draws : Draws) (circuit_id : ℕ) (stream : net.Stream) (entry : NodeDescriptor)
      → OnOk
          (Entered draws circuit_id stream entry)
          (handshake_create draws circuit_id stream entry)
  unfolding handshake_create
  handshake_create-Proven draws circuit_id stream entry =
      let msg = Cells.create circuit_id (prim.public_of draws.ephemeral_secret) in
      OnOk-bind (Entered draws circuit_id stream entry) (exchange draws msg created stream) _
        λ answer read.
          OnOk-bind (Entered draws circuit_id stream entry)
            (finish_handshake draws entry answer.1.payload) _
            λ key done. (
              answer.1,
              OnOk-of (λ (r : net.Stream × Message). Heard draws msg created stream r.1 r.0)
                  (exchange draws msg created stream) answer
                  (exchange-Heard draws msg created stream) read,
              OnOk-of (Proven draws entry answer.1.payload)
                  (finish_handshake draws entry answer.1.payload) key
                  (finish_handshake-Proven draws entry answer.1.payload) done,
            )

  handshake_extend-Extended :
      (draws : Draws) (circuit_id : ℕ) (stream : net.Stream) (node : NodeDescriptor)
      (ciphers : List CipherPair)
      → OnOk
          (Extended draws circuit_id stream node ciphers)
          (handshake_extend draws circuit_id stream node ciphers)
  unfolding handshake_extend
  handshake_extend-Extended draws circuit_id stream node ciphers =
      let Goal = Extended draws circuit_id stream node ciphers in
      let wrapped = onion_payload draws node ciphers in
      let msg = Cells.extend circuit_id wrapped.1 in
      OnOk-bind Goal (exchange draws msg extended stream) _ λ answer read.
        let unwrapped = decrypt_layers wrapped.0 answer.1.payload in
        OnOk-bind Goal (finish_handshake draws node unwrapped.1) _ λ key done. (
          answer.1,
          OnOk-of (λ (r : net.Stream × Message). Heard draws msg extended stream r.1 r.0)
              (exchange draws msg extended stream) answer (exchange-Heard draws msg extended stream)
              read,
          OnOk-of (Proven draws node unwrapped.1) (finish_handshake draws node unwrapped.1) key
              (finish_handshake-Proven draws node unwrapped.1) done,
          refl,
        )

  length-Extended :
      (draws : Draws) (circuit_id : ℕ) (stream : net.Stream) (node : NodeDescriptor)
      (ciphers : List CipherPair) (r : net.Stream × List CipherPair × SessionKey)
      → Extended draws circuit_id stream node ciphers r
      → length r.1 ≡ length ciphers
  length-Extended draws circuit_id stream node ciphers r (answer, heard, proven, same) =
      ap length same
      ∙ length-decrypted (onion_payload draws node ciphers).0 answer.payload
      ∙ length-encrypted ciphers (extend_payload node (prim.public_of draws.ephemeral_secret))

  -- The keys of these hops were added to those that were there, and a cipher for each.
  abbrev ExtendedAll :
      ℕ
      → (ℕ → Draws)
      → List NodeDescriptor
      → net.Stream
      → List SessionKey
      → List CipherPair
      → net.Stream × List SessionKey × List CipherPair
      → Type 0
  ExtendedAll circuit_id draws path stream keys ciphers r =
      (added : List SessionKey) × (r.1 ≡ keys ++ added)
      × Later circuit_id draws (length ciphers) path added stream ciphers r.2
      × (length r.2 ≡ length ciphers + length path)

  extend_all-ExtendedAll :
      (circuit_id : ℕ) (draws : ℕ → Draws) (path : List NodeDescriptor) (stream : net.Stream)
      (keys : List SessionKey) (ciphers : List CipherPair)
      → OnOk
          (ExtendedAll circuit_id draws path stream keys ciphers)
          (extend_all circuit_id draws path stream keys ciphers)
  unfolding extend_all
  extend_all-ExtendedAll circuit_id draws [] stream keys ciphers =
      ([], sym (append-nil keys), refl, omega arith)
  extend_all-ExtendedAll circuit_id draws (node ∷ path) stream keys ciphers =
      let own = draws (length ciphers) in
      OnOk-bind (ExtendedAll circuit_id draws (node ∷ path) stream keys ciphers)
        (handshake_extend own circuit_id stream node ciphers) _
        λ hop done.
          let one =
            OnOk-of (Extended own circuit_id stream node ciphers)
              (handshake_extend own circuit_id stream node ciphers) hop
              (handshake_extend-Extended own circuit_id stream node ciphers) done in
          let keys' = keys ++ hop.2 ∷ [] in
          let ciphers' = hop.1 ++ Cipher.new hop.2 ∷ [] in
          let longer : length ciphers' ≡ suc (length ciphers) = omega (
            arith,
            length-append hop.1 (Cipher.new hop.2 ∷ []),
            length-Extended own circuit_id stream node ciphers hop one,
          ) in
          OnOk-weaken (ExtendedAll circuit_id draws path hop.0 keys' ciphers')
            (ExtendedAll circuit_id draws (node ∷ path) stream keys ciphers)
            (extend_all circuit_id draws path hop.0 keys' ciphers')
            (λ r more. (
              hop.2 ∷ more.0,
              more.1 ∙ append_assoc keys (hop.2 ∷ []) more.0,
              (
                hop.0,
                hop.1,
                one,
                subst (λ (n : ℕ). Later circuit_id draws n path more.0 hop.0 ciphers' r.2) longer
                    more.2,
              ),
              omega (arith, more.3, longer),
            ))
            (extend_all-ExtendedAll circuit_id draws path hop.0 keys' ciphers')

  -- What a new circuit promises.
  pub record IsAuthentic (draws : ℕ → Draws) (circuit_id : ℕ) (path : List NodeDescriptor)
      (c : Circuit) : Type 0 where
    pub ready_at_once : c.state ≡ ready
    pub hops : 3 ≤ length path
    pub proven : AllProven circuit_id draws path c.onion_keys.session_keys c.onion_keys.ciphers
    pub ciphers : length c.onion_keys.ciphers ≡ length path
    pub no_streams : c.stream_senders ≡ []

  build_from-IsAuthentic :
      (draws : ℕ → Draws) (circuit_id : ℕ) (entry : NodeDescriptor) (later : List NodeDescriptor)
      → 3 ≤ length (entry ∷ later)
      → OnOk
          (λ (r : Circuit × net.ReadHalf). IsAuthentic draws circuit_id (entry ∷ later) r.0)
          (build_from draws circuit_id entry later)
  unfolding build_from ready_circuit Engine.new
  build_from-IsAuthentic draws circuit_id entry later hops =
      let Goal : Circuit × net.ReadHalf → Type 0 =
        λ r. IsAuthentic draws circuit_id (entry ∷ later) r.0 in
      OnOk-bind Goal
        (ok_or (net.connect_tls entry.address entry.tls_cert_fingerprint) connection_failed) _
        λ entry_stream connected.
          OnOk-bind Goal (handshake_create (draws 0) circuit_id entry_stream entry) _ λ first done.
            let one =
              OnOk-of (Entered (draws 0) circuit_id entry_stream entry)
                (handshake_create (draws 0) circuit_id entry_stream entry) first
                (handshake_create-Proven (draws 0) circuit_id entry_stream entry) done in
            let keys = first.1 ∷ [] in
            let ciphers = Cipher.new first.1 ∷ [] in
            OnOk-bind Goal (extend_all circuit_id draws later first.0 keys ciphers) _ λ all done'.
              let more =
                OnOk-of (ExtendedAll circuit_id draws later first.0 keys ciphers)
                  (extend_all circuit_id draws later first.0 keys ciphers) all
                  (extend_all-ExtendedAll circuit_id draws later first.0 keys ciphers) done' in
              record {
                ready_at_once = refl;
                hops = hops;
                proven =
                    subst
                      (λ (ks : List SessionKey).
                        AllProven circuit_id draws (entry ∷ later) ks all.2)
                      (sym more.1)
                      (
                        entry_stream,
                        first.0,
                        ok_or-ok (net.connect_tls entry.address entry.tls_cert_fingerprint)
                            connection_failed entry_stream connected,
                        one,
                        more.2,
                      );
                ciphers = omega (arith, more.3);
                no_streams = refl;
              }

  -- A circuit that was built is ready and has no streams, its path has at least three hops, and it has a
  -- cipher and a session key for each. Each hop has answered in its turn, the entry to CREATE on the
  -- connection to the entry's address and fingerprint, and the others to EXTEND under the layers of the
  -- hops before them: the first 32 bytes of the payload, decrypted, are its ephemeral key, the next 32
  -- are the AUTH tag that follows from it, from the public key of that hop's descriptor and from the
  -- ephemeral secret drawn for that hop, and the session key follows from the same secrets.
  pub build-IsAuthentic :
      (draws : ℕ → Draws) (circuit_id : ℕ) (path : List NodeDescriptor) (c : Circuit)
      (read_half : net.ReadHalf)
      → build draws circuit_id path ≡ ok (c, read_half)
      → IsAuthentic draws circuit_id path c
  unfolding build
  build-IsAuthentic draws circuit_id [] c read_half done = absurd (cc)
  build-IsAuthentic draws circuit_id (entry ∷ later) c read_half done =
      let Goal : Circuit × net.ReadHalf → Type 0 =
        λ r. IsAuthentic draws circuit_id (entry ∷ later) r.0 in
      OnOk-of Goal (build draws circuit_id (entry ∷ later)) (c, read_half)
        (OnOk-guard Goal (not (ltb (length (entry ∷ later)) 3))
          (path_too_short (length (entry ∷ later))) (build_from draws circuit_id entry later)
          (λ long. build_from-IsAuthentic draws circuit_id entry later (ground (arith, long))))
        done
