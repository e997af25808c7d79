-- ===== src/Onion.antt =====
-- The client's layers against the relays' layers. `peel` and `wrap` are what the cipher pairs of a
-- row of relays do to the payload of a cell on its way: handle_relay of each relay applies its
-- forward keystream, and handle_backward_relay its backward keystream (relay-node/src/circuit).
mod Rows
pub mod Session
pub mod ThreeHops
pub mod Extending
pub mod Tests
use mini_tor.Prelude.{ℕ, ◌≡◌, refl, sym, ap₂, ◌∙◌, List, [], ◌∷◌, length}
use mini_tor.Crypto.{Primitives}
use mini_tor.Crypto.Cipher.{CipherPair, apply_forward, apply_backward}
use mini_tor.Crypto.Laws.{IsStreamCipher}
use mini_tor.Client.Engine.{encrypt_layers, decrypt_layers}

module _ ⦃prim : Primitives⦄ where
  unfoldable pub peel : List CipherPair → List ℕ → List CipherPair × List ℕ
  peel [] payload = ([], payload)
  peel (hop ∷ later) payload =
      let (hop', p) = apply_forward hop payload in
      let (later', p') = peel later p in (hop' ∷ later', p')

  unfoldable pub wrap : List CipherPair → List ℕ → List CipherPair × List ℕ
  wrap [] payload = ([], payload)
  wrap (hop ∷ later) payload =
      let (later', p) = wrap later payload in
      let (hop', p') = apply_backward hop p in (hop' ∷ later', p')

  -- The keystreams of a row of cipher pairs.
  abbrev pub forwards : List CipherPair → List prim.Ctr
  forwards [] = []
  forwards (c ∷ cs) = c.forward ∷ forwards cs

  abbrev pub backwards : List CipherPair → List prim.Ctr
  backwards [] = []
  backwards (c ∷ cs) = c.backward ∷ backwards cs

  -- The two ends of every hop stand at the same place of the keystream.
  abbrev pub SameForward : List CipherPair → List CipherPair → Type 0
  SameForward keys hops = forwards keys ≡ forwards hops

  abbrev pub SameBackward : List CipherPair → List CipherPair → Type 0
  SameBackward keys hops = backwards keys ≡ backwards hops

  module _ (laws : IsStreamCipher prim) where
    pub length-encrypt_layers :
        (keys : List CipherPair) (payload : List ℕ)
        → length (encrypt_layers keys payload).1 ≡ length payload
    unfolding encrypt_layers apply_forward
    length-encrypt_layers [] payload = refl
    length-encrypt_layers (k ∷ ks) payload =
        laws.keeps_length k.forward (encrypt_layers ks payload).1 ∙ length-encrypt_layers ks payload

    -- One relay undoes one layer, and stays beside the client in the keystream.
    undo_forward :
        (k h : CipherPair) (p : List ℕ)
        → k.forward ≡ h.forward
        → ((apply_forward h (apply_forward k p).1).1 ≡ p)
          × ((apply_forward k p).0.forward ≡ (apply_forward h (apply_forward k p).1).0.forward)
    unfolding apply_forward
    undo_forward k h p e = rw (← e) (
      laws.cancels k.forward p,
      laws.moves_by_length k.forward p (prim.apply_keystream k.forward p).1
          (sym (laws.keeps_length k.forward p)),
    )

    -- The relays of a circuit take off exactly the layers that the client put on, for any number of
    -- hops, and the keystreams of the two ends stay together, if they were together before and the
    -- cipher is a stream cipher.
    pub peel-encrypt_layers :
        (keys hops : List CipherPair) (payload : List ℕ)
        → SameForward keys hops
        → ((peel hops (encrypt_layers keys payload).1).1 ≡ payload)
          × SameForward
              (encrypt_layers keys payload).0
              (peel hops (encrypt_layers keys payload).1).0
    unfolding peel encrypt_layers
    peel-encrypt_layers [] [] payload same = (refl, refl)
    peel-encrypt_layers [] (h ∷ hs) payload same = cc
    peel-encrypt_layers (k ∷ ks) [] payload same = cc
    peel-encrypt_layers (k ∷ ks) (h ∷ hs) payload same =
        let p = (encrypt_layers ks payload).1 in
        let (undone, together) = undo_forward k h p (cc) in
        let (plain, rest) = peel-encrypt_layers ks hs payload (cc) in
        rw undone (plain, ap₂ (λ (a : prim.Ctr) (as_ : List prim.Ctr). a ∷ as_) together rest)

    -- The client undoes one relay's layer, and stays beside the relay in the keystream.
    undo_backward :
        (k h : CipherPair) (p : List ℕ)
        → k.backward ≡ h.backward
        → ((apply_backward h (apply_backward k p).1).1 ≡ p)
          × ((apply_backward k p).0.backward ≡ (apply_backward h (apply_backward k p).1).0.backward)
    unfolding apply_backward
    undo_backward k h p e = rw (← e) (
      laws.cancels k.backward p,
      laws.moves_by_length k.backward p (prim.apply_keystream k.backward p).1
          (sym (laws.keeps_length k.backward p)),
    )

    -- The client takes off exactly the layers that the relays put on, for any number of hops, and
    -- the keystreams of the two ends stay together, if they were together before and the cipher is a
    -- stream cipher.
    pub decrypt_layers-wrap :
        (keys hops : List CipherPair) (payload : List ℕ)
        → SameBackward hops keys
        → ((decrypt_layers keys (wrap hops payload).1).1 ≡ payload)
          × SameBackward (wrap hops payload).0 (decrypt_layers keys (wrap hops payload).1).0
    unfolding wrap decrypt_layers
    decrypt_layers-wrap [] [] payload same = (refl, refl)
    decrypt_layers-wrap [] (h ∷ hs) payload same = cc
    decrypt_layers-wrap (k ∷ ks) [] payload same = cc
    decrypt_layers-wrap (k ∷ ks) (h ∷ hs) payload same =
        let p = (wrap hs payload).1 in
        let (undone, together) = undo_backward h k p (cc) in
        let (plain, rest) = decrypt_layers-wrap ks hs payload (cc) in
        rw undone (plain, ap₂ (λ (a : prim.Ctr) (as_ : List prim.Ctr). a ∷ as_) together rest)
