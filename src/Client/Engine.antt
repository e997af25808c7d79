-- ===== src/Client/Engine.antt =====
-- services/tor-client/src/core/crypto_engine.rs: the layers of an N-hop circuit.
use mini_tor.Prelude.{ℕ, List, [], ◌∷◌}
use mini_tor.Crypto.{Primitives}
use mini_tor.Crypto.Keys.{SessionKey}
use mini_tor.Crypto.Cipher.{CipherPair, apply_forward, apply_backward}
use mini_tor.Crypto.Digest
use mini_tor.Crypto.Digest.{RunningDigest}

module _ ⦃prim : Primitives⦄ where
  -- Keys and ciphers from the entry to the exit.
  pub record OnionKeys : Type 0 where
    pub session_keys : List SessionKey
    pub ciphers : List CipherPair
    pub forward_digest : RunningDigest
    pub backward_digest : RunningDigest

  unfoldable pub new : List SessionKey → List CipherPair → OnionKeys
  new session_keys ciphers = record {
    session_keys = session_keys;
    ciphers = ciphers;
    forward_digest = Digest.new;
    backward_digest = Digest.new;
  }

  -- `for cipher in ciphers.iter_mut().rev()`: the last cipher first.
  unfoldable pub encrypt_layers : List CipherPair → List ℕ → List CipherPair × List ℕ
  encrypt_layers [] payload = ([], payload)
  encrypt_layers (cipher ∷ inner) payload =
      let (inner', p) = encrypt_layers inner payload in
      let (cipher', p') = apply_forward cipher p in (cipher' ∷ inner', p')

  -- `for cipher in ciphers.iter_mut()`: the first cipher first.
  unfoldable pub decrypt_layers : List CipherPair → List ℕ → List CipherPair × List ℕ
  decrypt_layers [] payload = ([], payload)
  decrypt_layers (cipher ∷ inner) payload =
      let (cipher', p) = apply_backward cipher payload in
      let (inner', p') = decrypt_layers inner p in (cipher' ∷ inner', p')

  unfoldable pub onion_encrypt : OnionKeys → List ℕ → OnionKeys × List ℕ
  unfolding encrypt_layers
  onion_encrypt k payload =
      let (ciphers', p) = encrypt_layers k.ciphers payload in (record k { ciphers = ciphers' }, p)

  unfoldable pub onion_decrypt : OnionKeys → List ℕ → OnionKeys × List ℕ
  unfolding decrypt_layers
  onion_decrypt k payload =
      let (ciphers', p) = decrypt_layers k.ciphers payload in (record k { ciphers = ciphers' }, p)
