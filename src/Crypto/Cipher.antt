-- ===== src/Crypto/Cipher.antt =====
-- services/common/src/crypto.rs: `CipherPair`, a keystream for each direction of a hop.
use mini_tor.Prelude.{ℕ, List, replicate}
use mini_tor.Crypto.{Primitives}
use mini_tor.Crypto.Keys.{SessionKey}

module _ ⦃prim : Primitives⦄ where
  pub record CipherPair : Type 0 where
    pub forward : prim.Ctr
    pub backward : prim.Ctr

  unfoldable pub new : SessionKey → CipherPair
  new key = record {
    forward = prim.ctr_new key.forward (replicate 16 0);
    backward = prim.ctr_new key.backward (replicate 16 0);
  }

  -- `&mut self` and `&mut [u8]`: the pair and the data afterwards.
  unfoldable pub apply_forward : CipherPair → List ℕ → CipherPair × List ℕ
  apply_forward c payload =
      let (forward', payload') = prim.apply_keystream c.forward payload in
      (record c { forward = forward' }, payload')

  unfoldable pub apply_backward : CipherPair → List ℕ → CipherPair × List ℕ
  apply_backward c payload =
      let (backward', payload') = prim.apply_keystream c.backward payload in
      (record c { backward = backward' }, payload')
