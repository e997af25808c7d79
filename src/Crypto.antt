-- ===== src/Crypto.antt =====
-- services/common/src/crypto.rs: what the crates provide. The stream cipher, SHA-256, HMAC and X25519 are crates: the record `Primitives` takes them as parameters.
pub mod Keys
pub mod Cipher
pub mod Digest
pub mod Laws
pub mod Ntor
pub mod Agreement
pub mod Aes
pub mod Tests
use mini_tor.Prelude.{ℕ, List, Option}

-- `Ctr` is the cipher's state (`Ctr128BE<Aes128>`), made from a key and an IV, and `apply_keystream`
-- gives the state and the data afterwards. `hmac key message` is `none` where the crate refuses the
-- key. `public_of secret` and `diffie_hellman secret their_public` are X25519's.
pub record Primitives : Type 1 where
  pub Ctr : Type 0
  pub ctr_new : List ℕ → List ℕ → Ctr
  pub apply_keystream : Ctr → List ℕ → Ctr × List ℕ
  pub Sha256 : Type 0
  pub sha_new : Sha256
  pub sha_update : Sha256 → List ℕ → Sha256
  pub sha_finalize : Sha256 → List ℕ
  pub hmac : List ℕ → List ℕ → Option (List ℕ)
  pub public_of : List ℕ → List ℕ
  pub raw_diffie_hellman : List ℕ → List ℕ → List ℕ
