-- ===== src/Crypto/Laws.antt =====
-- What the code relies on of the crates: a stream cipher cancels itself and moves on by the length of
-- the data, X25519 agrees, and SHA-256 takes its data in pieces and gives 32 bytes.
use mini_tor.Prelude.{ℕ, ◌≡◌, List, ◌++◌, length}
use mini_tor.Crypto.{Primitives}

pub record IsStreamCipher (prim : Primitives) : Type 0 where
  pub cancels :
      (s : prim.Ctr) (d : List ℕ) → (prim.apply_keystream s (prim.apply_keystream s d).1).1 ≡ d
  pub keeps_length : (s : prim.Ctr) (d : List ℕ) → length (prim.apply_keystream s d).1 ≡ length d
  pub moves_by_length :
      (s : prim.Ctr) (d e : List ℕ)
      → length d ≡ length e
      → (prim.apply_keystream s d).0 ≡ (prim.apply_keystream s e).0

pub record DhAgrees (prim : Primitives) : Type 0 where
  pub agree :
      (a b : List ℕ)
      → prim.raw_diffie_hellman a (prim.public_of b) ≡ prim.raw_diffie_hellman b (prim.public_of a)

pub record IsHash (prim : Primitives) : Type 0 where
  pub appends :
      (s : prim.Sha256) (d e : List ℕ)
      → prim.sha_update (prim.sha_update s d) e ≡ prim.sha_update s (d ++ e)
  pub has_32_bytes : (s : prim.Sha256) → length (prim.sha_finalize s) ≡ 32
