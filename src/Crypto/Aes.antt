-- ===== src/Crypto/Aes.antt =====
-- services/common/src/crypto.rs: `aes_encrypt` and `aes_decrypt`.
use mini_tor.Prelude.{
  ℕ, ◌≡◌, ◌<◌, ◌+◌, refl, sym, ap, ◌∙◌, List, ◌++◌, Option, some, Result, ok, err, ok_or, guard,
  ◌>>=◌, ◌>>◌, ltb, not, length, slice, arith, le→ltb, lt→ltb, length-append, slice-append,
  append-nil, false, [],
}
use mini_tor.Crypto.{Primitives}
use mini_tor.Crypto.Laws.{IsStreamCipher}

pub data AesError : Type 0 where
  too_short : ℕ → AesError
  missing_iv missing_ciphertext : AesError

-- `bytes.get(lo..)`
abbrev tail_from : ℕ → List ℕ → Option (List ℕ)
tail_from lo bytes = slice lo (length bytes) bytes

module _ ⦃prim : Primitives⦄ where
  -- `iv` holds the 16 random bytes.
  unfoldable pub aes_encrypt : List ℕ → List ℕ → List ℕ → List ℕ
  aes_encrypt iv payload key = iv ++ (prim.apply_keystream (prim.ctr_new key iv) payload).1

  unfoldable pub aes_decrypt : List ℕ → List ℕ → Result AesError (List ℕ)
  aes_decrypt payload key = do
    guard (not (ltb (length payload) 16)) (too_short (length payload))
    iv ← ok_or (slice 0 16 payload) missing_iv
    ciphertext ← ok_or (tail_from 16 payload) missing_ciphertext
    ok (prim.apply_keystream (prim.ctr_new key iv) ciphertext).1

  -- With a stream cipher, decryption gives back what was encrypted under the same key, for every
  -- 16-byte IV.
  pub aes_decrypt-aes_encrypt :
      IsStreamCipher prim
      → (iv payload key : List ℕ) → length iv ≡ 16
      → aes_decrypt (aes_encrypt iv payload key) key ≡ ok payload
  unfolding aes_decrypt aes_encrypt
  aes_decrypt-aes_encrypt laws iv payload key h =
      let ct = (prim.apply_keystream (prim.ctr_new key iv) payload).1 in
      let whole = iv ++ ct in
      let n : length whole ≡ 16 + length ct = omega (arith, length-append iv ct) in
      let long : ltb (length whole) 16 ≡ false = le→ltb _ _ (omega (arith, n)) in
      let front : slice 0 16 whole ≡ some iv = slice-append [] iv ct 0 16 refl (omega arith) in
      let back : slice 16 (length whole) whole ≡ some ct =
        ap (slice 16 (length whole)) (ap (◌++◌ iv) (sym (append-nil ct)))
        ∙ slice-append iv ct [] 16 (length whole) (sym h) (omega (arith, n)) in
      rw (long, front, back) (ap ok (laws.cancels (prim.ctr_new key iv) payload))

  -- Data with no room for an IV is refused.
  pub aes_decrypt_short :
      (payload key : List ℕ)
      → length payload < 16
      → aes_decrypt payload key ≡ err (too_short (length payload))
  unfolding aes_decrypt
  aes_decrypt_short payload key h = rw (lt→ltb _ _ h)
