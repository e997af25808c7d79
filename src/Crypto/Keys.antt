-- ===== src/Crypto/Keys.antt =====
-- services/common/src/crypto.rs: `SessionKey`, two AES-128 keys.
use mini_tor.Prelude.{
  ℕ, ◌-◌, ◌≡◌, refl, sym, ap, ◌∙◌, List, [], ◌++◌, arith, length, take, drop, replicate,
  write_slice, write_slice-append, append-nil, take_of_le, take-append, drop-append,
}

pub record SessionKey : Type 0 where
  pub forward : List ℕ
  pub backward : List ℕ

-- `copy_from_slice(&bytes[lo..hi])` into an array of as many bytes.
abbrev pub array : ℕ → ℕ → List ℕ → List ℕ
array lo hi bytes = take (hi - lo) (drop lo bytes)

unfoldable pub from_shared : List ℕ → SessionKey
from_shared shared = record { forward = array 0 16 shared; backward = array 16 32 shared }

unfoldable pub from_bytes : List ℕ → SessionKey
from_bytes bytes = record { forward = array 0 16 bytes; backward = array 16 32 bytes }

unfoldable pub to_bytes : SessionKey → List ℕ
to_bytes k = write_slice 16 32 k.backward (write_slice 0 16 k.forward (replicate 32 0))

unfoldable pub derive_session_key : List ℕ → SessionKey
unfolding from_shared
derive_session_key shared_secret = from_shared shared_secret

module _ (k : SessionKey) (f16 : length k.forward ≡ 16) (b16 : length k.backward ≡ 16) where
  to_bytes_lem : to_bytes k ≡ k.forward ++ k.backward
  unfolding to_bytes
  to_bytes_lem =
      let z = replicate {A = ℕ} 16 0 in
      let first : write_slice 0 16 k.forward (replicate 32 0) ≡ k.forward ++ (z ++ []) =
        unfold replicate in
        write_slice-append [] z z k.forward 0 16 refl refl
        ∙ ap (◌++◌ k.forward) (sym (append-nil z)) in
      rw first (
        write_slice-append k.forward z [] k.backward 16 32 (sym f16)
          (unfold replicate in omega arith)
        ∙ ap (◌++◌ k.forward) (append-nil k.backward))

  -- A key of two 16-byte halves survives its conversion to 32 bytes and back.
  pub key_from_bytes-to_bytes : from_bytes (to_bytes k) ≡ k
  unfolding from_bytes
  key_from_bytes-to_bytes = rw (
    to_bytes_lem,
    take-append k.forward k.backward 16 (sym f16),
    drop-append k.forward k.backward 16 (sym f16),
    take_of_le 16 k.backward (omega arith),
  )
