-- ===== src/Crypto/Digest.antt =====
-- services/common/src/crypto.rs: `RunningDigest`, a SHA-256 over all the cells of a direction.
use mini_tor.Prelude.{ℕ, List, [], ◌∷◌, Bool, Option, none, some, slice, bytes_eq}
use mini_tor.Protocol.Bytes.{be16}
use mini_tor.Crypto.{Primitives}

abbrev pub tag_from : Option (List ℕ) → List ℕ
tag_from none = 0 ∷ 0 ∷ 0 ∷ 0 ∷ []
tag_from (some tag) = tag

-- The first four bytes of a hash, or zeros.
abbrev pub tag_of : List ℕ → List ℕ
tag_of snapshot = tag_from (slice 0 4 snapshot)

module _ ⦃prim : Primitives⦄ where
  pub record RunningDigest : Type 0 where
    pub state : prim.Sha256

  unfoldable pub new : RunningDigest
  new = record { state = prim.sha_new }

  unfoldable pub update : RunningDigest → ℕ → ℕ → List ℕ → RunningDigest × List ℕ
  update d stream_id command payload =
      let s1 = prim.sha_update d.state (be16 stream_id) in
      let s2 = prim.sha_update s1 (command ∷ []) in
      let s3 = prim.sha_update s2 payload in (record { state = s3 }, tag_of (prim.sha_finalize s3))

  unfoldable pub verify : RunningDigest → ℕ → ℕ → List ℕ → List ℕ → RunningDigest × Bool
  verify d stream_id command payload expected =
      let (d', computed) = update d stream_id command payload in (d', bytes_eq computed expected)
