-- ===== src/Crypto/Agreement.antt =====
-- The two ends of the ntor handshake agree, and the client accepts no other AUTH tag.
use mini_tor.Prelude.{
  ℕ, ◌≡◌, ◌≢◌, List, ok, err, bytes_eq, bytes_eq_iff, bytes_eq_self, Bool-cases, inl, inr,
}
use mini_tor.Crypto.{Primitives}
use mini_tor.Crypto.Laws.{DhAgrees}
use mini_tor.Crypto.Ntor.{ntor_server, ntor_client_finish_raw, raw_dh_static, handshake_auth_failed}

module _ ⦃prim : Primitives⦄ (dh : DhAgrees prim) (x y b : List ℕ) where
  -- A client with ephemeral secret x that gets the answer of the relay with static secret b and
  -- ephemeral secret y accepts it, and derives the relay's session key, if X25519 agrees.
  pub client_finish-ntor_server :
      ntor_client_finish_raw x
        (prim.public_of x)
        (prim.public_of b)
        (ntor_server y b (prim.public_of b) (prim.public_of x)).0
        (ntor_server y b (prim.public_of b) (prim.public_of x)).1
      ≡ ok (ntor_server y b (prim.public_of b) (prim.public_of x)).2
  unfolding ntor_client_finish_raw ntor_server raw_dh_static
  client_finish-ntor_server = rw (dh.agree x y, dh.agree x b) (rw bytes_eq_self)

  -- A client that gets any other tag than the relay's refuses the handshake, if X25519 agrees.
  pub client_finish_tampered :
      (auth : List ℕ)
      → auth ≢ (ntor_server y b (prim.public_of b) (prim.public_of x)).1
      → ntor_client_finish_raw x
          (prim.public_of x)
          (prim.public_of b)
          (ntor_server y b (prim.public_of b) (prim.public_of x)).0
          auth
        ≡ err handshake_auth_failed
  unfolding ntor_client_finish_raw ntor_server raw_dh_static
  client_finish_tampered auth h =
      let sent = (ntor_server y b (prim.public_of b) (prim.public_of x)).1 in
      rw (dh.agree x y, dh.agree x b)
        (elim (Bool-cases (bytes_eq auth sent)) [
          | inl same ↦ absurd (h ((bytes_eq_iff auth sent).0 same))
          | inr other ↦ rw other
        ])
