-- ===== src/Crypto/Ntor.antt =====
-- services/common/src/crypto.rs: the ntor handshake, and relay-node/src/core/keypair.rs.
use mini_tor.Prelude.{
  ℕ, List, ◌++◌, none, some, Result, ok, err, replicate, bytes_eq, bytes_of, if◌then◌else◌,
}
use mini_tor.Crypto.{Primitives}
use mini_tor.Crypto.Keys.{SessionKey, array}

abbrev protoid : List ℕ
protoid = bytes_of "ntor-curve25519-sha256-1"

unfoldable pub t_key : List ℕ
t_key = protoid ++ bytes_of ":key_extract"

unfoldable pub t_verify : List ℕ
t_verify = protoid ++ bytes_of ":verify"

unfoldable pub t_mac : List ℕ
t_mac = protoid ++ bytes_of ":mac"

unfoldable pub m_expand : List ℕ
m_expand = protoid ++ bytes_of ":key_expand"

unfoldable pub build_secret_input : List ℕ → List ℕ → List ℕ → List ℕ → List ℕ → List ℕ
build_secret_input exp1 exp2 server_static_pub client_ephemeral_pub server_ephemeral_pub =
    exp1
    ++ (exp2 ++ (server_static_pub ++ (client_ephemeral_pub ++ (server_ephemeral_pub ++ protoid))))

-- The input of the AUTH tag; the server and the client write the same six parts.
unfoldable pub auth_input : List ℕ → List ℕ → List ℕ → List ℕ → List ℕ
auth_input verify server_static_pub server_ephemeral_pub client_ephemeral_pub =
    verify
    ++ (server_static_pub
        ++ (server_ephemeral_pub ++ (client_ephemeral_pub ++ (protoid ++ bytes_of "Server"))))

pub data HandshakeError : Type 0 where
  handshake_auth_failed : HandshakeError

module _ ⦃prim : Primitives⦄ where
  -- the tag, or zeros where the crate refuses the key
  unfoldable pub hmac_sha256 : List ℕ → List ℕ → List ℕ
  hmac_sha256 key message = elim (prim.hmac key message) [ none ↦ replicate 32 0 | some out ↦ out ]

  unfoldable pub raw_dh_static : List ℕ → List ℕ → List ℕ
  raw_dh_static secret_bytes their_public = prim.raw_diffie_hellman secret_bytes their_public

  unfoldable pub expand_key_seed : List ℕ → SessionKey
  expand_key_seed key_seed =
      let key_material = hmac_sha256 m_expand key_seed in
      record { forward = array 0 16 key_material; backward = array 16 32 key_material }

  -- `y_secret` is the ephemeral secret that the random generator draws. The result is the
  -- ephemeral public key, the AUTH tag and the session key.
  unfoldable pub ntor_server : List ℕ → List ℕ → List ℕ → List ℕ → List ℕ × List ℕ × SessionKey
  ntor_server y_secret static_secret static_public client_ephemeral_pub =
      let y_public = prim.public_of y_secret in
      let exp1 = raw_dh_static y_secret client_ephemeral_pub in
      let exp2 = raw_dh_static static_secret client_ephemeral_pub in
      let secret_input = build_secret_input exp1 exp2 static_public client_ephemeral_pub y_public in
      let key_seed = hmac_sha256 t_key secret_input in
      let verify = hmac_sha256 t_verify secret_input in
      let auth =
        hmac_sha256 t_mac (auth_input verify static_public y_public client_ephemeral_pub) in
      (y_public, auth, expand_key_seed key_seed)

  unfoldable pub ntor_client_finish_raw :
      List ℕ → List ℕ → List ℕ → List ℕ → List ℕ → Result HandshakeError SessionKey
  ntor_client_finish_raw client_ephemeral_secret client_ephemeral_pub server_static_pub
        server_ephemeral_pub auth =
      let exp1 = raw_dh_static client_ephemeral_secret server_ephemeral_pub in
      let exp2 = raw_dh_static client_ephemeral_secret server_static_pub in
      let secret_input =
        build_secret_input exp1 exp2 server_static_pub client_ephemeral_pub server_ephemeral_pub in
      let key_seed = hmac_sha256 t_key secret_input in
      let verify = hmac_sha256 t_verify secret_input in
      let expected_auth =
        hmac_sha256 t_mac
          (auth_input verify server_static_pub server_ephemeral_pub client_ephemeral_pub) in
      if bytes_eq auth expected_auth
      then ok (expand_key_seed key_seed)
      else err handshake_auth_failed

  -- An ephemeral or a relay's key pair: the secret bytes and the public key made from them.
  pub record KeyPair : Type 0 where
    pub public : List ℕ
    pub secret_bytes : List ℕ

  unfoldable pub from_secret_bytes : List ℕ → KeyPair
  from_secret_bytes bytes = record { public = prim.public_of bytes; secret_bytes = bytes }

  unfoldable pub ntor_server_handshake : KeyPair → List ℕ → List ℕ → List ℕ × List ℕ × SessionKey
  ntor_server_handshake kp y_secret client_ephemeral_pub =
      ntor_server y_secret kp.secret_bytes kp.public client_ephemeral_pub
