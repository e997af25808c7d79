-- ===== src/Tls/Tests.antt =====
-- Pinned certificates at concrete inputs.
use mini_tor.Prelude.{ℕ, ◌≡◌, ◌↔◌, ◌+◌, refl, arith, List, [], ◌∷◌, length, ◌%◌, Option, some, ok}
use mini_tor.Types.{IpAddr, SocketAddr, v4}
use mini_tor.Types.Hex.{to_hex}
use mini_tor.Crypto.{Primitives}
use mini_tor.Crypto.Tests.{toy}
use mini_tor.Tls.{
  HexCrate, RelayTlsConfig, Rustls, generate, connect, sha256, compute_cert_fingerprint,
}
use mini_tor.Tls.Pinned.{IsLowercaseHex, HashesToBytes, connect-generate}

-- A hash of two bytes: the length of what was hashed, in the first.
abbrev prim : Primitives
prim = record toy {
  Sha256 = ℕ;
  sha_new = 0;
  sha_update = λ (s : ℕ) (d : List ℕ). s + length d;
  sha_finalize = λ (s : ℕ). (s % 256) ∷ 7 ∷ [];
}

abbrev hex : HexCrate
hex = record { encode = to_hex }

hashes : HashesToBytes prim
hashes = record { bytes = λ (s : ℕ). (omega arith, (omega arith, tt)) }

lower : IsLowercaseHex hex
lower = record { encodes = λ bs all. refl }

abbrev sign : List ℕ → IpAddr → Option (List ℕ)
sign node_id ip = some (1 ∷ 2 ∷ node_id)

-- A server that shows the certificate of the relay 9.
abbrev rustls : Rustls
rustls = record {
  Tcp = Unit;
  TlsStream = ℕ;
  tcp_connect = λ (a : SocketAddr). some tt;
  presented = λ (ip : IpAddr) (t : Unit {0}). 1 ∷ 2 ∷ 9 ∷ [];
  finish = λ (ip : IpAddr) (t : Unit {0}). some 5;
}

abbrev address : SocketAddr
address = record { ip = v4 (10 ∷ 0 ∷ 0 ∷ 9 ∷ []); port = 9001 }

abbrev config : RelayTlsConfig
config = record {
  fingerprint = compute_cert_fingerprint ⦃prim = prim⦄ ⦃hex = hex⦄ (1 ∷ 2 ∷ 9 ∷ []);
  certificate = 1 ∷ 2 ∷ 9 ∷ [];
}

generated : generate ⦃prim = prim⦄ ⦃hex = hex⦄ sign (9 ∷ []) address ≡ ok config
unfolding generate
generated = refl

connect-generate_example :
    (connect ⦃prim = prim⦄ ⦃hex = hex⦄ rustls address config.fingerprint ≡ ok 5) ↔ (
      (tcp : Unit {0}) × (◌≡◌ {A = Option (Unit {0})} (some tt) (some tcp))
      × (sha256 ⦃prim = prim⦄ (1 ∷ 2 ∷ 9 ∷ []) ≡ sha256 ⦃prim = prim⦄ (1 ∷ 2 ∷ 9 ∷ []))
      × (◌≡◌ {A = Option ℕ} (some 5) (some 5)))
connect-generate_example =
    connect-generate ⦃prim = prim⦄ ⦃hex = hex⦄ hashes lower rustls address address sign (9 ∷ [])
      config 5 generated
