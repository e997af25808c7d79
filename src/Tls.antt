-- ===== src/Tls.antt =====
-- services/common/src/tls.rs and services/tor-client/src/core/transport.rs: TLS connections that are
-- pinned to the fingerprint of a relay's certificate. The crates hex, rcgen and rustls are parameters;
-- texts are their bytes.
mod Pinned
pub mod Tests
use mini_tor.Prelude.{
  ℕ, ◌+◌, List, map, Bool, ◌&&◌, leb, Option, none, some, Result, ok, err, bytes_eq, if◌then◌else◌,
  ok_or, ◌>>=◌,
}
use mini_tor.Types.{IpAddr, SocketAddr}
use mini_tor.Crypto.{Primitives}

-- `eq_ignore_ascii_case` of std.
unfoldable pub to_ascii_lowercase : ℕ → ℕ
to_ascii_lowercase c = if leb 65 c && leb c 90 then c + 32 else c

unfoldable pub eq_ignore_ascii_case : List ℕ → List ℕ → Bool
eq_ignore_ascii_case a b = bytes_eq (map to_ascii_lowercase a) (map to_ascii_lowercase b)

pub data TlsError : Type 0 where
  fingerprint_mismatch : List ℕ → List ℕ → TlsError
  no_certificate no_connection : TlsError

-- The crate hex's `encode`.
pub record HexCrate : Type 0 where
  pub encode : List ℕ → List ℕ

pub record FingerprintVerifier : Type 0 where
  pub expected : List ℕ

-- The relay's configuration; rustls serves the certificate, which rcgen signs for a name and an address.
pub record RelayTlsConfig : Type 0 where
  pub fingerprint : List ℕ
  pub certificate : List ℕ

unfoldable pub make_tls_connector : List ℕ → FingerprintVerifier
make_tls_connector expected_fingerprint = record { expected = expected_fingerprint }

-- What a client of rustls does with a verifier: the server's certificate comes in the handshake.
pub record Rustls : Type 1 where
  pub Tcp : Type 0
  pub TlsStream : Type 0
  pub tcp_connect : SocketAddr → Option Tcp
  pub presented : IpAddr → Tcp → List ℕ
  pub finish : IpAddr → Tcp → Option TlsStream

-- Signatures of the handshake are taken as they come.
unfoldable pub verify_tls12_signature :
    FingerprintVerifier → List ℕ → List ℕ → List ℕ → Result TlsError (Unit {0})
verify_tls12_signature v message cert dss = ok tt

unfoldable pub verify_tls13_signature :
    FingerprintVerifier → List ℕ → List ℕ → List ℕ → Result TlsError (Unit {0})
verify_tls13_signature v message cert dss = ok tt

module _ ⦃prim : Primitives⦄ where
  unfoldable pub sha256 : List ℕ → List ℕ
  sha256 d = prim.sha_finalize (prim.sha_update prim.sha_new d)

module _ ⦃prim : Primitives⦄ ⦃hex : HexCrate⦄ where
  unfoldable pub compute_cert_fingerprint : List ℕ → List ℕ
  compute_cert_fingerprint cert_der = hex.encode (sha256 cert_der)

  unfoldable pub verify_server_cert : FingerprintVerifier → List ℕ → Result TlsError (Unit {0})
  verify_server_cert v end_entity =
      let actual = compute_cert_fingerprint end_entity in
      if eq_ignore_ascii_case actual v.expected
      then ok tt
      else err (fingerprint_mismatch v.expected actual)

  unfoldable pub generate :
      (List ℕ → IpAddr → Option (List ℕ)) → List ℕ → SocketAddr → Result TlsError RelayTlsConfig
  generate self_signed node_id bind_addr =
      ok_or (self_signed node_id bind_addr.ip) no_certificate >>= λ cert_der.
      ok (record { fingerprint = compute_cert_fingerprint cert_der; certificate = cert_der })

  module _ (rustls : Rustls) where
    abbrev verified :
        Result TlsError (Unit {0}) → Option rustls.TlsStream → Result TlsError rustls.TlsStream
    verified (err e) stream = err e
    verified (ok _) stream = ok_or stream no_connection

    -- `TcpTlsTransport::connect`
    unfoldable pub connect : SocketAddr → List ℕ → Result TlsError rustls.TlsStream
    connect addr tls_fingerprint = ok_or (rustls.tcp_connect addr) no_connection >>= λ tcp.
        let connector = make_tls_connector tls_fingerprint in
        verified (verify_server_cert connector (rustls.presented addr.ip tcp))
          (rustls.finish addr.ip tcp)
