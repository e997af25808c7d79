-- ===== src/Tls/Pinned.antt =====
-- What the fingerprint verifier of services/common/src/tls.rs lets through.
use mini_tor.Prelude.{
  ℕ, ◌≡◌, ◌↔◌, refl, sym, ap, ◌∙◌, List, [], ◌∷◌, map, true, Option, some, ok, err, bytes_eq_iff,
  bytes_eq_self, Bool-cases, inl, inr, Option-cases, Result-cases, arith, ◌==◌, subst,
}
use mini_tor.Types.{IpAddr, SocketAddr}
use mini_tor.Types.Hex.{to_hex, hex_pairs, from_str_radix, to_digit, AllBytes, hex_pairs-to_hex}
use mini_tor.Crypto.{Primitives}
use mini_tor.Tls.{
  to_ascii_lowercase, eq_ignore_ascii_case, fingerprint_mismatch, HexCrate, sha256,
  compute_cert_fingerprint, verify_server_cert, RelayTlsConfig, generate, make_tls_connector,
  Rustls, connect, no_connection, no_certificate,
}

-- The crate's documentation: two lowercase hexadecimal digits for each byte.
pub record IsLowercaseHex (hex : HexCrate) : Type 0 where
  pub encodes : (bs : List ℕ) → AllBytes bs → hex.encode bs ≡ to_hex bs

-- A hash is made of bytes.
pub record HashesToBytes (prim : Primitives) : Type 0 where
  pub bytes : (s : prim.Sha256) → AllBytes (prim.sha_finalize s)

to_digit_lowercase : (c : ℕ) → to_digit (to_ascii_lowercase c) ≡ to_digit c
unfolding to_digit to_ascii_lowercase
to_digit_lowercase c = ground arith

plus_lowercase : (c : ℕ) → (to_ascii_lowercase c == 43) ≡ (c == 43)
unfolding to_ascii_lowercase
plus_lowercase c = ground arith

-- A digit reads the same in either case.
from_str_radix_lowercase :
    (c d : ℕ) → from_str_radix (to_ascii_lowercase c) (to_ascii_lowercase d) ≡ from_str_radix c d
unfolding from_str_radix
from_str_radix_lowercase c d =
    rw (plus_lowercase c, to_digit_lowercase c, to_digit_lowercase d) refl

hex_pairs_lowercase : (s : List ℕ) → hex_pairs (map to_ascii_lowercase s) ≡ hex_pairs s
unfolding hex_pairs
hex_pairs_lowercase [] = refl
hex_pairs_lowercase (c ∷ []) = refl
hex_pairs_lowercase (c ∷ d ∷ rest) =
    rw (from_str_radix_lowercase c d, hex_pairs_lowercase rest) refl

-- Texts of bytes that differ at most in case are texts of the same bytes.
to_hex_injective :
    (a b : List ℕ)
    → AllBytes a
    → AllBytes b
    → eq_ignore_ascii_case (to_hex a) (to_hex b) ≡ true
    → a ≡ b
unfolding eq_ignore_ascii_case
to_hex_injective a b a_bytes b_bytes alike =
    let lower : map to_ascii_lowercase (to_hex a) ≡ map to_ascii_lowercase (to_hex b) =
      (bytes_eq_iff (map to_ascii_lowercase (to_hex a)) (map to_ascii_lowercase (to_hex b))).0
        alike in
    let read : hex_pairs (to_hex a) ≡ hex_pairs (to_hex b) =
      sym (hex_pairs_lowercase (to_hex a))
      ∙ (ap hex_pairs lower ∙ hex_pairs_lowercase (to_hex b)) in
    let left = hex_pairs-to_hex a a_bytes in let right = hex_pairs-to_hex b b_bytes in cc

eq_ignore_ascii_case_self : (a : List ℕ) → eq_ignore_ascii_case a a ≡ true
unfolding eq_ignore_ascii_case
eq_ignore_ascii_case_self a = bytes_eq_self (map to_ascii_lowercase a)

module _ ⦃prim : Primitives⦄ ⦃hex : HexCrate⦄ (hashes : HashesToBytes prim)
    (lower : IsLowercaseHex hex) where
  sha256-AllBytes : (d : List ℕ) → AllBytes (sha256 d)
  unfolding sha256
  sha256-AllBytes d = hashes.bytes (prim.sha_update prim.sha_new d)

  -- The verifier that is made from the fingerprint of one certificate lets another through exactly when
  -- the two have the same hash.
  verify_server_cert_iff :
      (own shown : List ℕ)
      → (verify_server_cert (make_tls_connector (compute_cert_fingerprint own)) shown ≡ ok tt)
        ↔ (sha256 shown ≡ sha256 own)
  unfolding verify_server_cert make_tls_connector compute_cert_fingerprint
  verify_server_cert_iff own shown =
      let own_bytes : AllBytes (sha256 own) = sha256-AllBytes own in
      let shown_bytes : AllBytes (sha256 shown) = sha256-AllBytes shown in
      let own_text = lower.encodes (sha256 own) own_bytes in
      let shown_text = lower.encodes (sha256 shown) shown_bytes in
      (
        λ passed.
            elim (Bool-cases (eq_ignore_ascii_case (to_hex (sha256 shown)) (to_hex (sha256 own)))) [
              | inl alike ↦ to_hex_injective (sha256 shown) (sha256 own) shown_bytes own_bytes alike
              | inr differs ↦
                  let refused : verify_server_cert
                        (make_tls_connector (compute_cert_fingerprint own)) shown
                      ≡ err (
                          fingerprint_mismatch (hex.encode (sha256 own))
                            (hex.encode (sha256 shown))) =
                    rw (shown_text, own_text, differs) refl in
                  cc
            ],
        λ same. rw (ap hex.encode same, eq_ignore_ascii_case_self (hex.encode (sha256 own))) refl,
      )

  generate-fingerprint :
      (self_signed : List ℕ → IpAddr → Option (List ℕ)) (node_id : List ℕ) (addr : SocketAddr)
      (cfg : RelayTlsConfig)
      → generate self_signed node_id addr ≡ ok cfg
      → cfg.fingerprint ≡ compute_cert_fingerprint cfg.certificate
  unfolding generate
  generate-fingerprint self_signed node_id addr cfg made =
      elim (Option-cases (self_signed node_id addr.ip)) [
        | inl refused ↦
            let failed : generate self_signed node_id addr ≡ err no_certificate = rw refused refl in
            cc
        | inr (der, signed) ↦
            let c : RelayTlsConfig = record {
              fingerprint = compute_cert_fingerprint der;
              certificate = der;
            } in
            let done : generate self_signed node_id addr ≡ ok c = rw signed refl in
            let same : c ≡ cfg = cc in
            subst (λ (x : RelayTlsConfig). x.fingerprint ≡ compute_cert_fingerprint x.certificate)
              same refl
      ]

  module _ (rustls : Rustls) (addr : SocketAddr) (own : List ℕ) where
    abbrev Connected : rustls.TlsStream → Type 0
    Connected stream =
        (tcp : rustls.Tcp) × (rustls.tcp_connect addr ≡ some tcp)
        × (sha256 (rustls.presented addr.ip tcp) ≡ sha256 own)
        × (rustls.finish addr.ip tcp ≡ some stream)

    connect→Connected :
        (stream : rustls.TlsStream)
        → connect rustls addr (compute_cert_fingerprint own) ≡ ok stream
        → Connected stream
    unfolding connect
    connect→Connected stream done = elim (Option-cases (rustls.tcp_connect addr)) [
      | inl refused ↦
          let failed : connect rustls addr (compute_cert_fingerprint own) ≡ err no_connection =
            rw refused refl in
          cc
      | inr (tcp, open_) ↦
          let connector = make_tls_connector (compute_cert_fingerprint own) in
          let shown = rustls.presented addr.ip tcp in
          elim (Result-cases (verify_server_cert connector shown)) [
            | inr (e, unverified) ↦
                let failed : connect rustls addr (compute_cert_fingerprint own) ≡ err e =
                  rw (open_, unverified) refl in
                cc
            | inl (u, verified_) ↦ elim (Option-cases (rustls.finish addr.ip tcp)) [
              | inl broken ↦
                  let failed : connect rustls addr (compute_cert_fingerprint own)
                      ≡ err no_connection =
                    rw (open_, verified_, broken) refl in
                  cc
              | inr (s, finished) ↦
                  let made : connect rustls addr (compute_cert_fingerprint own) ≡ ok s =
                    rw (open_, verified_, finished) refl in
                  let same : s ≡ stream = cc in
                  (
                    tcp,
                    open_,
                    (verify_server_cert_iff own shown).0 verified_,
                    finished ∙ ap (λ (x : rustls.TlsStream). some x) same,
                  )
            ]
          ]
    ]

    Connected→connect :
        (stream : rustls.TlsStream)
        → Connected stream
        → connect rustls addr (compute_cert_fingerprint own) ≡ ok stream
    unfolding connect
    Connected→connect stream (tcp, open_, same, finished) =
        let shown = rustls.presented addr.ip tcp in
        let passed = (verify_server_cert_iff own shown).1 same in rw (open_, passed, finished) refl

  -- A client that connects with the fingerprint of a relay's configuration gets a stream exactly when
  -- TCP connects, the certificate that is shown there has the hash of the relay's certificate, and the
  -- rest of the handshake succeeds; for a hash made of bytes and lowercase hexadecimal digits.
  pub connect-generate :
      (rustls : Rustls) (addr bind_addr : SocketAddr)
      (self_signed : List ℕ → IpAddr → Option (List ℕ)) (node_id : List ℕ) (cfg : RelayTlsConfig)
      (stream : rustls.TlsStream)
      → generate self_signed node_id bind_addr ≡ ok cfg
      → (connect rustls addr cfg.fingerprint ≡ ok stream) ↔ (
          (tcp : rustls.Tcp) × (rustls.tcp_connect addr ≡ some tcp)
          × (sha256 (rustls.presented addr.ip tcp) ≡ sha256 cfg.certificate)
          × (rustls.finish addr.ip tcp ≡ some stream))
  connect-generate rustls addr bind_addr self_signed node_id cfg stream made =
      rw (generate-fingerprint self_signed node_id bind_addr cfg made) (
        connect→Connected rustls addr cfg.certificate stream,
        Connected→connect rustls addr cfg.certificate stream,
      )
