-- ===== src/Onion/Extending.antt =====
-- The EXTEND payload between the client that writes it (tor-client/src/core/circuit.rs) and the relay
-- that reads it (relay-node/src/circuit/entry.rs, middle.rs).
use mini_tor.Prelude.{
  ℕ, zero, suc, ◌+◌, ◌≡◌, refl, sym, ap, ◌∙◌, List, [], ◌∷◌, ◌++◌, append_assoc, length,
  length-append, drop-append, get_elem?, slice, slice-append, true, false, none, some, ok, arith,
  ltb, leb, le→ltb, le→leb,
}
use mini_tor.Net.{Net}
use mini_tor.Types.{SocketAddr, NodeDescriptor}
use mini_tor.Relay.Extend.{position_zero, tail_from, parse_extend}
use mini_tor.Client.Builder.{extend_payload}

-- What std documents of the text of a socket address: it is text, it has no zero byte, and it parses
-- back.
pub record PrintsAddresses (net : Net) : Type 0 where
  pub printed_utf8 : (a : SocketAddr) → net.is_utf8 (net.show_addr a) ≡ true
  pub printed_no_zero : (a : SocketAddr) → position_zero (net.show_addr a) ≡ none
  pub parses_back : (a : SocketAddr) → net.parse_addr (net.show_addr a) ≡ some a

position_zero-append :
    (xs rest : List ℕ) → position_zero xs ≡ none → position_zero (xs ++ 0 ∷ rest) ≡ some (length xs)
unfolding position_zero
position_zero-append [] rest h = refl
position_zero-append (x ∷ xs) rest h = ground (arith, position_zero-append xs rest)

get_elem?-append :
    (pre rest : List ℕ) (b n : ℕ) → n ≡ length pre → get_elem? (pre ++ b ∷ rest) n ≡ some b
get_elem?-append [] rest b zero e = refl
get_elem?-append [] rest b (suc n) e = absurd (omega arith)
get_elem?-append (x ∷ pre) rest b zero e = absurd (omega arith)
get_elem?-append (x ∷ pre) rest b (suc n) e = get_elem?-append pre rest b n (omega arith)

tail_from-append :
    (pre rest : List ℕ) (n : ℕ) → n ≡ length pre → tail_from n (pre ++ rest) ≡ some rest
unfolding tail_from
tail_from-append pre rest n e =
    let room : leb n (length (pre ++ rest)) ≡ true =
      le→leb _ _ (omega (arith, length-append pre rest)) in
    rw (room, drop-append pre rest n e)

module _ ⦃net : Net⦄ where
  -- A relay reads from the payload that the client writes the node's address, the client's ephemeral
  -- key and the node's fingerprint, for a key of 32 bytes and a fingerprint that is UTF-8.
  pub parse_extend-extend_payload :
      PrintsAddresses net
      → (node : NodeDescriptor) (our_public : List ℕ) → length our_public ≡ 32
      → net.is_utf8 node.tls_cert_fingerprint ≡ true
      → parse_extend (extend_payload node our_public)
        ≡ ok (record {
          address = node.address;
          client_public = our_public;
          fingerprint = node.tls_cert_fingerprint;
        })
  unfolding parse_extend extend_payload
  parse_extend-extend_payload laws node key key32 utf8 =
      let a = net.show_addr node.address in
      let fp = node.tls_cert_fingerprint in
      let z : List ℕ = 0 ∷ [] in
      let whole = a ++ (0 ∷ (key ++ (0 ∷ fp))) in
      let n : length whole ≡ length a + 34 + length fp =
        omega (arith, length-append a (0 ∷ (key ++ (0 ∷ fp))), length-append key (0 ∷ fp)) in
      let k1 = length a + 1 in
      let k2 = length a + 1 + 32 in
      let pre1 : length (a ++ z) ≡ k1 = length-append a z in
      let pre2 : length ((a ++ z) ++ key) ≡ k2 = omega (arith, length-append (a ++ z) key, pre1) in
      let split1 : whole ≡ (a ++ z) ++ (key ++ (0 ∷ fp)) =
        sym (append_assoc a z (key ++ (0 ∷ fp))) in
      let split2 : whole ≡ ((a ++ z) ++ key) ++ (0 ∷ fp) =
        split1 ∙ sym (append_assoc (a ++ z) key (0 ∷ fp)) in
      let split3 : whole ≡ (((a ++ z) ++ key) ++ z) ++ fp =
        split2 ∙ sym (append_assoc ((a ++ z) ++ key) z fp) in
      let long1 : ltb (length whole) 33 ≡ false = le→ltb _ _ (omega (arith, n)) in
      let long2 : ltb (length whole) k2 ≡ false = le→ltb _ _ (omega (arith, n)) in
      let addr_part = slice-append [] a (0 ∷ (key ++ (0 ∷ fp))) 0 (length a) refl (omega arith) in
      let key_part : slice k1 k2 whole ≡ some key =
        ap (slice k1 k2) split1
        ∙ slice-append (a ++ z) key (0 ∷ fp) k1 k2 (sym pre1) (omega (arith, pre1)) in
      let sep : get_elem? whole k2 ≡ some 0 =
        ap (λ (l : List ℕ). get_elem? l k2) split2
        ∙ get_elem?-append ((a ++ z) ++ key) fp 0 k2 (sym pre2) in
      let pre3 : k2 + 1 ≡ length (((a ++ z) ++ key) ++ z) =
        omega (arith, length-append ((a ++ z) ++ key) z, pre2) in
      let fp_part : tail_from (k2 + 1) whole ≡ some fp =
        ap (tail_from (k2 + 1)) split3
        ∙ tail_from-append (((a ++ z) ++ key) ++ z) fp (k2 + 1) pre3 in
      rw (
        long1,
        position_zero-append a (key ++ (0 ∷ fp)) (laws.printed_no_zero node.address),
        addr_part,
        laws.printed_utf8 node.address,
        long2,
        key_part,
        sep,
        fp_part,
        utf8,
        laws.parses_back node.address,
      )
