-- ===== src/Onion/Rows.antt =====
-- Rows of keystreams, as the client's layers (crypto_engine.rs) and the relays' use them.
use mini_tor.Prelude.{ℕ, ◌≡◌, refl, ap, List, [], ◌∷◌, ◌++◌}
use mini_tor.Crypto.{Primitives}
use mini_tor.Crypto.Cipher.{CipherPair, apply_forward, apply_backward}
use mini_tor.Client.Engine.{encrypt_layers, decrypt_layers}
use mini_tor.Onion.{peel, wrap, forwards, backwards}

module _ ⦃prim : Primitives⦄ where
  -- The exit's keystream is the last of the row.
  pub peel-append :
      (front : List CipherPair) (last : CipherPair) (p : List ℕ)
      → peel (front ++ last ∷ []) p ≡ (
        (peel front p).0 ++ (apply_forward last (peel front p).1).0 ∷ [],
        (apply_forward last (peel front p).1).1,
      )
  unfolding peel
  peel-append [] last p = refl
  peel-append (h ∷ hs) last p =
      ap (λ (r : List CipherPair × List ℕ). ((apply_forward h p).0 ∷ r.0, r.1))
        (peel-append hs last (apply_forward h p).1)

  pub wrap-append :
      (front : List CipherPair) (last : CipherPair) (p : List ℕ)
      → wrap (front ++ last ∷ []) p ≡ (
        (wrap front (apply_backward last p).1).0 ++ (apply_backward last p).0 ∷ [],
        (wrap front (apply_backward last p).1).1,
      )
  unfolding wrap
  wrap-append [] last p = refl
  wrap-append (h ∷ hs) last p =
      ap
        (λ (r : List CipherPair × List ℕ).
          ((apply_backward h r.1).0 ∷ r.0, (apply_backward h r.1).1))
        (wrap-append hs last p)

  -- A direction leaves the keystreams of the other alone.
  pub backwards-encrypt :
      (keys : List CipherPair) (p : List ℕ) → backwards (encrypt_layers keys p).0 ≡ backwards keys
  unfolding encrypt_layers apply_forward
  backwards-encrypt [] p = refl
  backwards-encrypt (k ∷ ks) p = ap (λ (t : List prim.Ctr). k.backward ∷ t) (backwards-encrypt ks p)

  pub backwards-peel :
      (row : List CipherPair) (p : List ℕ) → backwards (peel row p).0 ≡ backwards row
  unfolding peel apply_forward
  backwards-peel [] p = refl
  backwards-peel (h ∷ hs) p =
      ap (λ (t : List prim.Ctr). h.backward ∷ t) (backwards-peel hs (apply_forward h p).1)

  pub forwards-wrap : (row : List CipherPair) (p : List ℕ) → forwards (wrap row p).0 ≡ forwards row
  unfolding wrap apply_backward
  forwards-wrap [] p = refl
  forwards-wrap (h ∷ hs) p = ap (λ (t : List prim.Ctr). h.forward ∷ t) (forwards-wrap hs p)

  pub forwards-decrypt :
      (keys : List CipherPair) (p : List ℕ) → forwards (decrypt_layers keys p).0 ≡ forwards keys
  unfolding decrypt_layers apply_backward
  forwards-decrypt [] p = refl
  forwards-decrypt (k ∷ ks) p =
      ap (λ (t : List prim.Ctr). k.forward ∷ t) (forwards-decrypt ks (apply_backward k p).1)

  pub forwards-append :
      (a : List CipherPair) (l : CipherPair) → forwards (a ++ l ∷ []) ≡ forwards a ++ l.forward ∷ []
  forwards-append [] l = refl
  forwards-append (x ∷ xs) l = ap (λ (t : List prim.Ctr). x.forward ∷ t) (forwards-append xs l)

  pub backwards-append :
      (a : List CipherPair) (l : CipherPair)
      → backwards (a ++ l ∷ []) ≡ backwards a ++ l.backward ∷ []
  backwards-append [] l = refl
  backwards-append (x ∷ xs) l = ap (λ (t : List prim.Ctr). x.backward ∷ t) (backwards-append xs l)
