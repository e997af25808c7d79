-- ===== src/Crypto/Tests.antt =====
-- A concrete cipher, hash and key exchange, to run the model on. The keystream at position n swaps
-- the even number 2k with 2k + 1.
use mini_tor.Prelude.{
  ℕ, zero, suc, ◌+◌, ◌≡◌, ◌≢◌, refl, ap, ap₂, List, [], ◌∷◌, ◌++◌, length, replicate, some, ok, err,
  take, length-take, length-append, append_assoc,
}
use mini_tor.Prelude.{arith}
use mini_tor.Crypto.{Primitives}
use mini_tor.Crypto.Keys.{SessionKey}
use mini_tor.Crypto.Ntor.{
  ntor_server, ntor_client_finish_raw, hmac_sha256, auth_input, build_secret_input, raw_dh_static,
  t_mac, t_key, t_verify, handshake_auth_failed,
}
use mini_tor.Crypto.Agreement.{client_finish-ntor_server, client_finish_tampered}
use mini_tor.Crypto.Laws.{IsStreamCipher, IsHash, DhAgrees}

abbrev swap : ℕ → ℕ
swap zero = 1
swap (suc zero) = 0
swap (suc (suc n)) = suc (suc (swap n))

swap-swap : (n : ℕ) → swap (swap n) ≡ n
swap-swap zero = refl
swap-swap (suc zero) = refl
swap-swap (suc (suc n)) = ap (λ (m : ℕ). suc (suc m)) (swap-swap n)

-- Bytes at even positions are swapped, those at odd positions stay.
abbrev toy_byte : ℕ → ℕ → ℕ
toy_byte zero b = swap b
toy_byte (suc zero) b = b
toy_byte (suc (suc n)) b = toy_byte n b

toy_byte_twice : (n b : ℕ) → toy_byte n (toy_byte n b) ≡ b
toy_byte_twice zero b = swap-swap b
toy_byte_twice (suc zero) b = refl
toy_byte_twice (suc (suc n)) b = toy_byte_twice n b

abbrev toy_stream : ℕ → List ℕ → ℕ × List ℕ
toy_stream n [] = (n, [])
toy_stream n (b ∷ bs) = ((toy_stream (suc n) bs).0, toy_byte n b ∷ (toy_stream (suc n) bs).1)

toy_stream_cancels : (n : ℕ) (d : List ℕ) → (toy_stream n (toy_stream n d).1).1 ≡ d
toy_stream_cancels n [] = refl
toy_stream_cancels n (b ∷ bs) =
    ap₂ (λ (x : ℕ) (xs : List ℕ). x ∷ xs) (toy_byte_twice n b) (toy_stream_cancels (suc n) bs)

length-toy_stream : (n : ℕ) (d : List ℕ) → length (toy_stream n d).1 ≡ length d
length-toy_stream n [] = refl
length-toy_stream n (b ∷ bs) = ap suc (length-toy_stream (suc n) bs)

toy_stream_moves :
    (n : ℕ) (d e : List ℕ) → length d ≡ length e → (toy_stream n d).0 ≡ (toy_stream n e).0
toy_stream_moves n [] [] same = refl
toy_stream_moves n [] (b ∷ bs) same = cc
toy_stream_moves n (b ∷ bs) [] same = cc
toy_stream_moves n (b ∷ bs) (c ∷ cs) same = toy_stream_moves (suc n) bs cs (cc)

-- The shared secret of two keys: as many ones as both are long.
abbrev toy_dh : List ℕ → List ℕ → List ℕ
toy_dh a b = replicate (length a + length b) 1

abbrev pub toy : Primitives
toy = record {
  Ctr = ℕ;
  ctr_new = λ (key iv : List ℕ). length key;
  apply_keystream = toy_stream;
  Sha256 = List ℕ;
  sha_new = [];
  sha_update = λ (s d : List ℕ). s ++ d;
  sha_finalize = λ (s : List ℕ). take 32 (s ++ replicate 32 7);
  hmac = λ (key msg : List ℕ). some (msg ++ replicate 32 5);
  public_of = λ (s : List ℕ). s;
  raw_diffie_hellman = toy_dh;
}

pub toy-IsHash : IsHash toy
unfolding replicate
toy-IsHash = record {
  appends = append_assoc;
  has_32_bytes = λ s.
      let filler : List ℕ = replicate 32 7 in
      let long : length filler ≡ 32 = refl in
      omega (arith, length-take 32 (s ++ filler), length-append s filler, long);
}

pub toy-IsStreamCipher : IsStreamCipher toy
toy-IsStreamCipher = record {
  cancels = toy_stream_cancels;
  keeps_length = length-toy_stream;
  moves_by_length = toy_stream_moves;
}

pub toy-DhAgrees : DhAgrees toy
toy-DhAgrees = record { agree = λ (a b : List ℕ). ap (λ (n : ℕ). replicate n 1) (omega arith) }

-- An ephemeral secret of the client, one of the relay, and the relay's static secret.
abbrev x_secret : List ℕ
x_secret = 3 ∷ 1 ∷ []

abbrev y_secret : List ℕ
y_secret = 4 ∷ 1 ∷ 5 ∷ []

abbrev b_secret : List ℕ
b_secret = 9 ∷ []

abbrev answer : List ℕ × List ℕ × SessionKey
answer = ntor_server ⦃prim = toy⦄ y_secret b_secret b_secret x_secret

client_finish-ntor_server_example :
    ntor_client_finish_raw ⦃prim = toy⦄ x_secret x_secret b_secret answer.0 answer.1 ≡ ok answer.2
client_finish-ntor_server_example =
    client_finish-ntor_server ⦃prim = toy⦄ toy-DhAgrees x_secret y_secret b_secret

abbrev wrong_tag : List ℕ
wrong_tag = []

wrong_tag_differs : wrong_tag ≢ answer.1
unfolding ntor_server hmac_sha256 auth_input build_secret_input raw_dh_static replicate t_mac t_key
    t_verify
wrong_tag_differs e = cc

client_finish_tampered_example :
    ntor_client_finish_raw ⦃prim = toy⦄ x_secret x_secret b_secret answer.0 wrong_tag
    ≡ err handshake_auth_failed
client_finish_tampered_example =
    client_finish_tampered ⦃prim = toy⦄ toy-DhAgrees x_secret y_secret b_secret wrong_tag
      wrong_tag_differs
