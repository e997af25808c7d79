-- ===== src/Client/Monitor/Slots.antt =====
-- How the monitor of tor-client/src/core/circuit.rs comes back to a circuit that it could not replace.
use mini_tor.Prelude.{
  ℕ, all_below-holds, leb, leb→le, ==_iff, ◌&&◌, ◌≡◌, ◌≤◌, ◌*◌, ◌^◌, ◌%◌, min, refl, Bool, true,
  ◌==◌, arith,
}
use mini_tor.Net.{Net}
use mini_tor.Client.Monitor.{backoff_secs}

abbrev secs_fit : ℕ → Bool
secs_fit k =
    leb 5 (min (5 * 2 ^ k % 2 ^ 64) 60) && (min (5 * 2 ^ k % 2 ^ 64) 60 == min (5 * 2 ^ k) 60)

-- Between 5 and 60 seconds are waited before a slot is rebuilt, after any number of failures: 5 seconds
-- doubled as often as there were failures modulo 64, and the product's wrap-around never shows.
pub backoff_secs-bounds :
    (n : ℕ)
    → (5 ≤ backoff_secs n) × (backoff_secs n ≤ 60) × (backoff_secs n ≡ min (5 * 2 ^ (n % 64)) 60)
unfolding backoff_secs
backoff_secs-bounds n =
    let k = n % 64 in
    let fit : secs_fit k ≡ true = all_below-holds secs_fit 64 k refl (omega arith) in
    let wrapped = min (5 * 2 ^ k % 2 ^ 64) 60 in
    let enough : leb 5 wrapped ≡ true = ground (arith, fit) in
    let same : (wrapped == min (5 * 2 ^ k) 60) ≡ true = ground (arith, fit) in
    (leb→le 5 wrapped enough, omega arith, (==_iff wrapped (min (5 * 2 ^ k) 60)).0 same)
