-- ===== src/Client/StreamIds.antt =====
-- The stream ids that allocate_stream_id of tor-client/src/core/circuit.rs hands out.
use mini_tor.Prelude.{
  ℕ, zero, suc, ◌+◌, ◌-◌, ◌%◌, ◌^◌, ◌<◌, ◌≤◌, ◌≡◌, ◌≢◌, ◌==◌, if◌then◌else◌, arith,
}
use mini_tor.Crypto.{Primitives}
use mini_tor.Net.{Net}
use mini_tor.Client.Circuit.{Circuit, allocate_stream_id}

module _ ⦃prim : Primitives⦄ ⦃net : Net⦄ where
  -- The circuit after n allocations.
  unfoldable pub allocated : ℕ → Circuit → Circuit
  allocated zero c = c
  allocated (suc n) c = allocated n (allocate_stream_id c).0

  next_id :
      (i : ℕ)
      → 1 ≤ i
      → i < 2 ^ 16
      → (if (i + 1) % 2 ^ 16 == 0 then 1 else (i + 1) % 2 ^ 16) ≡ i % 65535 + 1
  next_id i low high = ground arith

  allocated_lem :
      (n : ℕ) (c : Circuit)
      → 1 ≤ c.next_stream_id
      → c.next_stream_id < 2 ^ 16
      → (allocated n c).next_stream_id ≡ (c.next_stream_id - 1 + n) % 65535 + 1
  unfolding allocated allocate_stream_id
  allocated_lem zero c low high = omega arith
  allocated_lem (suc n) c low high =
      let c' = (allocate_stream_id c).0 in
      let e : c'.next_stream_id ≡ c.next_stream_id % 65535 + 1 =
        next_id c.next_stream_id low high in
      let more = allocated_lem n c' (omega (arith, e)) (omega (arith, e)) in omega (arith, e, more)

  -- In a circuit that starts with stream id 1, the allocation after n others gives n mod 65535 + 1:
  -- an id from 1 to 65535, never 0, the control stream.
  pub allocate_stream_id_lem :
      (n : ℕ) (c : Circuit)
      → c.next_stream_id ≡ 1
      → (allocate_stream_id (allocated n c)).1 ≡ n % 65535 + 1
  unfolding allocate_stream_id
  allocate_stream_id_lem n c first =
      let e = allocated_lem n c (omega (arith, first)) (omega (arith, first)) in
      omega (arith, e, first)

  -- In a circuit that starts with stream id 1, two allocations less than 65535 apart get different ids.
  pub allocate_stream_id-distinct :
      (i j : ℕ) (c : Circuit)
      → c.next_stream_id ≡ 1
      → i < j
      → j < i + 65535
      → (allocate_stream_id (allocated i c)).1 ≢ (allocate_stream_id (allocated j c)).1
  allocate_stream_id-distinct i j c first before near same =
      let a = allocate_stream_id_lem i c first in
      let b = allocate_stream_id_lem j c first in omega (arith, a, b, same)
