-- ===== src/Client/Proxy/Closed.antt =====
-- What becomes of a circuit that closes under a stream (tor-client/src/client/socks_proxy.rs).
use mini_tor.Prelude.{
  ℕ, ◌≡◌, ◌≢◌, refl, sym, ◌∙◌, List, true, false, Option, none, some, Option-cases, Result-cases,
  inl, inr, err, lookup, remove, lookup-remove, lookup-insert, ◌==◌, arith,
}
use mini_tor.Types.{NodeDescriptor}
use mini_tor.Crypto.{Primitives}
use mini_tor.Net.{Net}
use mini_tor.Relay.{Draws}
use mini_tor.Client.Circuit.{Circuit}
use mini_tor.Client.Builder.{build}
use mini_tor.Client.Pool.{
  CircuitPool, allocate_circuit_id, build_circuit, rebuild_failed, select_circuit, replace_circuit,
}
use mini_tor.Client.Stream.{StreamError, Bridge, handle_stream}
use mini_tor.Client.Monitor.{BuildInput, has_failed}
use mini_tor.Client.Proxy.{
  Meeting, stream_failed, request, connect, put_back, replace_if_closed, after_stream, on_circuit,
  on_selected, handle_connection,
}

module _ ⦃prim : Primitives⦄ ⦃net : Net⦄ where
  -- A circuit that was built has the pool's next id.
  lookup-build_circuit :
      (draws : ℕ → Draws) (now : ℕ) (path : Option (List NodeDescriptor)) (id : ℕ) (p : CircuitPool)
      → p.next_circuit_id ≢ id
      → lookup id (build_circuit draws now path p).0.circuits ≡ lookup id p.circuits
  unfolding build_circuit allocate_circuit_id
  lookup-build_circuit draws now none id p fresh = refl
  lookup-build_circuit draws now (some path) id p fresh =
      let other : (p.next_circuit_id == id) ≡ false = ground (arith, fresh) in
      elim (Result-cases (build draws p.next_circuit_id path)) [
        | inr (x, refused) ↦ rw (build_circuit, refused) refl
        | inl (done, built) ↦
            rw (build_circuit, built)
              (lookup-insert p.next_circuit_id id done.0 p.circuits ∙ rw other refl)
      ]

  lookup-replace_circuit :
      (input : BuildInput) (id : ℕ) (p : CircuitPool)
      → p.next_circuit_id ≢ id
      → lookup id (replace_circuit input.draws input.now input.path id p).0.circuits ≡ none
  unfolding replace_circuit rebuild_failed
  lookup-replace_circuit input id p fresh =
      let p0 : CircuitPool = record p { circuits = remove id p.circuits } in
      let built = build_circuit input.draws input.now input.path p0 in
      let same : (id == id) ≡ true = ground arith in
      let gone : lookup id built.0.circuits ≡ none =
        lookup-build_circuit input.draws input.now input.path id p0 fresh
        ∙ lookup-remove id id p.circuits
        ∙ rw same refl in
      elim (Option-cases built.1) [
        | inl e ↦ rw (replace_circuit, e) gone
        | inr (new_id, e) ↦ rw (replace_circuit, e) gone
      ]

  next_circuit_id-put_back :
      (id : ℕ) (c : Circuit) (p : CircuitPool)
      → (put_back id c p).next_circuit_id ≡ p.next_circuit_id
  unfolding put_back
  next_circuit_id-put_back id c p = elim (Option-cases (lookup id p.circuits)) [
    | inl gone ↦ rw (put_back, gone) refl
    | inr (shared, there) ↦ rw (put_back, there) refl
  ]

  reports :
      (m : Meeting) (id : ℕ) (p : CircuitPool) (b : Bridge) (e : StreamError)
      → (after_stream m id p (b, some (err e))).2 ≡ some (err (stream_failed e))
  unfolding after_stream
  reports m id p b e = refl

  after_stream-lookup :
      (m : Meeting) (id : ℕ) (p : CircuitPool) (b : Bridge) (e : StreamError)
      → (m.meanwhile p).next_circuit_id ≢ id
      → has_failed b.circuit ≡ true
      → lookup id (after_stream m id p (b, some (err e))).0.circuits ≡ none
  unfolding after_stream replace_if_closed
  after_stream-lookup m id p b e fresh failed =
      let now_ = m.meanwhile p in
      let p' = put_back id b.circuit now_ in
      let same = next_circuit_id-put_back id b.circuit now_ in
      rw failed (lookup-replace_circuit m.replacing id p' (λ e'. fresh (sym same ∙ e')))

  -- When the stream of a SOCKS5 client fails and its circuit is closed by then, the circuit that was
  -- selected for it is not in the pool afterwards, whatever others did to the pool meanwhile and whether
  -- or not a replacement could be built: no later client gets it. The selected id is not the next one that
  -- the pool gives out then.
  pub handle_connection-drops :
      (m : Meeting) (destination : List ℕ) (p p' : CircuitPool) (socks : net.Socks) (id : ℕ)
      (c : Circuit) (b : Bridge) (e : StreamError)
      → select_circuit m.selecting.draws m.selecting.now m.selecting.path p ≡ (p', some id)
      → lookup id p'.circuits ≡ some c
      → handle_stream m.course destination (record { circuit = c; socks = socks })
        ≡ (b, some (err e))
      → has_failed b.circuit ≡ true
      → (m.meanwhile p').next_circuit_id ≢ id
      → let (last, socks', r) = handle_connection m (request connect destination) p socks in
        (lookup id last.circuits ≡ none) × (r ≡ some (err (stream_failed e)))
  unfolding handle_connection on_selected on_circuit
  handle_connection-drops m destination p p' socks id c b e selected found failed closed fresh =
      rw (selected, found, failed)
        (after_stream-lookup m id p' b e fresh closed, reports m id p' b e)
