-- ===== src/Relay/Connection/Sound.antt =====
-- A round of a next-hop reader (relay-node/src/circuit) keeps the relay's circuits coherent.
use mini_tor.Prelude.{ℕ, List, Bool-cases, Option, none, some, inl, inr, Result, ok, err}
use mini_tor.Protocol.{Message}
use mini_tor.Protocol.Wire.{IoError}
use mini_tor.Crypto.{Primitives}
use mini_tor.Net.{Net}
use mini_tor.Relay.{Reply}
use mini_tor.Relay.Registry.{CircuitRegistry, handle_backward_message}
use mini_tor.Relay.Reader
use mini_tor.Relay.Reader.{
  ReaderTask, CircuitIoContext, Round, spawn_nexthop_reader, write_prev, answer_prev, destroy_prev,
  send_reply, pass_backward, stops_at, reader_round,
}
use mini_tor.Relay.Connection.Coherence.{AllCoherent, handle_backward_message-AllCoherent}

module _ ⦃prim : Primitives⦄ ⦃net : Net⦄ where
  -- The circuits of what the loops share.
  pub data Sound (io : CircuitIoContext) : Type 0 where
    all_coherent : AllCoherent io.circuit_registry → Sound io

  pub answer_prev-Sound :
      (fill : ℕ → List ℕ) (response : Option Message) (io : CircuitIoContext)
      → Sound io
      → Sound (answer_prev fill response io).0
  unfolding answer_prev write_prev
  answer_prev-Sound fill none io sound = sound
  answer_prev-Sound fill (some response) io (all_coherent all) = all_coherent all

  pub destroy_prev-Sound :
      (fill : ℕ → List ℕ) (id : ℕ) (io : CircuitIoContext)
      → Sound io
      → Sound (destroy_prev fill id io)
  unfolding destroy_prev write_prev
  destroy_prev-Sound fill id io (all_coherent all) = all_coherent all

  send_reply-Sound :
      (fill : ℕ → List ℕ) (io : CircuitIoContext) (r : CircuitRegistry × Reply)
      → AllCoherent r.0
      → Sound (send_reply fill io r).0
  unfolding send_reply
  send_reply-Sound fill io (r, ok response) all =
      answer_prev-Sound fill response (record io { circuit_registry = r }) (all_coherent all)
  send_reply-Sound fill io (r, err e) all = all_coherent all

  pass_backward-Sound :
      (fill : ℕ → List ℕ) (msg : Message) (io : CircuitIoContext)
      → Sound io
      → Sound (pass_backward fill msg io).0
  unfolding pass_backward
  pass_backward-Sound fill msg io (all_coherent all) =
      send_reply-Sound fill io (handle_backward_message io.circuit_registry msg)
        (handle_backward_message-AllCoherent io.circuit_registry msg all)

  reader_on_message-Sound :
      (task : ReaderTask) (round : Round) (msg : Message) (io : CircuitIoContext)
      → Sound io
      → Sound (Reader.on_message task round msg io).0
  unfolding Reader.on_message
  reader_on_message-Sound task round msg io sound = elim (Bool-cases (stops_at task msg)) [
    | inl stop ↦ rw stop sound
    | inr more ↦ rw more (pass_backward-Sound round.fill msg io sound)
  ]

  reader_on_read-Sound :
      (task : ReaderTask) (round : Round) (r : Result IoError (Option Message))
      (io : CircuitIoContext)
      → Sound io
      → Sound (Reader.on_read task round r io).0
  unfolding Reader.on_read
  reader_on_read-Sound task round (ok (some msg)) io sound =
      reader_on_message-Sound task round msg io sound
  reader_on_read-Sound task round (ok none) io sound = sound
  reader_on_read-Sound task round (err e) io sound = sound

  pub reader_round-Sound :
      (task : ReaderTask) (round : Round) (io : CircuitIoContext)
      → Sound io
      → Sound (reader_round task round io).0
  unfolding reader_round
  reader_round-Sound task round io sound =
      let done = Reader.on_read task round round.read io in
      let sound' : Sound done.0 = reader_on_read-Sound task round round.read io sound in
      elim (Bool-cases done.1) [
        | inl more ↦ rw more sound'
        | inr stop ↦
            rw stop (destroy_prev-Sound round.end_fill (Reader.reader_id task) done.0 sound')
      ]

  pub write_prev-Sound :
      (fill : ℕ → List ℕ) (msg : Message) (io : CircuitIoContext)
      → Sound io
      → Sound (write_prev fill msg io).0
  unfolding write_prev
  write_prev-Sound fill msg io (all_coherent all) = all_coherent all
