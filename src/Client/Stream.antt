-- ===== src/Client/Stream.antt =====
-- services/tor-client/src/core/stream.rs: a SOCKS5 stream over a circuit. What arrives is an
-- argument, and so is what the other users of the circuit do to it in between; metrics events are not
-- modelled.
pub mod Cleanup
pub mod Chunked
pub mod Tests
use mini_tor.Prelude.{
  ℕ, List, [], ◌∷◌, ◌++◌, Bool, true, false, Option, none, some, Result, ok, err, if◌then◌else◌,
}
use mini_tor.Protocol.{
  MessageCommand, Message, begin, connected, data_cell, end, command_eq, max_payload_size,
}
use mini_tor.Protocol.Wire.{TorError}
use mini_tor.Crypto.{Primitives}
use mini_tor.Net.{Net, succeeded, general_failure}
use mini_tor.Relay.Exit.Task.{chunks}
use mini_tor.Client.Circuit.{
  Circuit, allocate_stream_id, register_stream, unregister_stream, send_message,
}

pub data StreamError : Type 0 where
  begin_failed : TorError → StreamError
  circuit_closed timed_out reply_failed : StreamError
  not_connected : MessageCommand → StreamError

-- `timeout(CONNECTED_TIMEOUT, rx.recv())`
pub data Awaited : Type 0 where
  arrived : Message → Awaited
  channel_closed elapsed : Awaited

-- What the select of the loop wakes up with: a read of the SOCKS5 client, or the stream's channel.
pub data StreamEvent : Type 0 where
  client_sent : List ℕ → StreamEvent
  client_closed client_failed client_idle : StreamEvent
  received : Message → StreamEvent
  sender_dropped : StreamEvent

module _ ⦃prim : Primitives⦄ ⦃net : Net⦄ where
  pub record Bridge : Type 0 where
    pub circuit : Circuit
    pub socks : net.Socks

  -- What the other users of the circuit have done to it, and what happens then.
  pub record Turn : Type 0 where
    pub meanwhile : Circuit → Circuit
    pub event : StreamEvent
    pub fill : ℕ → List ℕ

  -- The chunks of one read, up to the first that cannot be sent.
  unfoldable pub send_chunks : (ℕ → List ℕ) → ℕ → Circuit → List (List ℕ) → Circuit × Bool
  send_chunks fill stream_id c [] = (c, true)
  send_chunks fill stream_id c (chunk ∷ rest) =
      let first = send_message fill c stream_id data_cell chunk in
      let more = send_chunks fill stream_id first.0 rest in
      elim first.1 [ ok _ ↦ more | err _ ↦ (first.0, false) ]

  unfoldable pub on_received : Bridge → Message → Bridge × Bool
  on_received b msg =
      let (socks', all) = net.socks_write b.socks msg.payload in
      if command_eq msg.command data_cell
      then (record b { socks = socks' }, all)
      else if command_eq msg.command end
      then (b, false)
      else (b, true)

  -- One round of the loop; whether it goes on.
  unfoldable pub on_event : (ℕ → List ℕ) → ℕ → Bridge → StreamEvent → Bridge × Bool
  on_event fill stream_id b (client_sent bytes) =
      let (c', all) = send_chunks fill stream_id b.circuit (chunks max_payload_size bytes) in
      (record b { circuit = c' }, all)
  on_event fill stream_id b client_closed = (b, false)
  on_event fill stream_id b client_failed = (b, false)
  on_event fill stream_id b client_idle = (b, false)
  on_event fill stream_id b (received msg) = on_received b msg
  on_event fill stream_id b sender_dropped = (b, false)

  unfoldable pub on_turn : ℕ → Bridge → Turn → Bridge × Bool
  on_turn stream_id b turn =
      on_event turn.fill stream_id (record b { circuit = turn.meanwhile b.circuit }) turn.event

  -- Whether the loop was left.
  unfoldable pub bridge : ℕ → Bridge → List Turn → Bridge × Bool
  bridge stream_id b [] = (b, false)
  bridge stream_id b (turn ∷ turns) =
      let first = on_turn stream_id b turn in
      let more = bridge stream_id first.0 turns in if first.1 then more else (first.0, true)

  -- END is sent as far as possible.
  unfoldable pub cleanup_stream : (ℕ → List ℕ) → ℕ → Bridge → Bridge
  cleanup_stream fill stream_id b =
      let c = (send_message fill b.circuit stream_id end []).0 in
      record { circuit = unregister_stream c stream_id; socks = net.socks_shutdown b.socks }

  -- The answer to BEGIN is waited for, and then the SOCKS5 client gets its reply.
  unfoldable pub await_connected :
      (ℕ → List ℕ) → ℕ → Bridge → Awaited → Bridge × Result StreamError (Unit {0})
  await_connected fill stream_id b channel_closed =
      (cleanup_stream fill stream_id b, err circuit_closed)
  await_connected fill stream_id b elapsed = (cleanup_stream fill stream_id b, err timed_out)
  await_connected fill stream_id b (arrived msg) =
      if command_eq msg.command connected
      then (let (socks', all) = net.send_conn_reply b.socks succeeded in
          (record b { socks = socks' }, if all then ok tt else err reply_failed))
      else (let socks' = (net.send_conn_reply b.socks general_failure).0 in
          (
            cleanup_stream fill stream_id (record b { socks = socks' }),
            err (not_connected msg.command),
          ))

  -- The bytes of `format!("{destination}\0")`.
  unfoldable pub begin_payload : List ℕ → List ℕ
  begin_payload destination = destination ++ 0 ∷ []

  -- The stream's id, with its channel registered.
  unfoldable pub open_stream : net.MsgSender → Circuit → Circuit × ℕ
  open_stream tx c =
      let (c', stream_id) = allocate_stream_id c in (register_stream c' stream_id tx, stream_id)

  -- What a stream meets with: its channel's sender, the fills of BEGIN and END, the answer to BEGIN,
  -- and the rounds of the loop.
  pub record Course : Type 0 where
    pub tx : net.MsgSender
    pub begin_fill : ℕ → List ℕ
    pub end_fill : ℕ → List ℕ
    pub until_answer : Circuit → Circuit
    pub answer : Awaited
    pub turns : List Turn

  -- The result of `handle_stream`, `none` while its loop runs.
  abbrev pub Outcome : Type 0
  Outcome = Bridge × Option (Result StreamError (Unit {0}))

  -- The loop, and the clean-up when it is left.
  unfoldable pub serve : Course → ℕ → Bridge → Outcome
  serve course stream_id b =
      let (b', over) = bridge stream_id b course.turns in
      if over then (cleanup_stream course.end_fill stream_id b', some (ok tt)) else (b', none)

  unfoldable pub after_answer : Course → ℕ → Bridge × Result StreamError (Unit {0}) → Outcome
  after_answer course stream_id (b, err e) = (b, some (err e))
  after_answer course stream_id (b, ok _) = serve course stream_id b

  unfoldable pub after_begin : Course → ℕ → Bridge → Result TorError (Unit {0}) → Outcome
  after_begin course stream_id b (err e) = (b, some (err (begin_failed e)))
  after_begin course stream_id b (ok _) =
      let waited = record b { circuit = course.until_answer b.circuit } in
      after_answer course stream_id (await_connected course.end_fill stream_id waited course.answer)

  unfoldable pub handle_stream : Course → List ℕ → Bridge → Outcome
  handle_stream course destination b =
      let (c, stream_id) = open_stream course.tx b.circuit in
      let (c', r) = send_message course.begin_fill c stream_id begin (begin_payload destination) in
      after_begin course stream_id (record b { circuit = c' }) r
