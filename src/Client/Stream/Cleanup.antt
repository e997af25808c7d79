-- ===== src/Client/Stream/Cleanup.antt =====
-- What a SOCKS5 stream (tor-client/src/core/stream.rs) leaves of itself in its circuit, and when it ends.
use mini_tor.Prelude.{
  ℕ, ◌≡◌, ◌⊎◌, refl, ◌∙◌, List, [], ◌∷◌, true, false, Bool-cases, inl, inr, Option, none, some,
  Result, ok, err, lookup, lookup-remove, lookup-insert, ◌==◌, arith,
}
use mini_tor.Protocol.Wire.{TorError}
use mini_tor.Protocol.{to_u8, Message, begin, connected, end, command_eq}
use mini_tor.Crypto.{Primitives}
use mini_tor.Net.{Net, succeeded}
use mini_tor.Client.Circuit.{
  Circuit, allocate_stream_id, register_stream, unregister_stream, send_message,
}
use mini_tor.Client.Stream.{
  begin_failed, circuit_closed, timed_out, reply_failed, not_connected, Awaited, arrived,
  channel_closed, elapsed, StreamEvent, client_sent, client_closed, client_failed, client_idle,
  received, sender_dropped, Bridge, Turn, Course, on_event, on_received, on_turn, bridge,
  cleanup_stream, await_connected, begin_payload, open_stream, Outcome, serve, after_answer,
  after_begin, handle_stream,
}

module _ ⦃prim : Primitives⦄ ⦃net : Net⦄ where
  abbrev registered : ℕ → Bridge → Option net.MsgSender
  registered stream_id b = lookup stream_id b.circuit.stream_senders

  -- What is left of a stream: its channel when BEGIN could not be sent, nothing once it was cleaned
  -- up. Nothing is said while it runs, or if the success reply could not be sent.
  abbrev pub Left : ℕ → net.MsgSender → Outcome → Type 0
  Left stream_id tx (b, none) = Unit
  Left stream_id tx (b, some (ok _)) = registered stream_id b ≡ none
  Left stream_id tx (b, some (err (begin_failed e))) = registered stream_id b ≡ some tx
  Left stream_id tx (b, some (err circuit_closed)) = registered stream_id b ≡ none
  Left stream_id tx (b, some (err timed_out)) = registered stream_id b ≡ none
  Left stream_id tx (b, some (err reply_failed)) = Unit
  Left stream_id tx (b, some (err (not_connected c))) = registered stream_id b ≡ none

  unregister_stream-lookup :
      (c : Circuit) (stream_id : ℕ)
      → lookup stream_id (unregister_stream c stream_id).stream_senders ≡ none
  unfolding unregister_stream
  unregister_stream-lookup c stream_id =
      let same : (stream_id == stream_id) ≡ true = ground arith in
      lookup-remove stream_id stream_id c.stream_senders ∙ rw same refl

  cleanup_stream-lookup :
      (fill : ℕ → List ℕ) (stream_id : ℕ) (b : Bridge)
      → registered stream_id (cleanup_stream fill stream_id b) ≡ none
  unfolding cleanup_stream
  cleanup_stream-lookup fill stream_id b =
      unregister_stream-lookup (send_message fill b.circuit stream_id end []).0 stream_id

  serve-Left :
      (course : Course) (stream_id : ℕ) (tx : net.MsgSender) (b : Bridge)
      → Left stream_id tx (serve course stream_id b)
  unfolding serve
  serve-Left course stream_id tx b = elim (Bool-cases (bridge stream_id b course.turns).1) [
    | inl over ↦
        rw over
          (cleanup_stream-lookup course.end_fill stream_id (bridge stream_id b course.turns).0)
    | inr runs ↦ rw runs tt
  ]

  await_connected-Left :
      (course : Course) (stream_id : ℕ) (tx : net.MsgSender) (b : Bridge) (answer : Awaited)
      → Left stream_id tx
          (after_answer course stream_id (await_connected course.end_fill stream_id b answer))
  unfolding await_connected after_answer
  await_connected-Left course stream_id tx b channel_closed =
      cleanup_stream-lookup course.end_fill stream_id b
  await_connected-Left course stream_id tx b elapsed =
      cleanup_stream-lookup course.end_fill stream_id b
  await_connected-Left course stream_id tx b (arrived msg) =
      elim (Bool-cases (command_eq msg.command connected)) [
        | inr other ↦ rw other (cleanup_stream-lookup course.end_fill stream_id _)
        | inl right ↦ elim (Bool-cases (net.send_conn_reply b.socks succeeded).1) [
          | inl replied ↦ rw (right, replied) (serve-Left course stream_id tx _)
          | inr failed ↦ rw (right, failed) tt
        ]
      ]

  begun_registered :
      (fill : ℕ → List ℕ) (c : Circuit) (tx : net.MsgSender) (destination : List ℕ)
      → let opened = open_stream tx c in
        lookup c.next_stream_id
          (send_message fill opened.0 opened.1 begin (begin_payload destination)).0.stream_senders
        ≡ some tx
  unfolding open_stream send_message register_stream allocate_stream_id
  begun_registered fill c tx destination =
      let same : (c.next_stream_id == c.next_stream_id) ≡ true = ground arith in
      lookup-insert c.next_stream_id c.next_stream_id tx c.stream_senders ∙ rw same refl

  after_begin-Left :
      (course : Course) (stream_id : ℕ) (tx : net.MsgSender) (b : Bridge)
      (r : Result TorError (Unit {0}))
      → registered stream_id b ≡ some tx
      → Left stream_id tx (after_begin course stream_id b r)
  unfolding after_begin
  after_begin-Left course stream_id tx b (err e) opened = opened
  after_begin-Left course stream_id tx b (ok _) opened =
      await_connected-Left course stream_id tx _ course.answer

  -- When a stream ends, its channel has been taken out of the circuit, after the loop and after every
  -- failure to get CONNECTED; but when BEGIN cannot be sent, the channel stays in the circuit, which
  -- then counts a stream that is not there. This says nothing of a success reply that fails.
  pub handle_stream-Left :
      (course : Course) (destination : List ℕ) (b : Bridge)
      → Left b.circuit.next_stream_id course.tx (handle_stream course destination b)
  unfolding handle_stream open_stream allocate_stream_id
  handle_stream-Left course destination b =
      let c = (open_stream course.tx b.circuit).0 in
      let id = b.circuit.next_stream_id in
      let sent = send_message course.begin_fill c id begin (begin_payload destination) in
      after_begin-Left course id course.tx (record b { circuit = sent.0 }) sent.1
        (begun_registered course.begin_fill b.circuit course.tx destination)

  -- The events that end the loop.
  abbrev pub Ends : StreamEvent → Type 0
  Ends client_closed = Unit
  Ends client_failed = Unit
  Ends client_idle = Unit
  Ends sender_dropped = Unit
  Ends (received msg) = msg.command ≡ end
  Ends (client_sent bytes) = ⊥

  abbrev pub HasEnd : List Turn → Type 0
  HasEnd [] = ⊥
  HasEnd (turn ∷ turns) = Ends turn.event ⊎ HasEnd turns

  on_event_ends :
      (fill : ℕ → List ℕ) (stream_id : ℕ) (b : Bridge) (event : StreamEvent)
      → Ends event
      → (on_event fill stream_id b event).1 ≡ false
  unfolding on_event on_received command_eq to_u8
  on_event_ends fill stream_id b client_closed ends = refl
  on_event_ends fill stream_id b client_failed ends = refl
  on_event_ends fill stream_id b client_idle ends = refl
  on_event_ends fill stream_id b sender_dropped ends = refl
  on_event_ends fill stream_id b (received msg) ends = rw ends refl
  on_event_ends fill stream_id b (client_sent bytes) ends = absurd ends

  on_turn_ends :
      (stream_id : ℕ) (b : Bridge) (turn : Turn)
      → Ends turn.event
      → (on_turn stream_id b turn).1 ≡ false
  unfolding on_turn
  on_turn_ends stream_id b turn ends = on_event_ends turn.fill stream_id _ turn.event ends

  bridge_ends :
      (stream_id : ℕ) (b : Bridge) (turns : List Turn)
      → HasEnd turns
      → (bridge stream_id b turns).1 ≡ true
  unfolding bridge
  bridge_ends stream_id b [] has = absurd has
  bridge_ends stream_id b (turn ∷ turns) (inl ends) = rw (on_turn_ends stream_id b turn ends) refl
  bridge_ends stream_id b (turn ∷ turns) (inr has) =
      elim (Bool-cases (on_turn stream_id b turn).1) [
        | inl more ↦ rw more (bridge_ends stream_id (on_turn stream_id b turn).0 turns has)
        | inr over ↦ rw over refl
      ]

  serve_returns :
      (course : Course) (stream_id : ℕ) (b : Bridge)
      → HasEnd course.turns
      → (serve course stream_id b).1 ≡ some (ok tt)
  unfolding serve
  serve_returns course stream_id b has =
      let over : (bridge stream_id b course.turns).1 ≡ true =
        bridge_ends stream_id b course.turns has in
      rw over refl

  answered_returns :
      (course : Course) (stream_id : ℕ) (b : Bridge) (answer : Message) (r : Awaited)
      → r ≡ arrived answer
      → answer.command ≡ connected
      → (net.send_conn_reply b.socks succeeded).1 ≡ true
      → HasEnd course.turns
      → (after_answer course stream_id (await_connected course.end_fill stream_id b r)).1
        ≡ some (ok tt)
  unfolding after_answer await_connected command_eq to_u8
  answered_returns course stream_id b answer r answered right replied has =
      let is_connected : command_eq answer.command connected ≡ true = rw right refl in
      let b' = record b { socks = (net.send_conn_reply b.socks succeeded).0 } in
      rw (answered, is_connected, replied) (serve_returns course stream_id b' has)

  -- A stream whose BEGIN was sent, that was answered by CONNECTED and could tell its client so, ends
  -- without an error once its client is gone or idle, its circuit is gone, or an END comes, whatever
  -- comes before.
  pub handle_stream_returns :
      (course : Course) (destination : List ℕ) (b : Bridge) (answer : Message)
      → (let (c, id) = open_stream course.tx b.circuit in
          (send_message course.begin_fill c id begin (begin_payload destination)).1 ≡ ok tt)
      → course.answer ≡ arrived answer
      → answer.command ≡ connected
      → (net.send_conn_reply b.socks succeeded).1 ≡ true
      → HasEnd course.turns
      → (handle_stream course destination b).1 ≡ some (ok tt)
  unfolding handle_stream after_begin
  handle_stream_returns course destination b answer sent answered right replied has =
      let (c, id) = open_stream course.tx b.circuit in
      let c' = (send_message course.begin_fill c id begin (begin_payload destination)).0 in
      let waited = record b { circuit = course.until_answer c' } in
      rw sent (answered_returns course id waited answer course.answer answered right replied has)
