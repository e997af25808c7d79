-- ===== src/Client/Stream/Tests.antt =====
-- A SOCKS5 stream at a concrete course.
use mini_tor.Prelude.{◌≡◌, refl, arith, [], ◌∷◌, some, ok, true, inl, inr}
use mini_tor.Protocol.{Message, MessageCommand, max_payload_size}
use mini_tor.Crypto.Tests.{toy, toy-IsStreamCipher}
use mini_tor.Net.Tests.{toy_net}
use mini_tor.Relay.Exit.Task.{chunks}
use mini_tor.Relay.Tests.{zeros}
use mini_tor.Client.Circuit.{Circuit, send_message}
use mini_tor.Client.Tests.{a_circuit}
use mini_tor.Client.Stream.{
  Course, Bridge, arrived, client_sent, client_closed, open_stream, begin_payload, handle_stream,
  send_chunks,
}
use mini_tor.Client.Stream.Cleanup.{Left, handle_stream-Left, handle_stream_returns}
use mini_tor.Client.Stream.Chunked.{uploads, arrived_data, send_message_sent, send_chunks-delivers}
use mini_tor.Onion.Session.{InSync, run_session, delivered}
use mini_tor.Onion.Tests.{fresh, fresh-InSync}

abbrev unchanged : Circuit ⦃prim = toy⦄ ⦃net = toy_net⦄ → Circuit ⦃prim = toy⦄ ⦃net = toy_net⦄
unchanged c = c

abbrev answer : Message
answer = record {
  circuit_id = 1;
  stream_id = 1;
  command = MessageCommand.connected;
  payload = [];
  digest = 0 ∷ 0 ∷ 0 ∷ 0 ∷ [];
}

abbrev pub course : Course ⦃prim = toy⦄ ⦃net = toy_net⦄
course = record {
  tx = [];
  begin_fill = zeros;
  end_fill = zeros;
  until_answer = unchanged;
  answer = arrived answer;
  turns =
      record { meanwhile = unchanged; event = client_sent (1 ∷ 2 ∷ []); fill = zeros }
      ∷ record { meanwhile = unchanged; event = client_closed; fill = zeros }
      ∷ [];
}

abbrev ends : Bridge ⦃prim = toy⦄ ⦃net = toy_net⦄
ends = record { circuit = a_circuit; socks = [] }

handle_stream-Left_example :
    Left ⦃prim = toy⦄ ⦃net = toy_net⦄ 1 []
      (handle_stream ⦃prim = toy⦄ ⦃net = toy_net⦄ course (104 ∷ 58 ∷ 56 ∷ []) ends)
handle_stream-Left_example =
    handle_stream-Left ⦃prim = toy⦄ ⦃net = toy_net⦄ course (104 ∷ 58 ∷ 56 ∷ []) ends

pub begin_sent :
    (let (c, id) = open_stream ⦃prim = toy⦄ ⦃net = toy_net⦄ [] a_circuit in
      (send_message ⦃prim = toy⦄ ⦃net = toy_net⦄ zeros c id MessageCommand.begin
        (begin_payload ⦃prim = toy⦄ ⦃net = toy_net⦄ (104 ∷ 58 ∷ 56 ∷ []))).1
      ≡ ok tt)
unfolding begin_payload
begin_sent =
    let (c, id) = open_stream ⦃prim = toy⦄ ⦃net = toy_net⦄ [] a_circuit in
    send_message_sent ⦃prim = toy⦄ ⦃net = toy_net⦄ toy-IsStreamCipher (λ w b. refl) zeros c id
      MessageCommand.begin (104 ∷ 58 ∷ 56 ∷ 0 ∷ []) (omega arith)

handle_stream_returns_example :
    (handle_stream ⦃prim = toy⦄ ⦃net = toy_net⦄ course (104 ∷ 58 ∷ 56 ∷ []) ends).1 ≡ some (ok tt)
handle_stream_returns_example =
    handle_stream_returns ⦃prim = toy⦄ ⦃net = toy_net⦄ course (104 ∷ 58 ∷ 56 ∷ []) ends answer
      begin_sent refl refl refl (inr (inl tt))

abbrev long : Circuit ⦃prim = toy⦄ ⦃net = toy_net⦄
long = record a_circuit { onion_keys = fresh.keys }

send_chunks-delivers_example :
    let pieces = chunks max_payload_size (5 ∷ 6 ∷ 7 ∷ []) in
    let (c', all) = send_chunks ⦃prim = toy⦄ ⦃net = toy_net⦄ zeros 1 long pieces in
    let (ends', got) = run_session ⦃prim = toy⦄ 1 fresh (uploads 1 pieces) in
    (all ≡ true)
    × (got ≡ delivered (uploads 1 pieces))
    × (arrived_data got ≡ 5 ∷ 6 ∷ 7 ∷ [])
    × (ends'.keys ≡ c'.onion_keys)
    × InSync ⦃prim = toy⦄ ends'
send_chunks-delivers_example =
    send_chunks-delivers ⦃prim = toy⦄ ⦃net = toy_net⦄ toy-IsStreamCipher (λ w b. refl) zeros 1 long
      fresh (5 ∷ 6 ∷ 7 ∷ []) refl fresh-InSync
