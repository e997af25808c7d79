-- ===== src/Onion/Tests.antt =====
-- A session of a circuit of three hops.
use mini_tor.Prelude.{ℕ, ◌+◌, ◌≡◌, refl, List, [], ◌∷◌, replicate, true}
use mini_tor.Protocol.{MessageCommand}
use mini_tor.Crypto.Keys.{SessionKey}
use mini_tor.Crypto.Cipher
use mini_tor.Crypto.Cipher.{CipherPair}
use mini_tor.Crypto.Digest
use mini_tor.Crypto.Tests.{toy, toy-IsStreamCipher}
use mini_tor.Client.Engine
use mini_tor.Client.Engine.{OnionKeys, encrypt_layers, decrypt_layers}
use mini_tor.Prelude.{arith, some, none, ok}
use mini_tor.Protocol.{Message}
use mini_tor.Protocol.Codec.{from_bytes}
use mini_tor.Types.{NodeDescriptor, IpAddr, v4, v6, middle}
use mini_tor.Net.Tests.{toy_net, parse-print, print, up}
use mini_tor.Relay.Tests.{zeros-Fills, draws, an_entry, a_middle, established, hop}
use mini_tor.Relay.Entry
use mini_tor.Relay.Entry.{EntryCircuitHandler}
use mini_tor.Relay.Middle
use mini_tor.Relay.Middle.{MiddleCircuitHandler}
use mini_tor.Relay.Relayed.{relayed}
use mini_tor.Relay.Exit.{open_forward}
use mini_tor.Relay.Extend.{position_zero, parse_extend}
use mini_tor.Client.Builder.{extend_payload}
use mini_tor.Client.Circuit.{seal_forward}
use mini_tor.Onion.Extending.{PrintsAddresses, parse_extend-extend_payload}
use mini_tor.Onion.ThreeHops.{cell_of, three_hops-deliver}
use mini_tor.Onion.Session.{
  Ends, Action, to_exit, to_client, InSync, run_session, delivered, run_session-delivers,
}

abbrev key : ℕ → SessionKey
key n = record { forward = replicate n 0; backward = replicate (n + 1) 0 }

abbrev pair : ℕ → CipherPair ⦃prim = toy⦄
pair n = Cipher.new ⦃prim = toy⦄ (key n)

abbrev front : List (CipherPair ⦃prim = toy⦄)
front = pair 2 ∷ pair 3 ∷ []

abbrev keys : List (CipherPair ⦃prim = toy⦄)
keys = pair 2 ∷ pair 3 ∷ pair 4 ∷ []

abbrev pub fresh : Ends ⦃prim = toy⦄
fresh = record {
  keys = Engine.new ⦃prim = toy⦄ (key 2 ∷ key 3 ∷ key 4 ∷ []) keys;
  front = front;
  exit = record {
    cipher = pair 4;
    forward_digest = Digest.new ⦃prim = toy⦄;
    backward_digest = Digest.new ⦃prim = toy⦄;
  };
}

pub fresh-InSync : InSync ⦃prim = toy⦄ fresh
unfolding Engine.new
fresh-InSync = record {
  forward = refl;
  backward = refl;
  forward_digest = refl;
  backward_digest = refl;
}

abbrev actions : List Action
actions =
    to_exit 1 MessageCommand.begin (1 ∷ 2 ∷ [])
    ∷ to_client 1 MessageCommand.connected []
    ∷ to_exit 1 MessageCommand.data_cell (5 ∷ 6 ∷ 7 ∷ [])
    ∷ to_client 1 MessageCommand.data_cell (8 ∷ 9 ∷ [])
    ∷ []

run_session-delivers_example :
    ((run_session ⦃prim = toy⦄ 1 fresh actions).1 ≡ delivered actions)
    × InSync ⦃prim = toy⦄ (run_session ⦃prim = toy⦄ 1 fresh actions).0
run_session-delivers_example =
    run_session-delivers ⦃prim = toy⦄ toy-IsStreamCipher 1 fresh actions fresh-InSync

up_no_zero : (bs : List ℕ) → position_zero (up bs) ≡ none
unfolding position_zero
up_no_zero [] = refl
up_no_zero (b ∷ bs) = ground (arith, up_no_zero bs)

print_no_zero :
    (ip : IpAddr) (port : ℕ) → position_zero (print (record { ip = ip; port = port })) ≡ none
unfolding position_zero
print_no_zero (v4 octets) port = ground (arith, up_no_zero octets)
print_no_zero (v6 octets) port = ground (arith, up_no_zero octets)

toy_net-PrintsAddresses : PrintsAddresses toy_net
toy_net-PrintsAddresses = record {
  printed_utf8 = λ a. refl;
  printed_no_zero = λ a. print_no_zero a.ip a.port;
  parses_back = λ a. parse-print a;
}

abbrev next_node : NodeDescriptor
next_node = record {
  node_id = 1 ∷ [];
  node_type = middle;
  address = record { ip = v4 (10 ∷ 0 ∷ 0 ∷ 2 ∷ []); port = 9001 };
  public_key = [];
  bandwidth = 1;
  exit_policy = none;
  operator_id = none;
  tls_cert_fingerprint = 97 ∷ 98 ∷ [];
}

parse_extend-extend_payload_example :
    parse_extend ⦃net = toy_net⦄ (extend_payload ⦃net = toy_net⦄ next_node (replicate 32 3))
    ≡ ok (record {
      address = next_node.address;
      client_public = replicate 32 3;
      fingerprint = next_node.tls_cert_fingerprint;
    })
unfolding replicate
parse_extend-extend_payload_example =
    parse_extend-extend_payload ⦃net = toy_net⦄ toy_net-PrintsAddresses next_node (replicate 32 3)
      refl refl

abbrev entry_relay : EntryCircuitHandler ⦃prim = toy⦄ ⦃net = toy_net⦄
entry_relay = record an_entry { context = record established { cipher_pair = some (pair 2) } }

abbrev middle_relay : MiddleCircuitHandler ⦃prim = toy⦄ ⦃net = toy_net⦄
middle_relay = record a_middle { context = record established { cipher_pair = some (pair 3) } }

abbrev sent : Message
sent = (seal_forward ⦃prim = toy⦄ fresh.keys 7 1 MessageCommand.data_cell (5 ∷ 6 ∷ 7 ∷ [])).1

abbrev at_middle : Message
at_middle = relayed ⦃prim = toy⦄ (pair 2) sent

abbrev at_exit : Message
at_exit = relayed ⦃prim = toy⦄ (pair 3) at_middle

three_hops-deliver_example :
    ((Entry.handle_relay ⦃prim = toy⦄ ⦃net = toy_net⦄ draws entry_relay sent).0.next
      ≡ some (record { write = cell_of ⦃prim = toy⦄ ⦃net = toy_net⦄ draws at_middle; read = none }))
    × (from_bytes (cell_of ⦃prim = toy⦄ ⦃net = toy_net⦄ draws at_middle) ≡ ok at_middle)
    × ((Middle.handle_relay ⦃prim = toy⦄ ⦃net = toy_net⦄ draws middle_relay at_middle).0.next
        ≡ some (record { write = cell_of ⦃prim = toy⦄ ⦃net = toy_net⦄ draws at_exit; read = none }))
    × (from_bytes (cell_of ⦃prim = toy⦄ ⦃net = toy_net⦄ draws at_exit) ≡ ok at_exit)
    × ((open_forward ⦃prim = toy⦄ fresh.exit at_exit).1 ≡ 5 ∷ 6 ∷ 7 ∷ [])
    × ((open_forward ⦃prim = toy⦄ fresh.exit at_exit).2 ≡ true)
three_hops-deliver_example =
    three_hops-deliver ⦃prim = toy⦄ ⦃net = toy_net⦄ toy-IsStreamCipher draws draws fresh.keys
      (pair 2) (pair 3) fresh.exit entry_relay middle_relay hop hop 7 1 MessageCommand.data_cell
      (5 ∷ 6 ∷ 7 ∷ []) fresh-InSync refl refl refl refl (omega arith) (omega arith) (omega arith)
      zeros-Fills zeros-Fills
