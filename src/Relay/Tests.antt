-- ===== src/Relay/Tests.antt =====
-- Relays at concrete messages.
use mini_tor.Prelude.{
  ℕ, ◌≡◌, ◌≢◌, ◌↔◌, ◌++◌, refl, List, [], ◌∷◌, replicate, length-replicate, some, none, err,
}
use mini_tor.Protocol.{Message, MessageCommand}
use mini_tor.Protocol.RoundTrip.{Fills}
use mini_tor.Crypto.Cipher
use mini_tor.Crypto.Cipher.{CipherPair, apply_forward}
use mini_tor.Crypto.Digest
use mini_tor.Crypto.Digest.{update, verify}
use mini_tor.Crypto.Ntor.{KeyPair}
use mini_tor.Crypto.Tests.{toy, toy-IsHash}
use mini_tor.Net.Tests.{toy_net}
use mini_tor.Relay.{Draws, digest_mismatch}
use mini_tor.Relay.Context.{CircuitContext, NextHop, active}
use mini_tor.Relay.Entry.{EntryCircuitHandler}
use mini_tor.Relay.Entry.States
use mini_tor.Relay.Entry.States.{from_previous, from_next, after-Coherent}
use mini_tor.Relay.Middle.{MiddleCircuitHandler}
use mini_tor.Relay.Registry.{get_circuit, handle_message-keeps, handle_backward_message}
use mini_tor.Relay.Registry
use mini_tor.Relay.Exit.{ExitCryptoState, ExitCircuitHandler, with_state}
use mini_tor.Relay.Exit.Handlers
use mini_tor.Relay.Exit.Refused.{Carries}
use mini_tor.Relay.Exit.Integrity.{covered, tag_after, taken_in, handle_message-refuses}

abbrev pub zeros : ℕ → List ℕ
zeros n = replicate n 0

pub zeros-Fills : Fills zeros
zeros-Fills n = length-replicate n 0

abbrev pub draws : Draws
draws = record { ephemeral_secret = 1 ∷ 2 ∷ []; fill = zeros }

abbrev pub pair : CipherPair ⦃prim = toy⦄
pair = Cipher.new ⦃prim = toy⦄ (record { forward = 1 ∷ []; backward = 2 ∷ [] })

abbrev pub established : CircuitContext ⦃prim = toy⦄
established = record { circuit_id = 7; state = active; session_key = none; cipher_pair = some pair }

abbrev pub keypair : KeyPair ⦃prim = toy⦄
keypair = record { public = 5 ∷ []; secret_bytes = 5 ∷ [] }

abbrev pub hop : NextHop ⦃net = toy_net⦄
hop = record { write = []; read = none }

abbrev pub an_entry : EntryCircuitHandler ⦃prim = toy⦄ ⦃net = toy_net⦄
an_entry = record { context = established; keypair = keypair; next = some hop }

abbrev pub a_middle : MiddleCircuitHandler ⦃prim = toy⦄ ⦃net = toy_net⦄
a_middle = record { context = established; keypair = keypair; next = some hop }

abbrev pub data_message : Message
data_message = record {
  circuit_id = 7;
  stream_id = 1;
  command = MessageCommand.data_cell;
  payload = 10 ∷ 11 ∷ 12 ∷ [];
  digest = 0 ∷ 0 ∷ 0 ∷ 0 ∷ [];
}

abbrev pub destroy_message : Message
destroy_message = record data_message { command = MessageCommand.destroy; payload = [] }

after-Coherent_example : States.Coherent ⦃prim = toy⦄ ⦃net = toy_net⦄ (
    States.after ⦃prim = toy⦄ ⦃net = toy_net⦄ an_entry
      (from_previous draws data_message ∷ from_next data_message ∷ []))
after-Coherent_example =
    after-Coherent ⦃prim = toy⦄ ⦃net = toy_net⦄ an_entry
      (from_previous draws data_message ∷ from_next data_message ∷ []) (States.keyed pair refl refl)

abbrev pub a_registry : Registry.CircuitRegistry ⦃prim = toy⦄ ⦃net = toy_net⦄
a_registry = record {
  circuits = (7, Registry.at_entry an_entry) ∷ (8, Registry.at_middle a_middle) ∷ [];
  next_circuit_id = 1;
}

abbrev exit_state : ExitCryptoState ⦃prim = toy⦄
exit_state = record {
  cipher = pair;
  forward_digest = Digest.new ⦃prim = toy⦄;
  backward_digest = Digest.new ⦃prim = toy⦄;
}

abbrev an_exit : ExitCircuitHandler ⦃prim = toy⦄ ⦃net = toy_net⦄
an_exit = record {
  context = established;
  keypair = keypair;
  streams = [];
  shared_state = some exit_state;
}

abbrev forged : Message
forged = record data_message { digest = [] }

fresh_digest : exit_state.forward_digest.state ≡ toy.sha_update toy.sha_new []
unfolding Digest.new
fresh_digest = refl

forged-Carries : Carries forged.command
forged-Carries = tt

handle_message-refuses_example :
    let r = Handlers.handle_message ⦃prim = toy⦄ ⦃net = toy_net⦄ draws an_exit forged (some []) in
    let tag =
      tag_after ⦃prim = toy⦄ ⦃net = toy_net⦄
        ([] ++ covered ⦃prim = toy⦄ ⦃net = toy_net⦄ exit_state forged) in
    (r ≡ (
      with_state ⦃prim = toy⦄ ⦃net = toy_net⦄ an_exit
          (taken_in ⦃prim = toy⦄ ⦃net = toy_net⦄ [] exit_state forged),
      some [],
      err (digest_mismatch forged.command),
    ))
    ↔ (forged.digest ≢ tag)
handle_message-refuses_example =
    handle_message-refuses ⦃prim = toy⦄ ⦃net = toy_net⦄ toy-IsHash draws an_exit forged []
      exit_state [] refl fresh_digest forged-Carries
