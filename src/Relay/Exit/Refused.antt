-- ===== src/Relay/Exit/Refused.antt =====
-- What the exit of relay-node/src/circuit/exit.rs does with a cell whose digest does not match.
use mini_tor.Prelude.{◌≡◌, refl, false, some, err}
use mini_tor.Protocol.{
  MessageCommand, Message, padding, create, created, extend, extended, destroy, begin, connected,
  data_cell, end,
}
use mini_tor.Crypto.{Primitives}
use mini_tor.Net.{Net}
use mini_tor.Relay.{Draws, digest_mismatch}
use mini_tor.Relay.Exit.{ExitCryptoState, ExitCircuitHandler, open_forward, with_state}
use mini_tor.Relay.Exit.Handlers.{handle_begin, handle_data, handle_end, begin_with, dispatch}

-- The commands that carry onion data to the exit.
abbrev pub Carries : MessageCommand → Type 0
Carries begin = Unit
Carries data_cell = Unit
Carries end = Unit
Carries _ = ⊥

module _ ⦃prim : Primitives⦄ ⦃net : Net⦄ where
  module _ (draws : Draws) (h : ExitCircuitHandler) (msg : Message) (w : net.WriteHalf)
      (state : ExitCryptoState) (ready : h.shared_state ≡ some state)
      (bad : (open_forward state msg).2 ≡ false) where
    refused_begin :
        handle_begin draws h msg w
        ≡ (with_state h (open_forward state msg).0, w, err (digest_mismatch begin))
    unfolding handle_begin
    refused_begin = rw (ready, bad)

    refused_data :
        handle_data h msg
        ≡ (with_state h (open_forward state msg).0, err (digest_mismatch data_cell))
    unfolding handle_data
    refused_data = rw (ready, bad)

    refused_end :
        handle_end h msg ≡ (with_state h (open_forward state msg).0, err (digest_mismatch end))
    unfolding handle_end
    refused_end = rw (ready, bad)

    pub dispatch_refused :
        (command : MessageCommand)
        → Carries command
        → dispatch command draws h msg (some w)
          ≡ (with_state h (open_forward state msg).0, some w, err (digest_mismatch command))
    unfolding dispatch begin_with
    dispatch_refused begin carries = rw refused_begin refl
    dispatch_refused data_cell carries = rw refused_data refl
    dispatch_refused end carries = rw refused_end refl
    dispatch_refused create carries = absurd carries
    dispatch_refused created carries = absurd carries
    dispatch_refused extend carries = absurd carries
    dispatch_refused extended carries = absurd carries
    dispatch_refused destroy carries = absurd carries
    dispatch_refused padding carries = absurd carries
    dispatch_refused connected carries = absurd carries
