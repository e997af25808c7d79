-- ===== src/Relay/Entry/Destroyed.antt =====
-- Handlers of relay-node/src/circuit/entry.rs without ciphers, as DESTROY leaves them.
use mini_tor.Prelude.{◌≡◌, refl, none, some, err}
use mini_tor.Protocol.{
  MessageCommand, Message, padding, create, created, extend, extended, destroy, begin, connected,
  data_cell, end,
}
use mini_tor.Crypto.{Primitives}
use mini_tor.Net.{Net}
use mini_tor.Relay.{Draws, not_established}
use mini_tor.Relay.Context
use mini_tor.Relay.Context.{active, closed, initializing, NextHop}
use mini_tor.Relay.Entry
use mini_tor.Relay.Entry.{
  EntryCircuitHandler, with_cipher, handle_create, finish_extend, handle_extend, forward_cell,
  handle_relay, handle_backward_relay, extend_or_relay, dispatch, handle_message,
}

module _ ⦃prim : Primitives⦄ ⦃net : Net⦄ where
  pub relay_without_keys :
      (draws : Draws) (h : EntryCircuitHandler) (msg : Message)
      → h.context.cipher_pair ≡ none
      → handle_relay draws h msg ≡ (h, err not_established)
  unfolding handle_relay
  relay_without_keys draws h msg e = rw e

  pub handle_extend_without_keys :
      (draws : Draws) (h : EntryCircuitHandler) (msg : Message)
      → h.context.cipher_pair ≡ none
      → handle_extend draws h msg ≡ (h, err not_established)
  unfolding handle_extend
  handle_extend_without_keys draws h msg e = rw e

  pub backward_without_keys :
      (h : EntryCircuitHandler) (msg : Message)
      → h.context.cipher_pair ≡ none
      → handle_backward_relay h msg ≡ (h, err not_established)
  unfolding handle_backward_relay
  backward_without_keys h msg e = rw e

  pub extend_at_last :
      (draws : Draws) (h : EntryCircuitHandler) (msg : Message)
      → h.next ≡ none
      → extend_or_relay draws h msg ≡ handle_extend draws h msg
  unfolding extend_or_relay
  extend_at_last draws h msg e = rw e

  pub extend_at_inner :
      (draws : Draws) (h : EntryCircuitHandler) (msg : Message) (hop : NextHop)
      → h.next ≡ some hop
      → extend_or_relay draws h msg ≡ handle_relay draws h msg
  unfolding extend_or_relay
  extend_at_inner draws h msg hop e = rw e

  -- The commands that need no circuit: CREATE makes one, DESTROY and PADDING are always taken.
  abbrev NeedsKeys : MessageCommand → Type 0
  NeedsKeys create = ⊥
  NeedsKeys destroy = ⊥
  NeedsKeys padding = ⊥
  NeedsKeys created = ⊥
  NeedsKeys extended = ⊥
  NeedsKeys _ = Unit

  extend_without_keys :
      (draws : Draws) (h : EntryCircuitHandler) (msg : Message)
      → h.context.cipher_pair ≡ none
      → h.next ≡ none
      → extend_or_relay draws h msg ≡ (h, err not_established)
  extend_without_keys draws h msg e last =
      rw (extend_at_last draws h msg last) (handle_extend_without_keys draws h msg e)

  dispatch_without_keys :
      (command : MessageCommand) (draws : Draws) (h : EntryCircuitHandler) (msg : Message)
      → h.context.cipher_pair ≡ none
      → h.next ≡ none
      → NeedsKeys command
      → dispatch command draws h msg ≡ (h, err not_established)
  unfolding dispatch
  dispatch_without_keys extend draws h msg e last needs = extend_without_keys draws h msg e last
  dispatch_without_keys data_cell draws h msg e last needs = relay_without_keys draws h msg e
  dispatch_without_keys begin draws h msg e last needs = relay_without_keys draws h msg e
  dispatch_without_keys end draws h msg e last needs = relay_without_keys draws h msg e
  dispatch_without_keys connected draws h msg e last needs = relay_without_keys draws h msg e
  dispatch_without_keys create draws h msg e last needs = absurd needs
  dispatch_without_keys destroy draws h msg e last needs = absurd needs
  dispatch_without_keys padding draws h msg e last needs = absurd needs
  dispatch_without_keys created draws h msg e last needs = absurd needs
  dispatch_without_keys extended draws h msg e last needs = absurd needs

  -- After DESTROY, whatever the circuit at the entry relay was, every cell that needs its keys is
  -- refused and changes nothing: nothing reaches a next hop.
  pub destroyed-refuses :
      (draws draws' : Draws) (h : EntryCircuitHandler) (kill msg : Message)
      → kill.command ≡ destroy
      → NeedsKeys msg.command
      → handle_message draws' (handle_message draws h kill).0 msg
        ≡ ((handle_message draws h kill).0, err not_established)
  unfolding handle_message dispatch Entry.close Context.close
  destroyed-refuses draws draws' h kill msg e needs =
      rw e (dispatch_without_keys msg.command draws' (Entry.close h) msg refl refl needs)
