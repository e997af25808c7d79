-- ===== src/Relay/Middle/States.antt =====
-- The states that a circuit of relay-node/src/circuit/middle.rs can be in.
use mini_tor.Prelude.{
  ℕ, ◌≡◌, ◌≢◌, refl, List, length, Bool-cases, none, some, Option-cases, Result-cases, inl, inr,
  ltb, [], ◌∷◌,
}
use mini_tor.Protocol.{
  MessageCommand, Message, padding, create, created, extend, extended, destroy, begin, connected,
  data_cell, end,
}
use mini_tor.Protocol.Cells
use mini_tor.Crypto.{Primitives}
use mini_tor.Crypto.Cipher.{CipherPair, apply_forward, apply_backward}
use mini_tor.Crypto.Ntor.{KeyPair}
use mini_tor.Net.{Net}
use mini_tor.Relay.{Draws, Reply}
use mini_tor.Relay.Context
use mini_tor.Relay.Context.{active, closed, initializing, NextHop}
use mini_tor.Relay.Extend.{open_next_hop}
use mini_tor.Relay.Middle
use mini_tor.Relay.Middle.{
  MiddleCircuitHandler, with_cipher, handle_create, finish_extend, handle_extend, forward_cell,
  handle_relay, handle_backward_relay, handle_extended, extend_or_relay, dispatch, handle_message,
}
use mini_tor.Relay.Middle.Destroyed.{
  relay_without_keys, handle_extend_without_keys, backward_without_keys, extend_at_last,
  extend_at_inner,
}

module _ ⦃prim : Primitives⦄ ⦃net : Net⦄ where
  -- A circuit is active and has its ciphers, or it is not active and has neither ciphers nor a next
  -- hop.
  pub data Coherent (h : MiddleCircuitHandler) : Type 0 where
    keyed :
        (c : CipherPair) → h.context.cipher_pair ≡ some c → h.context.state ≡ active → Coherent h
    unkeyed : h.context.cipher_pair ≡ none → h.context.state ≢ active → h.next ≡ none → Coherent h

  pub new-Coherent : (id : ℕ) (kp : KeyPair) → Coherent (Middle.new id kp)
  unfolding Middle.new Context.new
  new-Coherent id kp = unkeyed refl (λ e. cc) refl

  is_active :
      (h : MiddleCircuitHandler) (c : CipherPair)
      → Coherent h
      → h.context.cipher_pair ≡ some c
      → h.context.state ≡ active
  is_active h c (keyed k e act) e' = act
  is_active h c (unkeyed e act none_next) e' = cc

  close-Coherent : (h : MiddleCircuitHandler) → Coherent (Middle.close h)
  unfolding Middle.close Context.close
  close-Coherent h = unkeyed refl (λ e. cc) refl

  handle_create-Coherent :
      (draws : Draws) (h : MiddleCircuitHandler) (msg : Message)
      → Coherent h
      → Coherent (handle_create draws h msg).0
  unfolding handle_create Context.activate
  handle_create-Coherent draws h msg coh = elim (Bool-cases (ltb (length msg.payload) 32)) [
    | inl short ↦ rw short coh
    | inr long ↦ rw long (keyed _ refl refl)
  ]

  finish_extend-Coherent :
      (h : MiddleCircuitHandler) (c : CipherPair) (stream : net.Stream) (m : Message)
      → h.context.cipher_pair ≡ some c
      → h.context.state ≡ active
      → Coherent (finish_extend h c stream m).0
  unfolding finish_extend Cells.extended
  finish_extend-Coherent h c stream m e act = elim (Bool-cases (ltb (length m.payload) 32)) [
    | inl short ↦ rw short (keyed c e act)
    | inr long ↦ rw long (keyed (apply_backward c m.payload).0 refl act)
  ]

  handle_extend-Coherent :
      (draws : Draws) (h : MiddleCircuitHandler) (msg : Message)
      → Coherent h
      → Coherent (handle_extend draws h msg).0
  unfolding handle_extend
  handle_extend-Coherent draws h msg coh = elim (Option-cases h.context.cipher_pair) [
    | inl e ↦ rw (handle_extend_without_keys draws h msg e) coh
    | inr (c, e) ↦
        let act = is_active h c coh e in
        let c' = (apply_forward c msg.payload).0 in
        let r = open_next_hop draws h.context.circuit_id (apply_forward c msg.payload).1 in
        elim (Result-cases r) [
          | inl (a, done) ↦
              rw (e, handle_extend, done)
                (finish_extend-Coherent (with_cipher h c') c' a.0 a.1 refl act)
          | inr (x, refused) ↦ rw (e, handle_extend, refused) (keyed c' refl act)
        ]
  ]

  forward_cell-Coherent :
      (draws : Draws) (h : MiddleCircuitHandler) (msg : Message) (c : CipherPair)
      → h.context.cipher_pair ≡ some c
      → h.context.state ≡ active
      → Coherent (forward_cell draws h msg).0
  unfolding forward_cell
  forward_cell-Coherent draws h msg c e act = elim (Option-cases h.next) [
    | inl last ↦ rw last (keyed c e act)
    | inr (hop, inner) ↦ rw inner (keyed c e act)
  ]

  handle_relay-Coherent :
      (draws : Draws) (h : MiddleCircuitHandler) (msg : Message)
      → Coherent h
      → Coherent (handle_relay draws h msg).0
  unfolding handle_relay
  handle_relay-Coherent draws h msg coh = elim (Option-cases h.context.cipher_pair) [
    | inl e ↦ rw (relay_without_keys draws h msg e) coh
    | inr (c, e) ↦
        let c' = (apply_forward c msg.payload).0 in
        rw e (forward_cell-Coherent draws (with_cipher h c') _ c' refl (is_active h c coh e))
  ]

  extend_or_relay-Coherent :
      (draws : Draws) (h : MiddleCircuitHandler) (msg : Message)
      → Coherent h
      → Coherent (extend_or_relay draws h msg).0
  extend_or_relay-Coherent draws h msg coh = elim (Option-cases h.next) [
    | inl last ↦ rw (extend_at_last draws h msg last) (handle_extend-Coherent draws h msg coh)
    | inr (hop, inner) ↦
        rw (extend_at_inner draws h msg hop inner) (handle_relay-Coherent draws h msg coh)
  ]

  pub dispatch-Coherent :
      (command : MessageCommand) (draws : Draws) (h : MiddleCircuitHandler) (msg : Message)
      → Coherent h
      → Coherent (dispatch command draws h msg).0
  unfolding dispatch handle_extended
  dispatch-Coherent create draws h msg coh = handle_create-Coherent draws h msg coh
  dispatch-Coherent extend draws h msg coh = extend_or_relay-Coherent draws h msg coh
  dispatch-Coherent data_cell draws h msg coh = handle_relay-Coherent draws h msg coh
  dispatch-Coherent begin draws h msg coh = handle_relay-Coherent draws h msg coh
  dispatch-Coherent end draws h msg coh = handle_relay-Coherent draws h msg coh
  dispatch-Coherent connected draws h msg coh = handle_relay-Coherent draws h msg coh
  dispatch-Coherent destroy draws h msg coh = close-Coherent h
  dispatch-Coherent padding draws h msg coh = coh
  dispatch-Coherent created draws h msg coh = coh
  dispatch-Coherent extended draws h msg coh = elim (Bool-cases (ltb (length msg.payload) 32)) [
    | inl short ↦ rw short coh
    | inr long ↦ rw long coh
  ]

  pub handle_backward_relay-Coherent :
      (h : MiddleCircuitHandler) (msg : Message)
      → Coherent h
      → Coherent (handle_backward_relay h msg).0
  unfolding handle_backward_relay
  handle_backward_relay-Coherent h msg coh = elim (Option-cases h.context.cipher_pair) [
    | inl e ↦ rw (backward_without_keys h msg e) coh
    | inr (c, e) ↦ rw e (keyed (apply_backward c msg.payload).0 refl (is_active h c coh e))
  ]

  -- What a circuit at this relay does next: a message of the previous hop, or one of the next hop.
  pub data Event : Type 0 where
    from_previous : Draws → Message → Event
    from_next : Message → Event

  unfoldable pub step : MiddleCircuitHandler → Event → MiddleCircuitHandler × Reply
  step h (from_previous draws msg) = handle_message draws h msg
  step h (from_next msg) = handle_backward_relay h msg

  unfoldable pub after : MiddleCircuitHandler → List Event → MiddleCircuitHandler
  after h [] = h
  after h (ev ∷ evs) = after (step h ev).0 evs

  -- Whatever messages arrive, in any order and from both sides, a coherent middle handler stays coherent:
  -- it is active exactly while it has ciphers, and it keeps a next hop only while it is active.
  pub middle_after-Coherent :
      (h : MiddleCircuitHandler) (evs : List Event) → Coherent h → Coherent (after h evs)
  unfolding after step handle_message
  middle_after-Coherent h [] coh = coh
  middle_after-Coherent h (from_previous draws msg ∷ evs) coh =
      middle_after-Coherent (handle_message draws h msg).0 evs
        (dispatch-Coherent msg.command draws h msg coh)
  middle_after-Coherent h (from_next msg ∷ evs) coh =
      middle_after-Coherent (handle_backward_relay h msg).0 evs
        (handle_backward_relay-Coherent h msg coh)
