-- ===== src/Relay/Exit/Integrity.antt =====
-- The digests that the exit of relay-node/src/circuit/exit.rs asks for.
use mini_tor.Prelude.{
  ℕ, ◌≡◌, ◌≢◌, ◌↔◌, Option, ◌∙◌, ap, sym, subst, true, Bool-cases, inl, inr, some, err, List, [],
  ◌∷◌, ◌++◌, take, slice-IsSome, bytes_eq, bytes_eq_iff, arith,
}
use mini_tor.Protocol.{Message, to_u8}
use mini_tor.Protocol.Bytes.{be16}
use mini_tor.Crypto.{Primitives}
use mini_tor.Crypto.Cipher.{apply_forward}
use mini_tor.Crypto.Digest.{tag_of, tag_from, update, verify}
use mini_tor.Crypto.Laws.{IsHash}
use mini_tor.Net.{Net}
use mini_tor.Relay.{Reply, Draws, digest_mismatch}
use mini_tor.Relay.Exit.{ExitCryptoState, ExitCircuitHandler, open_forward, with_state}
use mini_tor.Relay.Exit.Handlers.{handle_message}
use mini_tor.Relay.Exit.Refused.{Carries, dispatch_refused}
use mini_tor.Relay.Exit.Accepted.{NoMismatch, dispatch-NoMismatch}

module _ ⦃prim : Primitives⦄ ⦃net : Net⦄ where
  -- The bytes of a cell that the digest covers, decrypted, and the first four bytes of the SHA-256 of all
  -- cells of a direction up to this one.
  abbrev pub covered : ExitCryptoState → Message → List ℕ
  covered state msg =
      be16 msg.stream_id
      ++ (to_u8 msg.command ∷ (prim.apply_keystream state.cipher.forward msg.payload).1)

  abbrev pub tag_after : List ℕ → List ℕ
  tag_after seen = take 4 (prim.sha_finalize (prim.sha_update prim.sha_new seen))

  -- The state after the cell: the keystream has moved on, and the digest has taken the cell in.
  abbrev pub taken_in : List ℕ → ExitCryptoState → Message → ExitCryptoState
  taken_in seen state msg = record state {
    cipher = record state.cipher {
      forward = (prim.apply_keystream state.cipher.forward msg.payload).0;
    };
    forward_digest = record { state = prim.sha_update prim.sha_new (seen ++ covered state msg) };
  }

  module _ (laws : IsHash prim) (state : ExitCryptoState) (msg : Message) (seen : List ℕ)
      (past : state.forward_digest.state ≡ prim.sha_update prim.sha_new seen) where
    tag_of-take : (s : prim.Sha256) → tag_of (prim.sha_finalize s) ≡ take 4 (prim.sha_finalize s)
    tag_of-take s =
        ap tag_from (slice-IsSome 0 4 (prim.sha_finalize s) (omega (arith, laws.has_32_bytes s)))

    hashed :
        prim.sha_update
          (prim.sha_update
            (prim.sha_update state.forward_digest.state (be16 msg.stream_id))
            (to_u8 msg.command ∷ []))
          (prim.apply_keystream state.cipher.forward msg.payload).1
        ≡ prim.sha_update prim.sha_new (seen ++ covered state msg)
    hashed =
        let plain = (prim.apply_keystream state.cipher.forward msg.payload).1 in
        laws.appends (prim.sha_update state.forward_digest.state (be16 msg.stream_id))
          (to_u8 msg.command ∷ []) plain
        ∙ laws.appends state.forward_digest.state (be16 msg.stream_id) (to_u8 msg.command ∷ plain)
        ∙ ap (λ (s : prim.Sha256). prim.sha_update s (covered state msg)) past
        ∙ laws.appends prim.sha_new seen (covered state msg)

    open_forward-taken_in : (open_forward state msg).0 ≡ taken_in seen state msg
    unfolding open_forward verify update apply_forward
    open_forward-taken_in =
        ap
          (λ (s : prim.Sha256). record state {
            cipher = record state.cipher {
              forward = (prim.apply_keystream state.cipher.forward msg.payload).0;
            };
            forward_digest = record { state = s };
          })
          hashed

    open_forward-tag :
        (open_forward state msg).2 ≡ bytes_eq (tag_after (seen ++ covered state msg)) msg.digest
    unfolding open_forward verify update apply_forward
    open_forward-tag =
        ap (λ (s : prim.Sha256). bytes_eq (tag_of (prim.sha_finalize s)) msg.digest) hashed
        ∙ ap (λ (t : List ℕ). bytes_eq t msg.digest)
            (tag_of-take (prim.sha_update prim.sha_new (seen ++ covered state msg)))

  -- An established exit refuses a BEGIN, DATA or END cell for its digest, and does nothing else with it,
  -- exactly when the digest of the cell is not the first four bytes of the SHA-256 of all that came
  -- before and of this cell: its stream id, its command and its decrypted data. Nothing else: no
  -- connection is opened, no stream is closed or gets data, nothing is written to the previous hop, and
  -- only the keystream and the digest move on. This is for a hash that takes its data in pieces and gives
  -- 32 bytes.
  pub handle_message-refuses :
      (laws : IsHash prim) (draws : Draws) (h : ExitCircuitHandler) (msg : Message)
      (w : net.WriteHalf) (state : ExitCryptoState) (seen : List ℕ)
      → h.shared_state ≡ some state
      → state.forward_digest.state ≡ prim.sha_update prim.sha_new seen
      → Carries msg.command
      → let r = handle_message draws h msg (some w) in
        let tag = tag_after (seen ++ covered state msg) in
        (r ≡ (with_state h (taken_in seen state msg), some w, err (digest_mismatch msg.command)))
        ↔ (msg.digest ≢ tag)
  unfolding handle_message
  handle_message-refuses laws draws h msg w state seen ready past carries =
      let tag = tag_after (seen ++ covered state msg) in
      let checked = open_forward-tag laws state msg seen past in
      let next = open_forward-taken_in laws state msg seen past in
      (
        λ refused right.
            let same : bytes_eq tag msg.digest ≡ true =
              (bytes_eq_iff tag msg.digest).1 (sym right) in
            subst NoMismatch
              (ap (λ (r : ExitCircuitHandler × Option net.WriteHalf × Reply). r.2) refused)
              (dispatch-NoMismatch draws h msg w state ready (checked ∙ same) msg.command carries),
        λ wrong. elim (Bool-cases (bytes_eq tag msg.digest)) [
          | inl same ↦ absurd (wrong (sym ((bytes_eq_iff tag msg.digest).0 same)))
          | inr differ ↦
              dispatch_refused draws h msg w state ready (checked ∙ differ) msg.command carries
              ∙ ap
                  (λ (s : ExitCryptoState).
                    (with_state h s, some w, err (digest_mismatch msg.command)))
                  next
        ],
      )
