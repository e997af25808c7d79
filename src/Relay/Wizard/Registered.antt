-- ===== src/Relay/Wizard/Registered.antt =====
-- From the form of services/relay-node/src/wizard/mod.rs over main.rs to the discovery service.
use mini_tor.Prelude.{
  ℕ, ◌≡◌, refl, List, [], ◌∷◌, Bool, true, false, inl, inr, some, ok, Result-cases, OnOk-of, length,
  arith,
}
use mini_tor.Types.{NodeType, SocketAddr, entry, middle, exit, node_type_eq}
use mini_tor.Types.Policy.{exit_policy}
use mini_tor.Net.{Net}
use mini_tor.Proto.RoundTrip.{IsPolicyIfAny, IsOnWire}
use mini_tor.Discovery.{NodeRegistry}
use mini_tor.Discovery.Nodes.{is_empty}
use mini_tor.Relay.Heartbeat.{register_with_directory}
use mini_tor.Relay.Heartbeat.Listed.{IsListed}
use mini_tor.Relay.Heartbeat.Alive.{registered, own_registration-IsListed}
use mini_tor.Relay.Config.{RelayConfig, descriptor}
use mini_tor.Relay.Wizard.{
  WizardState, Key, esc, key_up, back_tab, key_down, tab, key_left, key_right, backspace, enter,
  other, char, launched, on_key, validate, checked, wizard_loop, up, down, left, right, pop_char,
  typed,
}
use mini_tor.Relay.Wizard.Launched.{IsValid, checked-IsValid}

-- The policies that a configuration makes have ports of 16 bits and addresses of 4 octets.
exit_policy-IsPolicyIfAny :
    (exit_allow_all : Bool) (t : NodeType) → IsPolicyIfAny (exit_policy exit_allow_all t)
unfolding exit_policy node_type_eq
exit_policy-IsPolicyIfAny exit_allow_all entry = tt
exit_policy-IsPolicyIfAny exit_allow_all middle = tt
exit_policy-IsPolicyIfAny true exit = record {
  allowed_u16 = tt;
  blocked_u16 = tt;
  allowed_octets = tt;
  blocked_octets = tt;
}
exit_policy-IsPolicyIfAny false exit = record {
  allowed_u16 = omega arith;
  blocked_u16 = omega arith;
  allowed_octets = tt;
  blocked_octets = (refl, (refl, (refl, (refl, tt))));
}

module _ (is_ip : List ℕ → Bool) where
  wizard_loop-IsValid :
      (s : WizardState) (ks : List Key) (c : RelayConfig)
      → wizard_loop is_ip s ks ≡ launched c
      → IsValid is_ip c
  unfolding wizard_loop on_key validate
  wizard_loop-IsValid s [] c done = cc
  wizard_loop-IsValid s (esc ∷ ks) c done = cc
  wizard_loop-IsValid s (key_up ∷ ks) c done = wizard_loop-IsValid (up s) ks c done
  wizard_loop-IsValid s (back_tab ∷ ks) c done = wizard_loop-IsValid (up s) ks c done
  wizard_loop-IsValid s (key_down ∷ ks) c done = wizard_loop-IsValid (down s) ks c done
  wizard_loop-IsValid s (tab ∷ ks) c done = wizard_loop-IsValid (down s) ks c done
  wizard_loop-IsValid s (key_left ∷ ks) c done = wizard_loop-IsValid (left s) ks c done
  wizard_loop-IsValid s (key_right ∷ ks) c done = wizard_loop-IsValid (right s) ks c done
  wizard_loop-IsValid s (backspace ∷ ks) c done = wizard_loop-IsValid (pop_char s) ks c done
  wizard_loop-IsValid s (char x ∷ ks) c done = wizard_loop-IsValid (typed x s) ks c done
  wizard_loop-IsValid s (other ∷ ks) c done = wizard_loop-IsValid s ks c done
  wizard_loop-IsValid s (enter ∷ ks) c done = elim (Result-cases (checked is_ip s)) [
    | inl (config, passed) ↦
        let ended : launched config ≡ launched c = rw passed at done in
        let same : config ≡ c = cc in
        rw (← same)
          (OnOk-of (IsValid is_ip) (checked is_ip s) config (checked-IsValid is_ip s) passed)
    | inr (e, failed) ↦
        let goes_on : wizard_loop is_ip (record s { error = some e }) ks ≡ launched c =
          rw failed at done in
        wizard_loop-IsValid (record s { error = some e }) ks c goes_on
  ]

  -- A relay that was configured in the form, whatever keys were pressed, is let in by the discovery
  -- service: its registration succeeds, and it is in the registry under its descriptor. This is for an
  -- id that is not empty, a key of 32 bytes, and an address that parses back from its text.
  pub wizard_loop-registered :
      ⦃net : Net⦄ (s : WizardState) (ks : List Key) (c : RelayConfig) (t : NodeType)
      (node_id key fingerprint : List ℕ) (address : SocketAddr) (now : ℕ) (r : NodeRegistry)
      → wizard_loop is_ip s ks ≡ launched c
      → is_empty node_id ≡ false
      → length key ≡ 32
      → net.parse_addr (net.show_addr address) ≡ some address
      → let d = descriptor c t node_id address key fingerprint in
        ((register_with_directory now r d).1 ≡ ok tt)
        × IsListed d now (register_with_directory now r d).0
  unfolding descriptor
  wizard_loop-registered s ks c t node_id key fingerprint address now r done named keyed read =
      let d = descriptor c t node_id address key fingerprint in
      let valid = wizard_loop-IsValid s ks c done in
      let wire : IsOnWire d = record {
        key = keyed;
        policy = exit_policy-IsPolicyIfAny c.exit_allow_all t;
        address = read;
      } in
      let answered = registered d now r wire named valid.bandwidth.0 in
      rw answered (refl, own_registration-IsListed d now r)
