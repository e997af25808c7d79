-- ===== src/Relay/Wizard/Focus.antt =====
-- The form of services/relay-node/src/wizard/mod.rs always has a field in focus and a node type.
use mini_tor.Prelude.{
  ℕ, zero, suc, ◌≡◌, ◌≤◌, ◌<◌, refl, List, [], ◌∷◌, length, Bool, true, false, Bool-cases, inl, inr,
  Option, none, some, Option-cases, Result-cases, get_elem?, if◌then◌else◌, ◌==◌, arith,
}
use mini_tor.Types.{entry, middle, exit}
use mini_tor.Relay.Config.{RelayConfig}
use mini_tor.Relay.Wizard.{
  Field, node_type_field, port_field, host_field, directory_url_field, bandwidth_field,
  heartbeat_field, exit_allow_all_field, operator_id_field, WizardState, new, active_fields,
  current, up, down, left, left_in, right, right_in, edit, push_char, pop_char, typed,
  is_some_and_text, Key, esc, key_up, back_tab, key_down, tab, key_left, key_right, backspace,
  enter, other, char, launched, waiting, on_key, validate, checked, wizard_loop,
}

-- The number of fields: an exit has one more.
abbrev pub field_count : ℕ → ℕ
field_count idx = if idx == 2 then 8 else 7

pub record InForm (s : WizardState) : Type 0 where
  pub focus : s.focused < field_count s.node_type_idx
  pub kind : s.node_type_idx ≤ 2

abbrev laid_out : Bool → List Field
laid_out b =
    node_type_field
    ∷ port_field
    ∷ host_field
    ∷ directory_url_field
    ∷ bandwidth_field
    ∷ heartbeat_field
    ∷ (if b then exit_allow_all_field ∷ operator_id_field ∷ [] else operator_id_field ∷ [])

-- The node type is the first field, and only there.
first_field : (b : Bool) (i : ℕ) → get_elem? (laid_out b) i ≡ some node_type_field → i ≡ 0
first_field b zero at = refl
first_field b (suc zero) at = cc
first_field b (suc (suc zero)) at = cc
first_field b (suc (suc (suc zero))) at = cc
first_field b (suc (suc (suc (suc zero)))) at = cc
first_field b (suc (suc (suc (suc (suc zero))))) at = cc
first_field true (suc (suc (suc (suc (suc (suc zero)))))) at = cc
first_field true (suc (suc (suc (suc (suc (suc (suc zero))))))) at = cc
first_field true (suc (suc (suc (suc (suc (suc (suc (suc i)))))))) at = cc
first_field false (suc (suc (suc (suc (suc (suc zero)))))) at = cc
first_field false (suc (suc (suc (suc (suc (suc (suc i))))))) at = cc

get_elem?-total {ℓ} :
    {A : Type ℓ} (xs : List A) (i : ℕ) → i < length xs → (x : A) × (get_elem? xs i ≡ some x)
get_elem?-total [] i small = absurd (omega (arith, small))
get_elem?-total (x ∷ xs) zero small = (x, refl)
get_elem?-total (x ∷ xs) (suc i) small = get_elem?-total xs i (omega (arith, small))

length-active_fields : (s : WizardState) → length (active_fields s) ≡ field_count s.node_type_idx
unfolding active_fields
length-active_fields s = elim (Bool-cases (s.node_type_idx == 2)) [
  | inl is_exit ↦ rw is_exit refl
  | inr is_not ↦ rw is_not refl
]

up-InForm : (s : WizardState) → InForm s → InForm (up s)
unfolding up
up-InForm s is = ground arith

down-InForm : (s : WizardState) → InForm s → InForm (down s)
unfolding down
down-InForm s is = ground (arith, length-active_fields s)

left_in-InForm :
    (o : Option Field) (s : WizardState)
    → ((o ≡ some node_type_field) → s.focused ≡ 0)
    → InForm s
    → InForm (left_in o s)
unfolding left_in
left_in-InForm none s top is = is
left_in-InForm (some node_type_field) s top is = ground (arith, top refl)
left_in-InForm (some exit_allow_all_field) s top is = record { focus = is.focus; kind = is.kind }
left_in-InForm (some port_field) s top is = is
left_in-InForm (some host_field) s top is = is
left_in-InForm (some directory_url_field) s top is = is
left_in-InForm (some bandwidth_field) s top is = is
left_in-InForm (some heartbeat_field) s top is = is
left_in-InForm (some operator_id_field) s top is = is

right_in-InForm :
    (o : Option Field) (s : WizardState)
    → ((o ≡ some node_type_field) → s.focused ≡ 0)
    → InForm s
    → InForm (right_in o s)
unfolding right_in
right_in-InForm none s top is = is
right_in-InForm (some node_type_field) s top is = ground (arith, top refl)
right_in-InForm (some exit_allow_all_field) s top is = record { focus = is.focus; kind = is.kind }
right_in-InForm (some port_field) s top is = is
right_in-InForm (some host_field) s top is = is
right_in-InForm (some directory_url_field) s top is = is
right_in-InForm (some bandwidth_field) s top is = is
right_in-InForm (some heartbeat_field) s top is = is
right_in-InForm (some operator_id_field) s top is = is

edit-InForm :
    (f : List ℕ → List ℕ) (o : Option Field) (s : WizardState) → InForm s → InForm (edit f o s)
unfolding edit
edit-InForm f none s is = is
edit-InForm f (some node_type_field) s is = is
edit-InForm f (some exit_allow_all_field) s is = is
edit-InForm f (some port_field) s is = record { focus = is.focus; kind = is.kind }
edit-InForm f (some host_field) s is = record { focus = is.focus; kind = is.kind }
edit-InForm f (some directory_url_field) s is = record { focus = is.focus; kind = is.kind }
edit-InForm f (some bandwidth_field) s is = record { focus = is.focus; kind = is.kind }
edit-InForm f (some heartbeat_field) s is = record { focus = is.focus; kind = is.kind }
edit-InForm f (some operator_id_field) s is = record { focus = is.focus; kind = is.kind }

typed-InForm : (c : ℕ) (s : WizardState) → InForm s → InForm (typed c s)
unfolding typed push_char
typed-InForm c s is = elim (Bool-cases (is_some_and_text (current s))) [
  | inl text ↦ rw text (edit-InForm _ (current s) s is)
  | inr no_text ↦ rw no_text is
]

current_top : (s : WizardState) → current s ≡ some node_type_field → s.focused ≡ 0
unfolding current active_fields
current_top s at = first_field (s.node_type_idx == 2) s.focused at

new-InForm : (c : RelayConfig) → InForm (new c)
unfolding new
new-InForm c = elim (Option-cases c.node_type) [
  | inl unset ↦ rw unset (record { focus = omega arith; kind = omega arith })
  | inr (entry, set) ↦ rw set (record { focus = omega arith; kind = omega arith })
  | inr (middle, set) ↦ rw set (record { focus = omega arith; kind = omega arith })
  | inr (exit, set) ↦ rw set (record { focus = omega arith; kind = omega arith })
]

module _ (is_ip : List ℕ → Bool) where
  keys-InForm :
      (s s' : WizardState) (ks : List Key)
      → InForm s
      → wizard_loop is_ip s ks ≡ waiting s'
      → InForm s'
  unfolding wizard_loop on_key validate left right pop_char
  keys-InForm s s' [] is done = let same : s ≡ s' = cc in rw (← same) is
  keys-InForm s s' (esc ∷ ks) is done = cc
  keys-InForm s s' (key_up ∷ ks) is done = keys-InForm (up s) s' ks (up-InForm s is) done
  keys-InForm s s' (back_tab ∷ ks) is done = keys-InForm (up s) s' ks (up-InForm s is) done
  keys-InForm s s' (key_down ∷ ks) is done = keys-InForm (down s) s' ks (down-InForm s is) done
  keys-InForm s s' (tab ∷ ks) is done = keys-InForm (down s) s' ks (down-InForm s is) done
  keys-InForm s s' (key_left ∷ ks) is done =
      keys-InForm (left s) s' ks (left_in-InForm (current s) s (current_top s) is) done
  keys-InForm s s' (key_right ∷ ks) is done =
      keys-InForm (right s) s' ks (right_in-InForm (current s) s (current_top s) is) done
  keys-InForm s s' (backspace ∷ ks) is done =
      keys-InForm (pop_char s) s' ks (edit-InForm _ (current s) s is) done
  keys-InForm s s' (char c ∷ ks) is done = keys-InForm (typed c s) s' ks (typed-InForm c s is) done
  keys-InForm s s' (other ∷ ks) is done = keys-InForm s s' ks is done
  keys-InForm s s' (enter ∷ ks) is done = elim (Result-cases (checked is_ip s)) [
    | inl (config, passed) ↦ let ended : launched config ≡ waiting s' = rw passed at done in cc
    | inr (e, failed) ↦
        let goes_on : wizard_loop is_ip (record s { error = some e }) ks ≡ waiting s' =
          rw failed at done in
        keys-InForm (record s { error = some e }) s' ks
          (record { focus = is.focus; kind = is.kind }) goes_on
  ]

  -- Whatever keys are pressed, as long as the form waits it has one of its fields in focus, also after
  -- the number of fields has changed with the node type, and its node type is one of the three.
  pub wizard_loop-InForm :
      (c : RelayConfig) (ks : List Key) (s : WizardState)
      → wizard_loop is_ip (new c) ks ≡ waiting s
      → ((f : Field) × (current s ≡ some f)) × (s.node_type_idx ≤ 2)
  unfolding current
  wizard_loop-InForm c ks s done =
      let is = keys-InForm (new c) s ks (new-InForm c) done in
      (
        get_elem?-total (active_fields s) s.focused
            (omega (arith, is.focus, length-active_fields s)),
        is.kind,
      )
