-- ===== src/Client/Wizard/Launched.antt =====
-- The configurations that the form of services/tor-client/src/wizard/mod.rs launches.
use mini_tor.Prelude.{
  is_http, positive, IsPositive, positive-IsPositive, ℕ, ◌≡◌, ◌≤◌, refl, List, [], ◌∷◌, Bool, true,
  Bool-cases, ◌&&◌, inl, inr, Option, none, some, Result-cases, OnOk, OnOk-of, OnOk-guard,
  OnOk-bind, leb, ltb, le→leb, arith, parse_uint, parse_uint-to_string,
}
use mini_tor.Client.Config.{TorClientConfig, max_hops, usize}
use mini_tor.Client.Wizard.{
  bad_socks_addr, bad_directory_url, bad_pool_size, bad_rebuild_attempts, WizardState, new,
  checked_hops, checked, validate, Key, esc, key_up, back_tab, key_down, tab, backspace, enter,
  other, char, launched, on_key, wizard_loop, up, down, pop_char, push_char,
}

pub record IsValid (is_socket_addr : List ℕ → Bool) (c : TorClientConfig) : Type 0 where
  pub address : is_socket_addr c.socks_addr ≡ true
  pub url : is_http c.directory_url ≡ true
  pub pool_size : IsPositive usize c.pool_size
  pub least_hops : 3 ≤ c.hops
  pub most_hops : c.hops ≤ 10
  pub attempts : IsPositive usize c.max_rebuild_attempts

abbrev InRange : ℕ → Type 0
InRange h = (3 ≤ h) × (h ≤ 10)

checked_hops-InRange : (o : Option ℕ) → OnOk InRange (checked_hops o)
checked_hops-InRange none = tt
checked_hops-InRange (some h) = elim (Bool-cases (leb 3 h && leb h max_hops)) [
  | inl fits ↦ rw fits (ground (arith, fits))
  | inr strays ↦ elim (Bool-cases (ltb h 3)) [
    | inl small ↦ rw (strays, small) tt
    | inr large ↦ rw (strays, large) tt
  ]
]

module _ (is_socket_addr : List ℕ → Bool) where
  abbrev Good : TorClientConfig → Type 0
  Good c = IsValid is_socket_addr c × (c.tui ≡ true)

  checked-Good : (s : WizardState) → OnOk Good (checked is_socket_addr s)
  unfolding checked
  checked-Good s = OnOk-guard Good (is_socket_addr s.socks_addr) bad_socks_addr _ λ address.
      OnOk-guard Good (is_http s.directory_url) bad_directory_url _ λ url.
        OnOk-bind Good (positive (parse_uint usize s.pool_size) bad_pool_size) _ λ pool_size e1.
          OnOk-bind Good (checked_hops (parse_uint usize s.hops)) _ λ hops e2.
            OnOk-bind Good (positive (parse_uint usize s.max_rebuild_attempts) bad_rebuild_attempts)
              _
              λ attempts e3.
                let many =
                  OnOk-of InRange (checked_hops (parse_uint usize s.hops)) hops
                    (checked_hops-InRange (parse_uint usize s.hops)) e2 in
                (
                  record {
                    address = address;
                    url = url;
                    pool_size =
                        OnOk-of (IsPositive usize)
                          (positive (parse_uint usize s.pool_size) bad_pool_size) pool_size
                          (positive-IsPositive usize s.pool_size bad_pool_size (omega arith)) e1;
                    least_hops = many.0;
                    most_hops = many.1;
                    attempts =
                        OnOk-of (IsPositive usize)
                          (positive (parse_uint usize s.max_rebuild_attempts) bad_rebuild_attempts)
                          attempts
                          (positive-IsPositive usize s.max_rebuild_attempts bad_rebuild_attempts
                            (omega arith))
                          e3;
                  },
                  refl,
                )

  -- Whatever keys are pressed, the form launches only a configuration whose address parses, whose URL
  -- is http or https, with 3 to 10 hops, and a pool and a number of attempts that are at least 1 and
  -- fit a usize; and it turns the dashboard on.
  pub wizard_loop-IsValid :
      (s : WizardState) (ks : List Key) (c : TorClientConfig)
      → wizard_loop is_socket_addr s ks ≡ launched c
      → IsValid is_socket_addr c × (c.tui ≡ true)
  unfolding wizard_loop on_key validate
  wizard_loop-IsValid s [] c done = cc
  wizard_loop-IsValid s (esc ∷ ks) c done = cc
  wizard_loop-IsValid s (key_up ∷ ks) c done = wizard_loop-IsValid (up s) ks c done
  wizard_loop-IsValid s (back_tab ∷ ks) c done = wizard_loop-IsValid (up s) ks c done
  wizard_loop-IsValid s (key_down ∷ ks) c done = wizard_loop-IsValid (down s) ks c done
  wizard_loop-IsValid s (tab ∷ ks) c done = wizard_loop-IsValid (down s) ks c done
  wizard_loop-IsValid s (backspace ∷ ks) c done = wizard_loop-IsValid (pop_char s) ks c done
  wizard_loop-IsValid s (char x ∷ ks) c done = wizard_loop-IsValid (push_char x s) ks c done
  wizard_loop-IsValid s (other ∷ ks) c done = wizard_loop-IsValid s ks c done
  wizard_loop-IsValid s (enter ∷ ks) c done = elim (Result-cases (checked is_socket_addr s)) [
    | inl (config, passed) ↦
        let ended : wizard_loop is_socket_addr s (enter ∷ ks) ≡ launched config = rw passed refl in
        let same : config ≡ c = cc in
        rw (← same) (OnOk-of Good (checked is_socket_addr s) config (checked-Good s) passed)
    | inr (e, failed) ↦
        let goes_on : wizard_loop is_socket_addr (record s { error = some e }) ks ≡ launched c =
          rw failed at done in
        wizard_loop-IsValid (record s { error = some e }) ks c goes_on
  ]

  -- A form that is opened on a valid configuration launches it at once, with the dashboard on.
  pub new-launched :
      (c : TorClientConfig) (ks : List Key)
      → IsValid is_socket_addr c
      → wizard_loop is_socket_addr (new c) (enter ∷ ks) ≡ launched (record c { tui = true })
  unfolding wizard_loop on_key validate checked new
  new-launched c ks is =
      let hops_read = parse_uint-to_string usize c.hops (omega (arith, is.most_hops)) in
      let pool_read = parse_uint-to_string usize c.pool_size is.pool_size.1 in
      let attempts_read = parse_uint-to_string usize c.max_rebuild_attempts is.attempts.1 in
      let pool_fits = le→leb 1 c.pool_size is.pool_size.0 in
      let attempts_fit = le→leb 1 c.max_rebuild_attempts is.attempts.0 in
      let hops_fit : (leb 3 c.hops && leb c.hops max_hops) ≡ true =
        ground (arith, is.least_hops, is.most_hops) in
      rw
        (is.address, is.url, pool_read, pool_fits, hops_read, hops_fit, attempts_read, attempts_fit)
        refl
