-- ===== src/Relay/Wizard/Launched.antt =====
-- The configurations that the form of services/relay-node/src/wizard/mod.rs launches.
use mini_tor.Prelude.{
  ℕ, ◌^◌, ◌≡◌, refl, List, ◌∷◌, Bool, true, ◌&&◌, Option, none, some, OnOk, OnOk-of, OnOk-guard,
  OnOk-bind, le→leb, arith, parse_uint, parse_uint-to_string, get_elem?, ok_or, is_http, positive,
  IsPositive, positive-IsPositive, bytes_of,
}
use mini_tor.Types.{NodeType, entry, middle, exit}
use mini_tor.Relay.Config.{RelayConfig}
use mini_tor.Relay.Wizard.{
  node_types, no_node_type, bad_port, bad_host, bad_directory_url, bad_bandwidth, bad_heartbeat,
  WizardState, new, index_of, is_exit, or_empty, operator_of, checked, validate, Key, enter,
  launched, on_key, wizard_loop,
}

pub record IsValid (is_ip : List ℕ → Bool) (c : RelayConfig) : Type 0 where
  pub port : IsPositive (2 ^ 16) c.port
  pub host : is_ip c.host ≡ true
  pub url : is_http c.directory_url ≡ true
  pub bandwidth : IsPositive (2 ^ 64) c.bandwidth
  pub heartbeat : IsPositive (2 ^ 64) c.heartbeat_interval

-- An entry, where none is chosen.
abbrev pub type_or_entry : Option NodeType → NodeType
type_or_entry none = entry
type_or_entry (some t) = t

chosen_type : (o : Option NodeType) → get_elem? node_types (index_of o) ≡ some (type_or_entry o)
chosen_type none = refl
chosen_type (some entry) = refl
chosen_type (some middle) = refl
chosen_type (some exit) = refl

module _ (is_ip : List ℕ → Bool) where
  -- A form that is opened on a valid configuration launches at once what it was opened with, but with
  -- the dashboard on, an entry where no node type was set, the allowance of an exit only for an exit,
  -- no operator for an empty one, and 0.0.0.0 as the address to bind to, whatever it was before.
  pub new-launched :
      (c : RelayConfig) (ks : List Key)
      → IsValid is_ip c
      → wizard_loop is_ip (new c) (enter ∷ ks)
        ≡ launched (record c {
          node_type = some (type_or_entry c.node_type);
          bind_host = bytes_of "0.0.0.0";
          exit_allow_all = is_exit c.node_type && c.exit_allow_all;
          tui = true;
          operator_id = operator_of (or_empty c.operator_id);
        })
  unfolding wizard_loop on_key validate checked new
  new-launched c ks is =
      let port_read = parse_uint-to_string (2 ^ 16) c.port is.port.1 in
      let bandwidth_read = parse_uint-to_string (2 ^ 64) c.bandwidth is.bandwidth.1 in
      let heartbeat_read = parse_uint-to_string (2 ^ 64) c.heartbeat_interval is.heartbeat.1 in
      let port_fits = le→leb 1 c.port is.port.0 in
      let bandwidth_fits = le→leb 1 c.bandwidth is.bandwidth.0 in
      let heartbeat_fits = le→leb 1 c.heartbeat_interval is.heartbeat.0 in
      rw
        (
          chosen_type c.node_type,
          port_read,
          port_fits,
          is.host,
          is.url,
          bandwidth_read,
          bandwidth_fits,
          heartbeat_read,
          heartbeat_fits,
        )
        refl

  pub checked-IsValid : (s : WizardState) → OnOk (IsValid is_ip) (checked is_ip s)
  unfolding checked
  checked-IsValid s =
      let Good : RelayConfig → Type 0 = IsValid is_ip in
      OnOk-bind Good (ok_or (get_elem? node_types s.node_type_idx) no_node_type) _ λ t e0.
        OnOk-bind Good (positive (parse_uint (2 ^ 16) s.port) bad_port) _ λ port e1.
          OnOk-guard Good (is_ip s.host) bad_host _ λ host.
            OnOk-guard Good (is_http s.directory_url) bad_directory_url _ λ url.
              OnOk-bind Good (positive (parse_uint (2 ^ 64) s.bandwidth) bad_bandwidth) _
                λ bandwidth e2.
                  OnOk-bind Good (positive (parse_uint (2 ^ 64) s.heartbeat) bad_heartbeat) _
                    λ heartbeat e3. record {
                      port =
                          OnOk-of (IsPositive (2 ^ 16))
                            (positive (parse_uint (2 ^ 16) s.port) bad_port) port
                            (positive-IsPositive (2 ^ 16) s.port bad_port (omega arith)) e1;
                      host = host;
                      url = url;
                      bandwidth =
                          OnOk-of (IsPositive (2 ^ 64))
                            (positive (parse_uint (2 ^ 64) s.bandwidth) bad_bandwidth) bandwidth
                            (positive-IsPositive (2 ^ 64) s.bandwidth bad_bandwidth (omega arith))
                            e2;
                      heartbeat =
                          OnOk-of (IsPositive (2 ^ 64))
                            (positive (parse_uint (2 ^ 64) s.heartbeat) bad_heartbeat) heartbeat
                            (positive-IsPositive (2 ^ 64) s.heartbeat bad_heartbeat (omega arith))
                            e3;
                    }
