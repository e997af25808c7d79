-- ===== src/Types/Tests.antt =====
-- Exit policies at concrete addresses.
use mini_tor.Prelude.{◌≡◌, ◌↔◌, [], ◌∷◌, true}
use mini_tor.Types.{SocketAddr, v4}
use mini_tor.Types.Policy.{allows, default_policy, Permits, allows_iff}

abbrev web : SocketAddr
web = record { ip = v4 (10 ∷ 0 ∷ 0 ∷ 1 ∷ []); port = 443 }

allows_iff_example : (allows default_policy web ≡ true) ↔ Permits default_policy web
allows_iff_example = allows_iff default_policy web
