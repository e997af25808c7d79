-- ===== src/Discovery/Service/Tests.antt =====
-- Three requests to a concrete service: a registration, a removal that fails, and a clean-up.
use mini_tor.Prelude.{◌≡◌, ℕ, List, [], ◌∷◌, some}
use mini_tor.Net.Tests.{toy_net}
use mini_tor.Proto.Tests.{on_wire}
use mini_tor.Discovery.Tests.{a_registry}
use mini_tor.Discovery.Events.{new}
use mini_tor.Discovery.Service.{AppState, Request, register, remove, clean, serve_all}
use mini_tor.Discovery.Service.Counts.{Shown, nothing}
use mini_tor.Discovery.Service.Counted.{totals, registry_after_all, serve_all-counts}

abbrev requests : List (ℕ × Request ⦃net = toy_net⦄)
requests = (5, register on_wire) ∷ (6, remove (7 ∷ [])) ∷ (100, clean 60) ∷ []

abbrev served : AppState
served =
    serve_all ⦃net = toy_net⦄ (record { registry = a_registry; metrics = some (new 0) }) requests

serve_all-counts_example :
    (served.registry ≡ registry_after_all ⦃net = toy_net⦄ a_registry requests)
    × Shown (totals ⦃net = toy_net⦄ nothing a_registry requests) served.metrics
serve_all-counts_example = serve_all-counts ⦃net = toy_net⦄ 0 a_registry requests
