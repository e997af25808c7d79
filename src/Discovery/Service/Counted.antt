-- ===== src/Discovery/Service/Counted.antt =====
-- All requests that the discovery service serves (api/grpc.rs), and what its counters show then.
use mini_tor.Prelude.{ℕ, ◌≡◌, refl, ap, ◌∙◌, subst, Result-cases, List, [], ◌∷◌, some, ok, inl, inr}
use mini_tor.Types.{NodeDescriptor}
use mini_tor.Net.{Net}
use mini_tor.Proto.{ProtoNodeDescriptor, descriptor_of}
use mini_tor.Discovery.{NodeRegistry}
use mini_tor.Discovery.Nodes.{is_ready}
use mini_tor.Discovery.Events.{DiscoveryMetrics, new, push_event, health_check, stats_queried}
use mini_tor.Discovery.Api
use mini_tor.Discovery.Api.{Status, accept, if_converted}
use mini_tor.Discovery.Service.{
  AppState, note_removal, note_heartbeat, note_path, note_registration, Request, health,
  stats_request, register, remove, beat, path, clean, serve, serve_all, health_check_on, get_stats,
  register_node, remove_node, update_heartbeat, get_random_path, cleanup_round,
}
use mini_tor.Discovery.Service.Counts.{
  Totals, nothing, plus, if_ok, Shows, Shown, one_registered, one_removed, one_beaten, one_path,
  cleaned_by, up, same, still, noted-Shown, on_ok-Shown, push_event-Shows, note_removal-Shows,
  note_heartbeat-Shows, note_path-Shows, cleanup_round-Shown,
}

module _ ⦃net : Net⦄ where
  note_registration-Shows :
      (t : Totals) (now : ℕ) (d : NodeDescriptor) (m : DiscoveryMetrics)
      → Shows t m
      → Shows (plus t one_registered) (note_registration now (ok d) m)
  unfolding note_registration push_event
  note_registration-Shows t now d m (a, b, c, d', e) =
      (up 1 t.registered a, same t.removed b, same t.beaten c, same t.paths d', same t.cleaned e)

  register_node-Shown :
      (t : Totals) (now : ℕ) (s : AppState) (d : ProtoNodeDescriptor)
      → Shown t s.metrics
      → Shown
          (plus t (if_ok (Api.register_node now s.registry d).1 one_registered))
          (register_node now s d).0.metrics
  unfolding register_node Api.register_node if_converted
  register_node-Shown t now s d shown = elim (Result-cases (descriptor_of d)) [
    | inl (d', converted) ↦ rw converted (
        on_ok-Shown t one_registered (note_registration now (ok d'))
          (note_registration-Shows t now d') (accept now s.registry d').1 s.metrics shown)
    | inr (e, bad) ↦ rw bad (still t s.metrics shown)
  ]

  -- What a request adds to the counters, and what it makes of the registry.
  abbrev pub gain : ℕ → NodeRegistry → Request → Totals
  gain now r health = nothing
  gain now r stats_request = nothing
  gain now r (register d) = if_ok (Api.register_node now r d).1 one_registered
  gain now r (remove node_id) = if_ok (Api.remove_node r node_id).1 one_removed
  gain now r (beat node_id metrics) =
      if_ok (Api.update_heartbeat now r node_id metrics).1 one_beaten
  gain now r (path is_loopback draw count) =
      if_ok (Api.random_path is_loopback draw r count) one_path
  gain now r (clean timeout) = record nothing { cleaned = cleaned_by now r timeout }

  abbrev pub registry_after : ℕ → NodeRegistry → Request → NodeRegistry
  registry_after now r health = r
  registry_after now r stats_request = r
  registry_after now r (register d) = (Api.register_node now r d).0
  registry_after now r (remove node_id) = (Api.remove_node r node_id).0
  registry_after now r (beat node_id metrics) = (Api.update_heartbeat now r node_id metrics).0
  registry_after now r (path is_loopback draw count) = r
  registry_after now r (clean timeout) = Api.cleanup_round timeout now r

  abbrev pub totals : Totals → NodeRegistry → List (ℕ × Request) → Totals
  totals t r [] = t
  totals t r ((now, request) ∷ rest) =
      totals (plus t (gain now r request)) (registry_after now r request) rest

  abbrev pub registry_after_all : NodeRegistry → List (ℕ × Request) → NodeRegistry
  registry_after_all r [] = r
  registry_after_all r ((now, request) ∷ rest) =
      registry_after_all (registry_after now r request) rest

  serve-registry :
      (now : ℕ) (s : AppState) (request : Request)
      → (serve now s request).registry ≡ registry_after now s.registry request
  unfolding serve health_check_on get_stats register_node remove_node update_heartbeat
      get_random_path cleanup_round Api.cleanup_round
  serve-registry now s health = refl
  serve-registry now s stats_request = refl
  serve-registry now s (register d) = refl
  serve-registry now s (remove node_id) = refl
  serve-registry now s (beat node_id metrics) = refl
  serve-registry now s (path is_loopback draw count) = refl
  serve-registry now s (clean timeout) = refl

  serve-Shown :
      (t : Totals) (now : ℕ) (s : AppState) (request : Request)
      → Shown t s.metrics
      → Shown (plus t (gain now s.registry request)) (serve now s request).metrics
  unfolding serve health_check_on get_stats remove_node update_heartbeat get_random_path
  serve-Shown t now s health shown =
      let kind = health_check (is_ready s.registry) in
      noted-Shown t nothing (push_event now kind) (λ m. push_event-Shows t now m kind) s.metrics
        shown
  serve-Shown t now s stats_request shown =
      noted-Shown t nothing (push_event now stats_queried)
        (λ m. push_event-Shows t now m stats_queried) s.metrics shown
  serve-Shown t now s (register d) shown = register_node-Shown t now s d shown
  serve-Shown t now s (remove id) shown =
      on_ok-Shown t one_removed (note_removal now id) (λ m. note_removal-Shows t now m id)
        (Api.remove_node s.registry id).1 s.metrics shown
  serve-Shown t now s (beat id metrics) shown =
      on_ok-Shown t one_beaten (note_heartbeat now id) (λ m. note_heartbeat-Shows t now m id)
        (Api.update_heartbeat now s.registry id metrics).1 s.metrics shown
  serve-Shown t now s (path is_loopback draw count) shown =
      on_ok-Shown t one_path (note_path now) (note_path-Shows t now)
        (Api.random_path is_loopback draw s.registry count) s.metrics shown
  serve-Shown t now s (clean timeout) shown = cleanup_round-Shown t timeout now s shown

  serve_all-Shown :
      (t : Totals) (r : NodeRegistry) (s : AppState) (requests : List (ℕ × Request))
      → s.registry ≡ r
      → Shown t s.metrics
      → ((serve_all s requests).registry ≡ registry_after_all r requests)
        × Shown (totals t r requests) (serve_all s requests).metrics
  unfolding serve_all
  serve_all-Shown t r s [] is shown = (is, shown)
  serve_all-Shown t r s ((now, request) ∷ rest) is shown =
      let at : NodeRegistry = s.registry in
      serve_all-Shown (plus t (gain now r request)) (registry_after now r request)
        (serve now s request) rest
        (serve-registry now s request ∙ ap (λ (x : NodeRegistry). registry_after now x request) is)
        (subst
          (λ (x : NodeRegistry). Shown (plus t (gain now x request)) (serve now s request).metrics)
          is (serve-Shown t now s request shown))

  -- The counters of a service that starts with metrics tell, modulo 2^64, how many registrations,
  -- removals, heartbeats and path requests succeeded and how many nodes the clean-ups dropped,
  -- whatever was asked and in whatever order; what failed is not counted. The counting leaves the
  -- registry to the requests.
  pub serve_all-counts :
      (start : ℕ) (r : NodeRegistry) (requests : List (ℕ × Request))
      → let s = serve_all (record { registry = r; metrics = some (new start) }) requests in
        (s.registry ≡ registry_after_all r requests) × Shown (totals nothing r requests) s.metrics
  unfolding new
  serve_all-counts start r requests =
      serve_all-Shown nothing r (record { registry = r; metrics = some (new start) }) requests refl
        (new start, refl, (refl, refl, refl, refl, refl))
