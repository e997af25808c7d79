-- ===== src/Discovery/Dashboard.antt =====
-- services/discovery/src/api/rest.rs: what the web page is served. The router, JSON and the headers but
-- for the content type are not modelled. Times are in seconds. The handler takes the lock of the
-- registry three times, so that it may read three states of it.
mod Quiet
mod Tests
use mathlib.Core.List.{reverse}
use mini_tor.Prelude.{
  ℕ, ◌-◌, List, [], ◌∷◌, ◌++◌, map, take, Option, none, some, Bool, ◌==◌, if◌then◌else◌, bytes_of,
  bytes_eq, to_string, ◌||◌,
}
use mini_tor.Types.{NodeDescriptor, NodeMetrics}
use mini_tor.Metrics.{TuiEvent, snapshot}
use mini_tor.Discovery.{NodeEntry, NodeRegistry}
use mini_tor.Discovery.Nodes.{is_ready}
use mini_tor.Discovery.Stats.{RegistryStats, get_stats, get_all_entries}
use mini_tor.Discovery.Events.{
  EventKind, DiscoveryMetrics, node_registered, node_removed, heartbeat, path_requested,
  stale_cleanup, stats_queried, health_check, error,
}

pub record MetricsSummary : Type 0 where
  pub registrations : ℕ
  pub removals : ℕ
  pub heartbeats : ℕ
  pub path_requests : ℕ
  pub stale_cleaned : ℕ
  pub uptime_secs : ℕ

pub record EventEntry : Type 0 where
  pub elapsed_secs : ℕ
  pub event_type : List ℕ
  pub label : List ℕ
  pub detail : List ℕ

pub record NodeWithMetrics : Type 0 where
  pub descriptor : NodeDescriptor
  pub metrics : Option NodeMetrics

pub record DashboardResponse : Type 0 where
  pub nodes : List NodeWithMetrics
  pub stats : RegistryStats
  pub metrics : MetricsSummary
  pub ready : Bool
  pub events : List EventEntry

abbrev entry_of : ℕ → List ℕ → List ℕ → List ℕ → EventEntry
entry_of elapsed event_type label detail = record {
  elapsed_secs = elapsed;
  event_type = event_type;
  label = label;
  detail = detail;
}

abbrev check_text : Bool → List ℕ
check_text ready = if ready then bytes_of "check: ready" else bytes_of "check: NOT ready"

abbrev entry_at : ℕ → EventKind → EventEntry
entry_at at (node_registered id kind address) =
    entry_of at (bytes_of "register") (bytes_of "+ REGISTER")
      (kind ++ (bytes_of " " ++ (id ++ (bytes_of " @ " ++ address))))
entry_at at (node_removed id) = entry_of at (bytes_of "remove") (bytes_of "- REMOVE") id
entry_at at (heartbeat id) = entry_of at (bytes_of "heartbeat") (bytes_of "heart HEARTBEAT") id
entry_at at path_requested =
    entry_of at (bytes_of "path") (bytes_of "-> PATH") (bytes_of "random 3-hop path requested")
entry_at at (stale_cleanup removed) =
    entry_of at (bytes_of "cleanup") (bytes_of "x CLEANUP")
      (to_string removed ++ bytes_of " stale node(s) removed")
entry_at at stats_queried =
    entry_of at (bytes_of "stats") (bytes_of "i STATS") (bytes_of "stats queried")
entry_at at (health_check ready) =
    entry_of at (bytes_of "health") (bytes_of "i HEALTH") (check_text ready)
entry_at at (error message) = entry_of at (bytes_of "error") (bytes_of "x ERROR") message

unfoldable pub event_to_entry : TuiEvent EventKind → EventEntry
event_to_entry e = entry_at e.elapsed e.kind

abbrev pub node_of : NodeEntry → NodeWithMetrics
node_of e = record { descriptor = e.descriptor; metrics = e.metrics }

unfoldable pub summary_of : ℕ → Option DiscoveryMetrics → MetricsSummary
summary_of now none = record {
  registrations = 0;
  removals = 0;
  heartbeats = 0;
  path_requests = 0;
  stale_cleaned = 0;
  uptime_secs = 0;
}
summary_of now (some m) = record {
  registrations = m.registrations;
  removals = m.removals;
  heartbeats = m.heartbeats;
  path_requests = m.path_requests;
  stale_cleaned = m.stale_cleaned;
  uptime_secs = now - m.start_time;
}

unfoldable pub recent_events : Option DiscoveryMetrics → List EventEntry
recent_events none = []
recent_events (some m) = take 50 (reverse (snapshot event_to_entry m.events))

-- The registry as `get_all_entries`, `get_stats` and `is_ready` find it.
unfoldable pub dashboard_handler :
    ℕ → NodeRegistry → NodeRegistry → NodeRegistry → Option DiscoveryMetrics → DashboardResponse
dashboard_handler now listed counted checked metrics = record {
  nodes = map node_of (get_all_entries listed);
  stats = get_stats now counted;
  metrics = summary_of now metrics;
  ready = is_ready checked;
  events = recent_events metrics;
}

-- `path.rsplit('.').next()`: what follows the last dot, all of a text without one.
abbrev after_dot : List ℕ → List ℕ → List ℕ
after_dot part [] = part
after_dot part (c ∷ cs) = if c == 46 then after_dot cs cs else after_dot part cs

unfoldable pub mime_for_path : List ℕ → List ℕ
mime_for_path path =
    let extension = after_dot path path in
    if bytes_eq extension (bytes_of "html")
    then bytes_of "text/html; charset=utf-8"
    else if bytes_eq extension (bytes_of "js") || bytes_eq extension (bytes_of "mjs")
    then bytes_of "application/javascript"
    else if bytes_eq extension (bytes_of "wasm")
    then bytes_of "application/wasm"
    else if bytes_eq extension (bytes_of "css")
    then bytes_of "text/css"
    else if bytes_eq extension (bytes_of "png")
    then bytes_of "image/png"
    else if bytes_eq extension (bytes_of "ico")
    then bytes_of "image/x-icon"
    else if bytes_eq extension (bytes_of "svg")
    then bytes_of "image/svg+xml"
    else bytes_of "application/octet-stream"

abbrev pub trim_slashes : List ℕ → List ℕ
trim_slashes [] = []
trim_slashes (c ∷ cs) = if c == 47 then trim_slashes cs else c ∷ cs

abbrev or_index : List ℕ → List ℕ
or_index [] = bytes_of "index.html"
or_index (c ∷ cs) = c ∷ cs

pub data AssetResponse : Type 0 where
  found : List ℕ → List ℕ → AssetResponse
  not_found : AssetResponse

abbrev asset_response : List ℕ → Option (List ℕ) → AssetResponse
asset_response path none = not_found
asset_response path (some content) = found (mime_for_path path) content

-- `Asset::get` over the embedded files is a parameter.
unfoldable pub serve_asset : (List ℕ → Option (List ℕ)) → List ℕ → AssetResponse
serve_asset get path = let name = or_index (trim_slashes path) in asset_response name (get name)
