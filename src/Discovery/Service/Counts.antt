-- ===== src/Discovery/Service/Counts.antt =====
-- The counters of the discovery service (core/metrics.rs) against the requests that it serves.
use native.Mathlib.Nat.{mod-add-mod}
use mini_tor.Prelude.{
  ℕ, ◌+◌, ◌%◌, ◌^◌, ◌≡◌, ap, ◌∙◌, ◌-◌, length, List, Option, some, Result, ok, err, ltb, Bool-cases,
  inl, inr, arith,
}
use mini_tor.Discovery.{NodeRegistry}
use mini_tor.Discovery.Nodes.{cleanup_stale_nodes}
use mini_tor.Discovery.Events.{EventKind, DiscoveryMetrics, push_event}
use mini_tor.Discovery.Api
use mini_tor.Discovery.Api.{Status, accept, if_converted}
use mini_tor.Discovery.Service.{
  AppState, noted, on_ok, note_removal, note_heartbeat, note_path, note_cleanup, cleanup_round,
}

-- The numbers that the counters stand for.
pub record Totals : Type 0 where
  pub registered : ℕ
  pub removed : ℕ
  pub beaten : ℕ
  pub paths : ℕ
  pub cleaned : ℕ

abbrev pub nothing : Totals
nothing = record { registered = 0; removed = 0; beaten = 0; paths = 0; cleaned = 0 }

abbrev pub plus : Totals → Totals → Totals
plus t g = record {
  registered = t.registered + g.registered;
  removed = t.removed + g.removed;
  beaten = t.beaten + g.beaten;
  paths = t.paths + g.paths;
  cleaned = t.cleaned + g.cleaned;
}

abbrev pub if_ok {ℓ} : {A : Type ℓ} → Result Status A → Totals → Totals
if_ok (ok a) g = g
if_ok (err e) g = nothing

abbrev pub Shows : Totals → DiscoveryMetrics → Type 0
Shows t m =
    (m.registrations ≡ t.registered % 2 ^ 64)
    × (m.removals ≡ t.removed % 2 ^ 64)
    × (m.heartbeats ≡ t.beaten % 2 ^ 64)
    × (m.path_requests ≡ t.paths % 2 ^ 64)
    × (m.stale_cleaned ≡ t.cleaned % 2 ^ 64)

abbrev pub Shown : Totals → Option DiscoveryMetrics → Type 0
Shown t metrics = (m : DiscoveryMetrics) × (metrics ≡ some m) × Shows t m

abbrev pub one_registered : Totals
one_registered = record nothing { registered = 1 }

abbrev pub one_removed : Totals
one_removed = record nothing { removed = 1 }

abbrev pub one_beaten : Totals
one_beaten = record nothing { beaten = 1 }

abbrev pub one_path : Totals
one_path = record nothing { paths = 1 }

unfoldable pub cleaned_by : ℕ → NodeRegistry → ℕ → ℕ
cleaned_by now r timeout = length r.nodes - length (Api.cleanup_round timeout now r).nodes

-- A counter that goes up by n, and one that stays.
pub up : (n t : ℕ) {c : ℕ} → c ≡ t % 2 ^ 64 → (c + n) % 2 ^ 64 ≡ (t + n) % 2 ^ 64
up n t e = ap (λ (k : ℕ). (k + n) % 2 ^ 64) e ∙ mod-add-mod t (2 ^ 64) n

pub same : (t : ℕ) {c : ℕ} → c ≡ t % 2 ^ 64 → c ≡ (t + 0) % 2 ^ 64
same t e = e ∙ ap (λ (k : ℕ). k % 2 ^ 64) (omega arith)

pub still :
    (t : Totals) (metrics : Option DiscoveryMetrics)
    → Shown t metrics
    → Shown (plus t nothing) metrics
still t metrics (m, is, (a, b, c, d, e)) = (
  m,
  is,
  (same t.registered a, same t.removed b, same t.beaten c, same t.paths d, same t.cleaned e),
)

module _ (t g : Totals) (note : DiscoveryMetrics → DiscoveryMetrics)
    (step : (m : DiscoveryMetrics) → Shows t m → Shows (plus t g) (note m)) where
  pub noted-Shown :
      (metrics : Option DiscoveryMetrics) → Shown t metrics → Shown (plus t g) (noted note metrics)
  noted-Shown metrics (m, is, shows) = (note m, ap (noted note) is, step m shows)

  pub on_ok-Shown {ℓ} :
      {A : Type ℓ} (result : Result Status A) (metrics : Option DiscoveryMetrics)
      → Shown t metrics
      → Shown (plus t (if_ok result g)) (on_ok result note metrics)
  on_ok-Shown (ok a) metrics shown = noted-Shown metrics shown
  on_ok-Shown (err e) metrics shown = still t metrics shown

-- What each note adds.
module _ (t : Totals) (now : ℕ) (m : DiscoveryMetrics) where
  pub push_event-Shows :
      (kind : EventKind) → Shows t m → Shows (plus t nothing) (push_event now kind m)
  unfolding push_event
  push_event-Shows kind (a, b, c, d, e) =
      (same t.registered a, same t.removed b, same t.beaten c, same t.paths d, same t.cleaned e)

  pub note_removal-Shows :
      (id : List ℕ) → Shows t m → Shows (plus t one_removed) (note_removal now id m)
  unfolding note_removal push_event
  note_removal-Shows id (a, b, c, d, e) =
      (same t.registered a, up 1 t.removed b, same t.beaten c, same t.paths d, same t.cleaned e)

  pub note_heartbeat-Shows :
      (id : List ℕ) → Shows t m → Shows (plus t one_beaten) (note_heartbeat now id m)
  unfolding note_heartbeat push_event
  note_heartbeat-Shows id (a, b, c, d, e) =
      (same t.registered a, same t.removed b, up 1 t.beaten c, same t.paths d, same t.cleaned e)

  pub note_path-Shows : Shows t m → Shows (plus t one_path) (note_path now m)
  unfolding note_path push_event
  note_path-Shows (a, b, c, d, e) =
      (same t.registered a, same t.removed b, same t.beaten c, up 1 t.paths d, same t.cleaned e)

  note_cleanup-Shows :
      (n : ℕ) → Shows t m → Shows (plus t (record nothing { cleaned = n })) (note_cleanup now n m)
  unfolding note_cleanup push_event
  note_cleanup-Shows n (a, b, c, d, e) =
      (same t.registered a, same t.removed b, same t.beaten c, same t.paths d, up n t.cleaned e)

pub cleanup_round-Shown :
    (t : Totals) (timeout now : ℕ) (s : AppState)
    → Shown t s.metrics
    → Shown
        (plus t (record nothing { cleaned = cleaned_by now s.registry timeout }))
        (cleanup_round timeout now s).metrics
unfolding cleanup_round cleaned_by Api.cleanup_round cleanup_stale_nodes
cleanup_round-Shown t timeout now s shown =
    let n = cleaned_by now s.registry timeout in
    elim (Bool-cases (ltb 0 n)) [
      | inl some_ ↦ rw some_ (
          noted-Shown t (record nothing { cleaned = n }) (note_cleanup now n)
            (λ m. note_cleanup-Shows t now m n) s.metrics shown)
      | inr none_ ↦
          let zero_ : n ≡ 0 = ground (arith, none_) in rw (none_, zero_) (still t s.metrics shown)
    ]
