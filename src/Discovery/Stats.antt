-- ===== src/Discovery/Stats.antt =====
-- services/discovery/src/core/registry.rs: `get_stats` and `get_all_entries`. Ages are in seconds, as
-- instants are.
use mini_tor.Prelude.{
  ℕ, ◌+◌, ◌-◌, ◌≡◌, refl, List, [], ◌∷◌, length, map, Option, none, some, ltb, if◌then◌else◌, arith,
  true, not, ◌&&◌, leb,
}
use mini_tor.Types.{NodeType, entry, middle, exit, node_type_eq}
use mini_tor.Discovery.{NodeEntry, NodeRegistry}
use mini_tor.Discovery.Nodes.{retain, has_type, get_nodes_by_type, is_empty, is_ready}

pub record RegistryStats : Type 0 where
  pub total_nodes : ℕ
  pub entry_count : ℕ
  pub middle_count : ℕ
  pub exit_count : ℕ
  pub oldest_node_age_secs : Option ℕ
  pub newest_node_age_secs : Option ℕ

unfoldable pub get_all_entries : NodeRegistry → List NodeEntry
get_all_entries r = map (λ (e : List ℕ × NodeEntry). e.1) r.nodes

-- What the loop keeps.
pub record Tally : Type 0 where
  pub entries : ℕ
  pub middles : ℕ
  pub exits : ℕ
  pub oldest : Option ℕ
  pub newest : Option ℕ

abbrev count_type : NodeType → Tally → Tally
count_type entry t = record t { entries = t.entries + 1 }
count_type middle t = record t { middles = t.middles + 1 }
count_type exit t = record t { exits = t.exits + 1 }

abbrev older : Option ℕ → ℕ → Option ℕ
older none at = some at
older (some oldest) at = if ltb at oldest then some at else some oldest

abbrev newer : Option ℕ → ℕ → Option ℕ
newer none at = some at
newer (some newest) at = if ltb newest at then some at else some newest

unfoldable pub tally_entry : Tally → NodeEntry → Tally
tally_entry t e =
    let t' = count_type e.descriptor.node_type t in
    record t' { oldest = older t.oldest e.registered_at; newest = newer t.newest e.registered_at }

unfoldable pub tally_all : Tally → List (List ℕ × NodeEntry) → Tally
tally_all t [] = t
tally_all t ((id, e) ∷ es) = tally_all (tally_entry t e) es

abbrev no_tally : Tally
no_tally = record { entries = 0; middles = 0; exits = 0; oldest = none; newest = none }

abbrev age : ℕ → Option ℕ → Option ℕ
age now none = none
age now (some at) = some (now - at)

unfoldable pub get_stats : ℕ → NodeRegistry → RegistryStats
get_stats now r =
    let t = tally_all no_tally r.nodes in
    record {
      total_nodes = length r.nodes;
      entry_count = t.entries;
      middle_count = t.middles;
      exit_count = t.exits;
      oldest_node_age_secs = age now t.oldest;
      newest_node_age_secs = age now t.newest;
    }

-- The nodes of a type.
abbrev of_type : NodeType → List (List ℕ × NodeEntry) → ℕ
of_type t es = length (map (λ (e : List ℕ × NodeEntry). e.1.descriptor) (retain (has_type t) es))

record Counted (t : Tally) (es : List (List ℕ × NodeEntry)) (last : Tally) : Type 0 where
  entries_counted : last.entries ≡ t.entries + of_type entry es
  middles_counted : last.middles ≡ t.middles + of_type middle es
  exits_counted : last.exits ≡ t.exits + of_type exit es
  all_counted :
      last.entries + last.middles + last.exits ≡ t.entries + t.middles + t.exits + length es

-- One node, by its type.
count_one :
    (t : Tally) (kind : NodeType) (e : NodeEntry) (id : List ℕ) (es : List (List ℕ × NodeEntry))
    (last : Tally)
    → e.descriptor.node_type ≡ kind
    → Counted (tally_entry t e) es last
    → Counted t ((id, e) ∷ es) last
unfolding tally_entry retain node_type_eq
count_one t entry e id es last is c = record {
  entries_counted = ground (arith, is, c.entries_counted);
  middles_counted = ground (arith, is, c.middles_counted);
  exits_counted = ground (arith, is, c.exits_counted);
  all_counted = ground (arith, is, c.all_counted);
}
count_one t middle e id es last is c = record {
  entries_counted = ground (arith, is, c.entries_counted);
  middles_counted = ground (arith, is, c.middles_counted);
  exits_counted = ground (arith, is, c.exits_counted);
  all_counted = ground (arith, is, c.all_counted);
}
count_one t exit e id es last is c = record {
  entries_counted = ground (arith, is, c.entries_counted);
  middles_counted = ground (arith, is, c.middles_counted);
  exits_counted = ground (arith, is, c.exits_counted);
  all_counted = ground (arith, is, c.all_counted);
}

tally_all-Counted : (t : Tally) (es : List (List ℕ × NodeEntry)) → Counted t es (tally_all t es)
unfolding tally_all retain
tally_all-Counted t [] = record {
  entries_counted = omega arith;
  middles_counted = omega arith;
  exits_counted = omega arith;
  all_counted = omega arith;
}
tally_all-Counted t ((id, e) ∷ es) =
    count_one t e.descriptor.node_type e id es (tally_all (tally_entry t e) es) refl
      (tally_all-Counted (tally_entry t e) es)

not_empty : {A : Type 0} (xs : List A) → not (is_empty xs) ≡ leb 1 (length xs)
not_empty [] = refl
not_empty (x ∷ xs) = let some_ : leb 1 (length (x ∷ xs)) ≡ true = ground arith in rw some_ refl

-- The statistics count every node once: each count is the number of nodes of its type, together they
-- are the total, and the registry is ready exactly when none of the three is 0.
pub get_stats-counts :
    (now : ℕ) (r : NodeRegistry)
    → let s = get_stats now r in
      (s.entry_count ≡ length (get_nodes_by_type r entry))
      × (s.middle_count ≡ length (get_nodes_by_type r middle))
      × (s.exit_count ≡ length (get_nodes_by_type r exit))
      × (s.entry_count + s.middle_count + s.exit_count ≡ s.total_nodes)
      × (is_ready r ≡ (leb 1 s.entry_count && leb 1 s.middle_count && leb 1 s.exit_count))
unfolding get_stats get_nodes_by_type is_ready
get_stats-counts now r =
    let c = tally_all-Counted no_tally r.nodes in
    let t = tally_all no_tally r.nodes in
    let entries : t.entries ≡ of_type entry r.nodes = omega (arith, c.entries_counted) in
    let middles : t.middles ≡ of_type middle r.nodes = omega (arith, c.middles_counted) in
    let exits : t.exits ≡ of_type exit r.nodes = omega (arith, c.exits_counted) in
    (
      entries,
      middles,
      exits,
      omega (arith, c.all_counted),
      rw
          (
            entries,
            middles,
            exits,
            not_empty (get_nodes_by_type r entry),
            not_empty (get_nodes_by_type r middle),
            not_empty (get_nodes_by_type r exit),
          )
          refl,
    )
