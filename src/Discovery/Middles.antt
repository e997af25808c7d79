-- ===== src/Discovery/Middles.antt =====
-- The middles that pick_middles of discovery/src/core/registry.rs takes out of the nodes.
use mini_tor.Prelude.{
  ℕ, zero, suc, ◌≡◌, refl, ap, List, ◌∷◌, length, Bool, ltb, Bool-cases, Option-cases, Result-cases,
  inl, inr, OnOk, OnOk-of,
}
use mini_tor.Types.{NodeDescriptor, IpAddr}
use mini_tor.Discovery.Nodes.{retain}
use mini_tor.Discovery.Selection.{AllTrue, retain-AllTrue, AllTrue-retain, AllTrue-take_out}
use mini_tor.Discovery.Paths.{
  select_weighted_index, take_out, Excluded, commit, eligible, pick_middles,
}
use mini_tor.Discovery.Clashes.{
  Apart, commit-eligible, Covers, AllApart, Covers-commit, AllApart-none, AllApart-more,
}

module _ (is_loopback : IpAddr → Bool) (allow_same_ip : Bool) where
  -- What the chosen middles are: as many as asked for, each of the right kind, apart from each other
  -- and from what was chosen before.
  abbrev pub Good : (NodeDescriptor → Bool) → List NodeDescriptor → ℕ → List NodeDescriptor → Type 0
  Good test chosen left ms =
      (length ms ≡ left)
      × AllTrue test ms
      × Apart is_loopback allow_same_ip ms
      × AllApart is_loopback allow_same_ip chosen ms

  pub pick_middles-Good :
      (test : NodeDescriptor → Bool) (draw : ℕ → ℕ → ℕ) (k left : ℕ)
      (available : List NodeDescriptor) (ex : Excluded) (chosen : List NodeDescriptor)
      → Covers is_loopback allow_same_ip ex chosen
      → AllTrue test available
      → OnOk
          (Good test chosen left)
          (pick_middles is_loopback allow_same_ip draw k left available ex)
  unfolding pick_middles
  pick_middles-Good test draw k zero available ex chosen cov all =
      (refl, tt, tt, AllApart-none is_loopback allow_same_ip chosen)
  pick_middles-Good test draw k (suc left) available ex chosen cov all =
      let available' = retain (eligible is_loopback allow_same_ip ex) available in
      elim (Bool-cases (ltb (length available') (suc left))) [
        | inl few ↦ rw few tt
        | inr enough ↦ elim (Result-cases (select_weighted_index (draw k) available')) [
          | inr (e, bad) ↦ rw (enough, bad) tt
          | inl (idx, at) ↦ elim (Option-cases (take_out idx available')) [
            | inl gone ↦ rw (enough, at, gone) tt
            | inr ((node, rest), out) ↦
                let ex' = commit is_loopback allow_same_ip ex node in
                let more = pick_middles is_loopback allow_same_ip draw (suc k) left rest ex' in
                let fit =
                  AllTrue-take_out (eligible is_loopback allow_same_ip ex) idx available' node rest
                    (retain-AllTrue (eligible is_loopback allow_same_ip ex) available) out in
                let kind =
                  AllTrue-take_out test idx available' node rest
                    (AllTrue-retain test (eligible is_loopback allow_same_ip ex) available all)
                    out in
                let cov' : Covers is_loopback allow_same_ip ex' (node ∷ chosen) = (
                  λ n fits. (commit-eligible is_loopback allow_same_ip ex node n fits).1,
                  Covers-commit is_loopback allow_same_ip ex node chosen cov,
                ) in
                let ih =
                  pick_middles-Good test draw (suc k) left rest ex' (node ∷ chosen) cov' kind.1 in
                elim (Result-cases more) [
                  | inr (e, bad) ↦ rw (enough, at, out, bad) tt
                  | inl (ms, done) ↦
                      let (count, kinds, apart, (from_node, from_chosen)) =
                        OnOk-of (Good test (node ∷ chosen) left) more ms ih done in
                      rw (enough, at, out, done)
                        (
                          ap suc count,
                          (kind.0, kinds),
                          (from_node, apart),
                          AllApart-more is_loopback allow_same_ip ex node chosen ms cov fit.0
                              from_chosen,
                        )
                ]
          ]
        ]
      ]
