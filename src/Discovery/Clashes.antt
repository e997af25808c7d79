-- ===== src/Discovery/Clashes.antt =====
-- The exclusions of get_random_path in discovery/src/core/registry.rs: what a node that is still
-- eligible has in common with none of the nodes chosen before.
use mini_tor.Prelude.{
  ℕ, ◌≡◌, refl, List, [], ◌∷◌, Bool, true, false, not, ◌&&◌, ◌||◌, Option, none, some, bytes_eq,
  arith,
}
use mini_tor.Types.{NodeDescriptor, IpAddr, ip_eq}
use mini_tor.Types.Policy.{contains_ip}
use mini_tor.Discovery.Paths.{contains_op, Excluded, ip_ok, op_ok, add_ip, add_op, commit, eligible}

abbrev same_op : Option (List ℕ) → Option (List ℕ) → Bool
same_op none o = false
same_op (some a) none = false
same_op (some a) (some b) = bytes_eq a b

module _ (is_loopback : IpAddr → Bool) (allow_same_ip : Bool) where
  abbrev same_ips : NodeDescriptor → NodeDescriptor → Bool
  same_ips a b =
      not allow_same_ip
      && (not (is_loopback a.address.ip)
          && (not (is_loopback b.address.ip) && ip_eq a.address.ip b.address.ip))

  -- Two nodes that must not stand in one circuit: one operator, or one IP address that is not a
  -- loopback address, unless equal addresses are allowed.
  unfoldable pub clashes : NodeDescriptor → NodeDescriptor → Bool
  clashes a b = same_ips a b || same_op a.operator_id b.operator_id

  -- No node of the list clashes with one that stands before it.
  abbrev pub ApartFrom : NodeDescriptor → List NodeDescriptor → Type 0
  ApartFrom c [] = Unit
  ApartFrom c (n ∷ ns) = (clashes c n ≡ false) × ApartFrom c ns

  abbrev pub Apart : List NodeDescriptor → Type 0
  Apart [] = Unit
  Apart (n ∷ ns) = ApartFrom n ns × Apart ns

  op_ok_add :
      (ops : List (List ℕ)) (o o' : Option (List ℕ))
      → op_ok is_loopback allow_same_ip (add_op is_loopback allow_same_ip ops o) o' ≡ true
      → (op_ok is_loopback allow_same_ip ops o' ≡ true) × (same_op o o' ≡ false)
  unfolding contains_op
  op_ok_add ops none o' h = (h, refl)
  op_ok_add ops (some a) none h = (refl, refl)
  op_ok_add ops (some a) (some b) h = ground (arith, h)

  ip_ok_add :
      (ips : List IpAddr) (c n : NodeDescriptor)
      → ip_ok is_loopback allow_same_ip (add_ip is_loopback allow_same_ip ips c) n ≡ true
      → (ip_ok is_loopback allow_same_ip ips n ≡ true) × (same_ips c n ≡ false)
  unfolding contains_ip
  ip_ok_add ips c n h = ground (arith, h)

  pub commit-eligible :
      (ex : Excluded) (c n : NodeDescriptor)
      → eligible is_loopback allow_same_ip (commit is_loopback allow_same_ip ex c) n ≡ true
      → (eligible is_loopback allow_same_ip ex n ≡ true) × (clashes c n ≡ false)
  unfolding commit eligible clashes
  commit-eligible ex c n h =
      let ip = ip_ok_add ex.ips c n (ground (arith, h)) in
      let op = op_ok_add ex.ops c.operator_id n.operator_id (ground (arith, h)) in
      (ground (arith, ip.0, op.0), ground (arith, ip.1, op.1))

  abbrev pub Covers : Excluded → List NodeDescriptor → Type 0
  Covers ex [] = Unit
  Covers ex (c ∷ cs) =
      ((n : NodeDescriptor) → eligible is_loopback allow_same_ip ex n ≡ true → clashes c n ≡ false)
      × Covers ex cs

  abbrev pub AllApart : List NodeDescriptor → List NodeDescriptor → Type 0
  AllApart [] ns = Unit
  AllApart (c ∷ cs) ns = ApartFrom c ns × AllApart cs ns

  pub Covers-commit :
      (ex : Excluded) (c : NodeDescriptor) (cs : List NodeDescriptor)
      → Covers ex cs
      → Covers (commit is_loopback allow_same_ip ex c) cs
  Covers-commit ex c [] cov = tt
  Covers-commit ex c (d ∷ ds) cov =
      (λ n ok_n. cov.0 n (commit-eligible ex c n ok_n).0, Covers-commit ex c ds cov.1)

  pub AllApart-none : (cs : List NodeDescriptor) → AllApart cs []
  AllApart-none [] = tt
  AllApart-none (c ∷ cs) = (tt, AllApart-none cs)

  pub AllApart-more :
      (ex : Excluded) (n : NodeDescriptor) (cs ns : List NodeDescriptor)
      → Covers ex cs
      → eligible is_loopback allow_same_ip ex n ≡ true
      → AllApart cs ns
      → AllApart cs (n ∷ ns)
  AllApart-more ex n [] ns cov fit apart = tt
  AllApart-more ex n (c ∷ cs) ns cov fit apart =
      ((cov.0 n fit, apart.0), AllApart-more ex n cs ns cov.1 fit apart.1)
