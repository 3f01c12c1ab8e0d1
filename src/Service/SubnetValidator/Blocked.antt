-- ===== src/Service/SubnetValidator/Blocked.antt =====
-- Which prefixes are blocked.
use vpn_pack.Common.{
  ℕ, zero, suc, String, Bool, true, false, ◌&&◌, ◌||◌, ◌≡◌, ◌↔◌, refl, ◌∙◌, ap, inl, inr, Option,
  none, some, List, [], ◌∷◌, map, get_elem?, contains, ◌==◌, string_eq, Bool-cases, Option-cases,
  arith,
}
use vpn_pack.Net.{IpNet, NetText}
use vpn_pack.Service.SubnetValidator.{
  SubnetConflict, InterfaceSubnet, SystemSubnets, ValidationResult, network, hits, find_interface,
  interface_conflict, validate_one, validate_allowed_ips, subnets_overlap,
}
use vpn_pack.Service.SubnetValidator.Overlap.{IsMasked, Shared, subnets_overlap-Shared}

abbrev found : Option InterfaceSubnet → Bool
found none = false
found (some _) = true

abbrev pub blocked_prefixes : ValidationResult → List String
blocked_prefixes r = map (λ (c : SubnetConflict). c.cidr) r.blocked

module _ (net : NetText) where
  -- An interface whose prefix the candidate overlaps with.
  abbrev Hit : IpNet → List InterfaceSubnet → Type 0
  Hit candidate ss =
      (i : ℕ) × (s : InterfaceSubnet) × (get_elem? ss i ≡ some s)
      × (hits net candidate s.cidr ≡ true)

  found-Hit :
      (candidate : IpNet) (ss : List InterfaceSubnet)
      → found (find_interface net candidate ss) ≡ true
      → Hit candidate ss
  unfolding find_interface
  found-Hit candidate [] h = absurd (ground arith)
  found-Hit candidate (s ∷ ss) h = elim (Bool-cases (hits net candidate s.cidr)) [
    | inl here ↦ (zero, s, refl, here)
    | inr later ↦ let (i, t, at, hit) = found-Hit candidate ss (ground arith) in (suc i, t, at, hit)
  ]

  Hit-found :
      (candidate : IpNet) (ss : List InterfaceSubnet) (i : ℕ) (s : InterfaceSubnet)
      → get_elem? ss i ≡ some s
      → hits net candidate s.cidr ≡ true
      → found (find_interface net candidate ss) ≡ true
  unfolding find_interface
  Hit-found candidate [] i s h k = ground arith
  Hit-found candidate (t ∷ ss) zero s h k =
      let same : hits net candidate t.cidr ≡ true =
        ap
          (λ (o : Option InterfaceSubnet). elim o [
            | none ↦ true
            | some u ↦ hits net candidate u.cidr
          ])
          h
        ∙ k in
      ground arith
  Hit-found candidate (t ∷ ss) (suc i) s h k = ground (arith, Hit-found candidate ss i s h k)

  -- Whether a prefix is blocked, wherever it stands.
  abbrev blocks : SystemSubnets → String → Bool
  blocks sys cidr = elim (network net cidr) [
    | none ↦ false
    | some candidate ↦ found (find_interface net candidate sys.interfaces)
  ]

  validate_one-blocked :
      (sys : SystemSubnets) (cidr c : String) (rest : ValidationResult)
      → contains c (blocked_prefixes (validate_one net cidr sys rest))
        ≡ (blocks sys cidr && cidr == c || contains c (blocked_prefixes rest))
  unfolding validate_one interface_conflict
  validate_one-blocked sys cidr c rest = ground arith

  blocked-blocks :
      (sys : SystemSubnets) (cidrs : List String) (c : String)
      → contains c (blocked_prefixes (validate_allowed_ips net cidrs sys))
        ≡ (contains c cidrs && blocks sys c)
  unfolding validate_allowed_ips
  blocked-blocks sys [] c = refl
  blocked-blocks sys (cidr ∷ cidrs) c =
      let rest = blocked-blocks sys cidrs c in
      validate_one-blocked sys cidr c (validate_allowed_ips net cidrs sys)
      ∙ elim (Bool-cases (cidr == c)) [
        | inl same ↦
            let one : cidr ≡ c = ground arith in
            let alike : blocks sys cidr ≡ blocks sys c = ap (blocks sys) one in ground arith
        | inr other ↦ ground arith
      ]

  -- The prefix shares an address with the network of an interface.
  abbrev pub Conflicts : SystemSubnets → String → Type 0
  Conflicts sys cidr =
      (candidate : IpNet) × (network net cidr ≡ some candidate)
      × (i : ℕ) × (s : InterfaceSubnet) × (get_elem? sys.interfaces i ≡ some s)
      × (n : IpNet) × (network net s.cidr ≡ some n)
      × (Shared candidate n)

  module _ (masks : (s : String) (n : IpNet) → network net s ≡ some n → IsMasked n) where
    blocks-Conflicts :
        (sys : SystemSubnets) (cidr : String) → blocks sys cidr ≡ true → Conflicts sys cidr
    unfolding hits
    blocks-Conflicts sys cidr h = elim (Option-cases (network net cidr)) [
      | inl unparsed ↦ absurd (ground arith)
      | inr (candidate, parsed) ↦
          let (i, s, at, hit) = found-Hit candidate sys.interfaces (ground arith) in
          elim (Option-cases (network net s.cidr)) [
            | inl off ↦ absurd (ground arith)
            | inr (n, on) ↦
                let over : subnets_overlap candidate n ≡ true = ground arith in
                let masked = masks cidr candidate parsed in
                let shared =
                  (subnets_overlap-Shared candidate n masked (masks s.cidr n on)).0 over in
                (candidate, parsed, i, s, at, n, on, shared)
          ]
    ]

    Conflicts-blocks :
        (sys : SystemSubnets) (cidr : String) → Conflicts sys cidr → blocks sys cidr ≡ true
    unfolding hits
    Conflicts-blocks sys cidr (candidate, parsed, i, s, at, n, on, shared) =
        let masked = masks cidr candidate parsed in
        let over = (subnets_overlap-Shared candidate n masked (masks s.cidr n on)).1 shared in
        let hit : hits net candidate s.cidr ≡ true = ground arith in
        let there = Hit-found candidate sys.interfaces i s at hit in ground arith

    -- A prefix is blocked exactly when it is one of those asked for and shares an address with the
    -- network of an interface. Parsing masks a network's address.
    pub validate_allowed_ips-Conflicts :
        (sys : SystemSubnets) (cidrs : List String) (cidr : String)
        → (contains cidr (blocked_prefixes (validate_allowed_ips net cidrs sys)) ≡ true)
          ↔ ((contains cidr cidrs ≡ true) × Conflicts sys cidr)
    validate_allowed_ips-Conflicts sys cidrs cidr =
        let whole = blocked-blocks sys cidrs cidr in
        (
          λ h. (ground arith, blocks-Conflicts sys cidr (ground arith)),
          λ (asked, conflicts). let blocked = Conflicts-blocks sys cidr conflicts in ground arith,
        )
