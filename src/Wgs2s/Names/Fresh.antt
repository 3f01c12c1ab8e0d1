-- ===== src/Wgs2s/Names/Fresh.antt =====
-- The interface name that the search finds.
use vpn_pack.Common.{
  ℕ, zero, suc, ◌+◌, ◌≤◌, ◌<◌, ◌≡◌, refl, ap, inl, inr, String, true, false, some, List, [], ◌∷◌,
  leb, length, contains, string_eq, arith, Bool-cases, if◌then◌else◌,
}
use vpn_pack.Wgs2s.Config.{TunnelConfig}
use vpn_pack.Common.Decimal.{value_from, value_from-decimal_from}
use vpn_pack.Wgs2s.Names.{interface_name, next_from, names, next_interface_name}

-- The number of an interface's name: its value past the six characters `wg-s2s`.
rank : String → ℕ
rank (String.◌∷◌ a (String.◌∷◌ b (String.◌∷◌ c (String.◌∷◌ d (String.◌∷◌ e (String.◌∷◌ f s)))))) =
    value_from 0 s
rank _ = 0

rank-interface_name : (i : ℕ) → rank (interface_name i) ≡ i
unfolding rank interface_name value_from
rank-interface_name i = value_from-decimal_from (suc i) i "" (omega arith)

-- How many names have a number of at least `i`.
at_least : ℕ → List String → ℕ
at_least i [] = 0
at_least i (s ∷ ss) = let rest = at_least i ss in if leb i (rank s) then suc rest else rest

at_least-le-length : (i : ℕ) (used : List String) → at_least i used ≤ length used
unfolding at_least
at_least-le-length i [] = omega arith
at_least-le-length i (s ∷ ss) = ground (arith, at_least-le-length i ss)

at_least-suc : (i : ℕ) (used : List String) → at_least (i + 1) used ≤ at_least i used
unfolding at_least
at_least-suc i [] = omega arith
at_least-suc i (s ∷ ss) = ground (arith, at_least-suc i ss)

-- A used name is one less to come.
at_least-used :
    (i : ℕ) (used : List String)
    → contains (interface_name i) used ≡ true
    → at_least (i + 1) used < at_least i used
unfolding at_least
at_least-used i [] h = cc
at_least-used i (s ∷ ss) h =
    ground (arith, at_least-used i ss, at_least-suc i ss, rank-interface_name i)

next_from-fresh :
    (fuel i : ℕ) (used : List String)
    → at_least i used < fuel
    → (name : String) × (next_from fuel i used ≡ some name) × (contains name used ≡ false)
unfolding next_from
next_from-fresh zero i used h = absurd (omega arith)
next_from-fresh (suc fuel) i used h = elim (Bool-cases (contains (interface_name i) used)) [
  | inr new ↦ (interface_name i, rw (new, next_from), new)
  | inl old ↦
      rw (old, next_from)
        (next_from-fresh fuel (i + 1) used (omega (arith, at_least-used i used old)))
]

length-names : (ts : List TunnelConfig) → length (names ts) ≡ length ts
length-names [] = refl
length-names (t ∷ ts) = ap suc (length-names ts)

-- The search ends within one round more than there are tunnels, with a name that none of them has.
pub next_interface_name-fresh :
    (existing : List TunnelConfig)
    → (name : String) × (next_interface_name existing ≡ some name)
      × (contains name (names existing) ≡ false)
unfolding next_interface_name
next_interface_name-fresh existing =
    next_from-fresh (suc (length existing)) 0 (names existing)
      (omega (arith, at_least-le-length 0 (names existing), length-names existing))
