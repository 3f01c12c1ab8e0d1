-- ===== src/Service/SubnetValidator/Overlap.antt =====
-- When two networks overlap.
use native.Mathlib.Nat.{le-div_iff_mul-le, div-lt_iff_lt-mul}
use native.Mathlib.Omega.{div_any}
use vpn_pack.Common.{
  ℕ, zero, suc, ◌+◌, ◌*◌, ◌/◌, ◌%◌, ◌^◌, ◌≤◌, ◌<◌, ◌≡◌, ◌↔◌, true, nat_eq, inl, inr, Bool-cases,
  leb, arith,
}
use vpn_pack.Net.{Ip, IpNet}
use vpn_pack.Service.SubnetValidator.{host_bits, same_family, contains_ip, subnets_overlap}

-- The number of addresses of a network.
abbrev pub size : IpNet → ℕ
size n = 2 ^ (host_bits n)

-- The network's own address is the first one, as parsing makes it.
abbrev pub IsMasked : IpNet → Type 0
IsMasked n = n.ip.value % size n ≡ 0

-- The address is one of the network's.
abbrev pub Within : Ip → IpNet → Type 0
Within a n = (same_family n.ip a ≡ true) × (n.ip.value ≤ a.value) × (a.value < n.ip.value + size n)

power_pos : (k : ℕ) → 0 < 2 ^ k
power_pos zero = omega arith
power_pos (suc k) = omega (arith, power_pos k)

-- Two numbers have the same quotient when the second is in the block that begins at the first.
block : (p v x : ℕ) → 0 < p → v % p ≡ 0 → ((v / p) ≡ (x / p)) ↔ ((v ≤ x) × (x < v + p))
block p v x h masked =
    let from_v = div_any v p in
    let start : v / p * p ≡ v = omega (arith, from_v) in
    let below = le-div_iff_mul-le {k = p} {x = v / p} {y = x} h in
    let above = div-lt_iff_lt-mul {k = p} {x = x} {y = suc (v / p)} h in
    (
      λ same. (
        omega (arith, start, below.0 (omega (arith, same))),
        omega (arith, start, above.0 (omega (arith, same))),
      ),
      λ (low, high). omega (arith, below.1 (omega (arith, start)), above.1 (omega (arith, start))),
    )

contains_ip-Within : (n : IpNet) (a : Ip) → IsMasked n → (contains_ip n a ≡ true) ↔ Within a n
unfolding contains_ip
contains_ip-Within n a masked =
    let same = block (size n) n.ip.value a.value (power_pos (host_bits n)) masked in
    (
      λ h.
          let near : n.ip.value / size n ≡ a.value / size n = ground arith in
          let (low, high) = same.0 near in (ground arith, low, high),
      λ (family, low, high). ground (arith, same.1 (low, high)),
    )

-- An address that both networks have.
abbrev pub Shared : IpNet → IpNet → Type 0
Shared a b = (x : Ip) × (Within x a) × (Within x b)

own_address : (n : IpNet) → Within n.ip n
own_address n =
    let room = power_pos (host_bits n) in (ground arith, omega arith, omega (arith, room))

family_joined :
    (a b x : Ip)
    → same_family a x ≡ true
    → same_family b x ≡ true
    → (same_family a b ≡ true) × (same_family b a ≡ true)
family_joined a b x h k = (ground arith, ground arith)

-- Two networks overlap exactly when some address is in both.
pub subnets_overlap-Shared :
    (a b : IpNet) → IsMasked a → IsMasked b → (subnets_overlap a b ≡ true) ↔ Shared a b
unfolding subnets_overlap
subnets_overlap-Shared a b masked_a masked_b =
    let in_a = contains_ip-Within a b.ip masked_a in
    let in_b = contains_ip-Within b a.ip masked_b in
    (
      λ h. elim (Bool-cases (contains_ip a b.ip)) [
        | inl there ↦ (b.ip, in_a.0 there, own_address b)
        | inr elsewhere ↦ (a.ip, own_address a, in_b.0 (ground arith))
      ],
      λ (x, (family_a, low_a, high_a), (family_b, low_b, high_b)).
          let (ab, ba) = family_joined a.ip b.ip x family_a family_b in
          elim (Bool-cases (leb a.ip.value b.ip.value)) [
            | inl first ↦ let there = in_a.1 (ab, ground arith, omega arith) in ground arith
            | inr later ↦ let there = in_b.1 (ba, ground arith, ground arith) in ground arith
          ],
    )
