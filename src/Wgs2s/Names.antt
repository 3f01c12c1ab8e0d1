-- ===== src/Wgs2s/Names.antt =====
-- `nextInterfaceName` of manager/internal/wgs2s/config.go: the first name `wg-s2s0`, `wg-s2s1`, …
-- that no tunnel has. The endless loop of the source is run for one round more than there are
-- tunnels; see `Fresh`.
pub mod Fresh
use Prim.Native.String
use vpn_pack.Common.{
  ℕ, zero, suc, ◌+◌, ◌/◌, ◌%◌, String, Bool, true, false, Option, none, some, List, [], ◌∷◌, ltb,
  length, contains, string_eq, map,
}
use vpn_pack.Common.Decimal.{decimal_from}
use vpn_pack.Wgs2s.Config.{TunnelConfig}

unfoldable pub interface_name : ℕ → String
unfolding decimal_from
interface_name i = String.◌∷◌ "w" (
    String.◌∷◌ "g" (
      String.◌∷◌ "-"
        (String.◌∷◌ "s" (String.◌∷◌ "2" (String.◌∷◌ "s" (decimal_from (suc i) i ""))))))

unfoldable pub next_from : ℕ → ℕ → List String → Option String
next_from zero i used = none
next_from (suc fuel) i used =
    let rest = next_from fuel (i + 1) used in
    elim (contains (interface_name i) used) [ true ↦ rest | false ↦ some (interface_name i) ]

abbrev pub names : List TunnelConfig → List String
names = map (λ t. t.interface_name)

unfoldable pub next_interface_name : List TunnelConfig → Option String
unfolding next_from
next_interface_name existing = next_from (suc (length existing)) 0 (names existing)
