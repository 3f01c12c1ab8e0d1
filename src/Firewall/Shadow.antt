-- ===== src/Firewall/Shadow.antt =====
-- What the repair of a chain's order does to the host's rules.
use Prim.Native.String.{◌++◌ as ◌<>◌}
use vpn_pack.Common.{
  ℕ, All, zero, suc, ◌-◌, ◌≤◌, String, Bool, true, false, ◌≡◌, ◌⊎◌, some, List, length, insert_at,
  ⊤, ok, Action, ◌>>◌, pure, ◌==◌, string_eq,
}
use vpn_pack.Firewall.{FirewallEnv}
use vpn_pack.Firewall.Text.{line_jumps_to, chain_prefix, ubios_jump}
use vpn_pack.Firewall.Order.{St, delete_args, insert_args, cached_filter_rules, audit_and_fix}
use vpn_pack.Firewall.Placed.{jump_to-apart}
use vpn_pack.Firewall.Chains.{chain_of, first_place, delete_first, Agree, without, shadowing}

-- Audits in a row, as the firewall watcher makes them.
unfoldable pub audits : (F : FirewallEnv) → String → String → ℕ → Action (St F) ⊤
audits F parent target zero = pure tt
audits F parent target (suc n) = audit_and_fix F parent target >> audits F parent target n

module _ (F : FirewallEnv) (parent target : String) where
  abbrev pub to_target : String → Bool
  to_target l = line_jumps_to F.fields l target

  abbrev pub to_ubios : String → Bool
  to_ubios l = line_jumps_to F.fields l (ubios_jump parent)

  -- The rule that jumps to the target without a condition, as iptables-save prints it.
  abbrev pub plain_rule : String
  plain_rule = "-A " <> (parent <> (" -j " <> target))

  abbrev pub is_plain : String → Bool
  is_plain l = l == plain_rule

  -- What the code relies on of iptables, for the rules of the chain as iptables-save prints them,
  -- and of strings: the text can be had and has the chain's rules; the tokens of the plain rule end
  -- in its jump; `-D` with a jump alone removes the first rule that is just this jump, where there
  -- is one; `-I` puts that rule at a place within the chain or at its end.
  pub record IsKernel (rules : F.env.World → List String) : Type 0 where
    pub other_target : (target == ubios_jump parent) ≡ false
    pub plain_jumps : to_target plain_rule ≡ true
    pub saves :
        (w : F.env.World)
        → (text : String) × (F.iptables_save w ≡ ok text)
          × ((text == "") ≡ false)
          × (chain_of (chain_prefix parent) (F.lines text) ≡ rules w)
    pub deletes :
        (w : F.env.World) (i : ℕ)
        → first_place is_plain (rules w) ≡ some i
        → (v : F.env.World) × (F.iptables (delete_args F parent target) w ≡ (ok tt, v))
          × (rules v ≡ delete_first is_plain (rules w))
    pub inserts :
        (w : F.env.World) (i : ℕ)
        → i ≤ length (rules w)
        → (v : F.env.World) × (F.iptables (insert_args F parent target (suc i)) w ≡ (ok tt, v))
          × (rules v ≡ insert_at i plain_rule (rules w))

  -- The cache holds nothing, or what iptables-save would print.
  abbrev pub IsFresh : St F → Type 0
  IsFresh s = (s.filter_cache ≡ "") ⊎ (F.iptables_save s.world ≡ ok s.filter_cache)

  module _ (rules : F.env.World → List String) (K : IsKernel rules) where
    pub to_target-apart : (l : String) → to_target l ≡ true → to_ubios l ≡ false
    unfolding line_jumps_to
    to_target-apart l h = jump_to-apart (F.fields l) target (ubios_jump parent) K.other_target h

    -- How many jumps to the target stand in front of UniFi's chain.
    abbrev pub shadows : St F → ℕ
    shadows s = shadowing to_target to_ubios to_target-apart (rules s.world)

    -- The other rules of the chain.
    abbrev pub others : St F → List String
    others s = without to_target (rules s.world)

    -- Every rule of the chain that jumps to the target does so without a condition.
    abbrev pub ArePlain : St F → Type 0
    ArePlain s = All (Agree to_target is_plain) (rules s.world)

    -- What the cache answers.
    abbrev Cached : St F → Type 0
    Cached s =
        (text : String) × (t : St F) × (cached_filter_rules F s ≡ (text, t))
        × (t.world ≡ s.world)
        × (F.iptables_save s.world ≡ ok text)
        × IsFresh t

    -- What a repair leaves of the rules.
    abbrev Repaired : St F → ℕ → St F → Type 0
    Repaired s n t = (shadows t ≡ n) × (others t ≡ others s) × (IsFresh t) × ArePlain t

    module _ (s : St F) (fresh : IsFresh s) (plain : ArePlain s) where
      -- An audit succeeds, and takes one jump to the target out of UniFi's way, where there is one.
      abbrev Audited : Type 0
      Audited =
          (t : St F) × (audit_and_fix F parent target s ≡ (ok tt, t)) × Repaired s (shadows s - 1) t
