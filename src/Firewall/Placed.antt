-- ===== src/Firewall/Placed.antt =====
-- Where the audit of a chain finds what it looks for.
use vpn_pack.Common.{
  ℕ, suc, ◌-◌, String, true, false, ◌≡◌, refl, ap, Option, none, some, List, [], ◌∷◌, ltb, arith,
  ◌==◌, string_eq,
}
use vpn_pack.Firewall.Text.{jump_to, is_misplaced, nothing_found}
use vpn_pack.Firewall.Chains.{found}

pub jump_to-apart :
    (lf : List String) (t u : String)
    → (t == u) ≡ false
    → jump_to lf t ≡ true
    → jump_to lf u ≡ false
unfolding jump_to
jump_to-apart [] t u ne h = refl
jump_to-apart (a ∷ []) t u ne h = refl
jump_to-apart (a ∷ b ∷ []) t u ne h = ground arith
jump_to-apart (a ∷ b ∷ c ∷ rest) t u ne h = jump_to-apart (b ∷ c ∷ rest) t u ne h

-- What the audit finds when something is misplaced.
pub misplaced_found :
    (j u : Option ℕ)
    → is_misplaced (found 0 nothing_found j u) ≡ true
    → (i : ℕ) × (k : ℕ) × (j ≡ some i)
      × (u ≡ some k)
      × ((found 0 nothing_found j u).ubios_pos ≡ suc k)
misplaced_found none none h = absurd (ground arith)
misplaced_found none (some k) h = absurd (ground arith)
misplaced_found (some i) none h = absurd (ground arith)
misplaced_found (some i) (some k) h = (i, k, refl, refl, omega arith)

pub counted_some :
    (o : Option ℕ)
    → ltb 0 (elim o [ none ↦ 0 | some n ↦ n ]) ≡ true
    → o ≡ some (suc (elim o [ none ↦ 0 | some n ↦ n ] - 1))
counted_some none h = absurd (ground arith)
counted_some (some n) h = ap some (ground arith)
