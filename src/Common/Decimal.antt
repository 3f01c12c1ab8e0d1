-- ===== src/Common/Decimal.antt =====
-- Numbers in decimal, as `%d` and strconv print them.
use Prim.Native.Char.{Char, code}
use Prim.Native.String.{String}
use Prim.Native.Nat.{ℕ, zero, suc, ◌+◌, ◌-◌, ◌*◌, ◌<◌, ◌/◌, ◌%◌}
use mathlib.Core.Path.{◌≡◌, refl, ◌∙◌, ap}
use mathlib.Core.Logic.{inl, inr}
use native.Mathlib.Omega.{arith}
use mathlib.Core.Bool.{true, false}
use vpn_pack.Common.Tests.{ltb, Bool-cases}
use vpn_pack.Common.Int.{ℤ, pos, negsuc}

unfoldable pub digit_char : ℕ → Char
digit_char zero = "0"
digit_char (suc zero) = "1"
digit_char (suc (suc zero)) = "2"
digit_char (suc (suc (suc zero))) = "3"
digit_char (suc (suc (suc (suc zero)))) = "4"
digit_char (suc (suc (suc (suc (suc zero))))) = "5"
digit_char (suc (suc (suc (suc (suc (suc zero)))))) = "6"
digit_char (suc (suc (suc (suc (suc (suc (suc zero))))))) = "7"
digit_char (suc (suc (suc (suc (suc (suc (suc (suc zero)))))))) = "8"
digit_char _ = "9"

-- `%d`: the digits of `n` in front of `acc`.
unfoldable pub decimal_from : ℕ → ℕ → String → String
unfolding digit_char
decimal_from zero n acc = acc
decimal_from (suc fuel) n acc =
    let rest = decimal_from fuel (n / 10) (String.◌∷◌ (digit_char (n % 10)) acc) in
    elim (ltb n 10) [ true ↦ String.◌∷◌ (digit_char n) acc | false ↦ rest ]

-- `strconv.Itoa`
unfoldable pub itoa : ℤ → String
itoa (pos n) = decimal_from (suc n) n ""
itoa (negsuc n) = String.◌∷◌ "-" (decimal_from (suc (suc n)) (suc n) "")

-- The number that digits stand for, after `a`.
unfoldable pub value_from : ℕ → String → ℕ
value_from a String.[] = a
value_from a (String.◌∷◌ c s) = value_from (a * 10 + (code c - 48)) s

code-digit_char : (d : ℕ) → d < 10 → code (digit_char d) ≡ d + 48
unfolding digit_char
code-digit_char zero h = refl
code-digit_char (suc zero) h = refl
code-digit_char (suc (suc zero)) h = refl
code-digit_char (suc (suc (suc zero))) h = refl
code-digit_char (suc (suc (suc (suc zero)))) h = refl
code-digit_char (suc (suc (suc (suc (suc zero))))) h = refl
code-digit_char (suc (suc (suc (suc (suc (suc zero)))))) h = refl
code-digit_char (suc (suc (suc (suc (suc (suc (suc zero))))))) h = refl
code-digit_char (suc (suc (suc (suc (suc (suc (suc (suc zero)))))))) h = refl
code-digit_char (suc (suc (suc (suc (suc (suc (suc (suc (suc zero))))))))) h = refl
code-digit_char (suc (suc (suc (suc (suc (suc (suc (suc (suc (suc n)))))))))) h =
    absurd (omega arith)

pub value_from-decimal_from :
    (fuel n : ℕ) (acc : String)
    → n < fuel
    → value_from 0 (decimal_from fuel n acc) ≡ value_from n acc
unfolding value_from decimal_from
value_from-decimal_from zero n acc h = absurd (omega arith)
value_from-decimal_from (suc fuel) n acc h = elim (Bool-cases (ltb n 10)) [
  | inl small ↦
      rw (small, decimal_from, value_from)
        (ap (λ k. value_from k acc) (omega (arith, code-digit_char n (ground arith))))
  | inr large ↦
      rw (large, decimal_from, value_from)
        (value_from-decimal_from fuel (n / 10) (String.◌∷◌ (digit_char (n % 10)) acc) (ground arith)
          ∙ ap (λ k. value_from k acc) (omega (arith, code-digit_char (n % 10) (omega arith))))
]
