-- ===== src/Ops/Saga/Courses.antt =====
-- The courses that a run of a saga can take (manager/ops/op.go).
use vpn_pack.Common.{
  ℕ, suc, ◌+◌, ◌<◌, ◌≡◌, ◌∙◌, ap, inl, inr, none, some, List, [], ◌∷◌, ◌++◌, Error, wrap, ok, err,
  arith, ◌==◌, nat_eq, Bool-cases,
}
use vpn_pack.Ops.{Op, Context}

-- The context was not cancelled at its first `n` answers.
abbrev pub IsClear : Context → ℕ → Type 0
IsClear ctx n = (k : ℕ) → k < n → ctx k ≡ none

pub IsClear-next : (ctx : Context) (n : ℕ) → IsClear ctx n → ctx n ≡ none → IsClear ctx (n + 1)
IsClear-next ctx n c h k l = elim (Bool-cases (k == n)) [
  | inl same ↦ let one : k ≡ n = ground arith in ap ctx one ∙ h
  | inr other ↦ c k (ground arith)
]

module _ {S : Type 0} where
  -- The steps' `Do`s succeed one after the other, from the first state to the second.
  pub data Completes : List (Op S) → S → S → Type 0 where
    done : {s : S} → Completes [] s s
    next :
        {step : Op S} {steps : List (Op S)} {s t u : S}
        → step.do_step s ≡ (ok tt, t)
        → Completes steps t u
        → Completes (step ∷ steps) s u

  -- How a run that has done `n` steps stops with `left` to do, having come to the first state:
  -- the next step fails and leaves the second, or the context is found cancelled, before the next
  -- step or after the last one that was done, and nothing more is done. All its answers before,
  -- two for each step, were that it is not.
  pub data Stops : Context → ℕ → List (Op S) → S → S → Error → Type 0 where
    failed :
        {ctx : Context} {n : ℕ} {step : Op S} {steps : List (Op S)} {s t : S} {e : Error}
        → IsClear ctx (n + n + 1)
        → step.do_step s ≡ (err e, t)
        → Stops ctx n (step ∷ steps) s t (wrap step.name e)
    cancelled_before :
        {ctx : Context} {n : ℕ} {step : Op S} {steps : List (Op S)} {s : S} {e : Error}
        → IsClear ctx (n + n)
        → ctx (n + n) ≡ some e
        → Stops ctx n (step ∷ steps) s s (wrap "context cancelled before" e)
    cancelled_after :
        {ctx : Context} {n : ℕ} {left : List (Op S)} {s : S} {e : Error}
        → IsClear ctx (n + n + 1)
        → ctx (n + n + 1) ≡ some e
        → Stops ctx (suc n) left s s (wrap "context cancelled after" e)

  pub Completes-snoc :
      (step : Op S) {steps : List (Op S)} {s t u : S}
      → Completes steps s t
      → step.do_step t ≡ (ok tt, u)
      → Completes (steps ++ (step ∷ [])) s u
  Completes-snoc step done h = next h done
  Completes-snoc step (next k c) h = next k (Completes-snoc step c h)
