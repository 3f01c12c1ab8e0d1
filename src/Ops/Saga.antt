-- ===== src/Ops/Saga.antt =====
-- What a run of a saga does, for any steps, any context and any state (manager/ops/op.go).
mod Courses
pub use Courses.*
use mathlib.Core.List.{append_assoc, append-nil, reverse-append}
use mathlib.Core.Path.{subst}
use vpn_pack.Common.{
  ℕ, suc, ◌+◌, ◌<◌, ap, length, length-append, ◌==◌, nat_eq, Bool-cases, ◌≡◌, refl, sym, ◌∙◌, ◌⊎◌,
  inl, inr, none, some, List, [], ◌∷◌, ◌++◌, reverse, ⊤, All, Error, wrap, join_all, Result, ok,
  err, arith, is_ok, false, Option-cases, Result-cases,
}
use vpn_pack.Ops.{Op, Context, undo_all, rollback, run_from, run}

module _ {S : Type 0} where
  -- How a run ends that has come from `s₀` to `s` by the steps `before`.
  abbrev Ends : Context → ℕ → List (Op S) → List (Op S) → S → S → Type 0
  Ends ctx n before steps s₀ s =
      ((t : S) × (run_from ctx n before steps s ≡ (ok tt, t))
        × (Completes (before ++ steps) s₀ t)
        × IsClear ctx (length (before ++ steps) + length (before ++ steps)))
      ⊎ ((ran : List (Op S)) × (left : List (Op S)) × (t : S) × (u : S) × (cause : Error) × (before
              ++ steps
            ≡ ran ++ left)
          × Completes ran s₀ t
          × Stops ctx (length ran) left t u cause
          × (run_from ctx n before steps s ≡ rollback ran cause u))

  module _ (ctx : Context) (n : ℕ) (before : List (Op S)) (step : Op S) (steps : List (Op S))
      (s : S) where
    run_from-cancelled_before :
        (e : Error)
        → ctx n ≡ some e
        → run_from ctx n before (step ∷ steps) s
          ≡ rollback before (wrap "context cancelled before" e) s
    unfolding run_from
    run_from-cancelled_before e p = ground arith

    run_from-failed :
        (e : Error) (t : S)
        → ctx n ≡ none
        → step.do_step s ≡ (err e, t)
        → run_from ctx n before (step ∷ steps) s ≡ rollback before (wrap step.name e) t
    unfolding run_from
    run_from-failed e t p q = ground arith

    run_from-cancelled_after :
        (e : Error) (t : S)
        → ctx n ≡ none
        → step.do_step s ≡ (ok tt, t)
        → ctx (n + 1) ≡ some e
        → run_from ctx n before (step ∷ steps) s
          ≡ rollback (before ++ (step ∷ [])) (wrap "context cancelled after" e) t
    unfolding run_from
    run_from-cancelled_after e t p q o = ground arith

    run_from-next :
        (t : S)
        → ctx n ≡ none
        → step.do_step s ≡ (ok tt, t)
        → ctx (n + 1) ≡ none
        → run_from ctx n before (step ∷ steps) s
          ≡ run_from ctx (n + 2) (before ++ (step ∷ [])) steps t
    unfolding run_from
    run_from-next t p q o = ground arith

  -- One completed step more.
  Ends-next :
      (ctx : Context) (n : ℕ) (before : List (Op S)) (step : Op S) (steps : List (Op S))
      (s₀ s t : S)
      → run_from ctx n before (step ∷ steps) s
        ≡ run_from ctx (n + 2) (before ++ (step ∷ [])) steps t
      → Ends ctx (n + 2) (before ++ (step ∷ [])) steps s₀ t
      → Ends ctx n before (step ∷ steps) s₀ s
  Ends-next ctx n before step steps s₀ s t p (inl (u, r, c, clear)) =
      inl (u, p ∙ r, rw append_assoc at c, rw append_assoc at clear)
  Ends-next ctx n before step steps s₀ s t p (inr (ran, left, v, u, cause, e, c, stop, r)) =
      inr (ran, left, v, u, cause, sym (append_assoc before (step ∷ []) steps) ∙ e, c, stop, p ∙ r)

  length-snoc : (xs : List (Op S)) (x : Op S) → length (xs ++ (x ∷ [])) ≡ suc (length xs)
  length-snoc xs x = omega (arith, length-append xs (x ∷ []))

  run_from-Ends :
      (ctx : Context) (n : ℕ) (before steps : List (Op S)) (s₀ s : S)
      → n ≡ length before + length before
      → IsClear ctx n
      → Completes before s₀ s
      → Ends ctx n before steps s₀ s
  unfolding run_from
  run_from-Ends ctx n before [] s₀ s m clear c =
      inl (s, refl, rw append-nil c, rw append-nil (subst (IsClear ctx) m clear))
  run_from-Ends ctx n before (step ∷ steps) s₀ s m clear c = elim (Option-cases (ctx n)) [
    | inr (e, p) ↦ inr (
      before,
      step ∷ steps,
      s,
      s,
      _,
      refl,
      c,
      cancelled_before (subst (IsClear ctx) m clear) (ap ctx (sym m) ∙ p),
      run_from-cancelled_before ctx n before step steps s e p,
    )
    | inl p ↦
        let here = IsClear-next ctx n clear p in
        let asked : n + 1 ≡ length before + length before + 1 = omega (arith, m) in
        elim (Result-cases (step.do_step s)) [
          | inr (e, t, q) ↦ inr (
            before,
            step ∷ steps,
            s,
            t,
            _,
            refl,
            c,
            failed (subst (IsClear ctx) asked here) q,
            run_from-failed ctx n before step steps s e t p q,
          )
          | inl (_, t, q) ↦
              let c' = Completes-snoc step c q in
              let more = length-snoc before step in
              elim (Option-cases (ctx (n + 1))) [
                | inr (e, o) ↦ inr (
                  before ++ (step ∷ []),
                  steps,
                  t,
                  t,
                  _,
                  sym (append_assoc before (step ∷ []) steps),
                  c',
                  subst (λ k. Stops ctx k steps t t (wrap "context cancelled after" e)) (sym more)
                      (cancelled_after (subst (IsClear ctx) asked here) (ap ctx (sym asked) ∙ o)),
                  run_from-cancelled_after ctx n before step steps s e t p q o,
                )
                | inl o ↦
                    let twice : n + 1 + 1 ≡ n + 2 = omega arith in
                    let there = subst (IsClear ctx) twice (IsClear-next ctx (n + 1) here o) in
                    Ends-next ctx n before step steps s₀ s t
                      (run_from-next ctx n before step steps s t p q o)
                      (run_from-Ends ctx (n + 2) (before ++ (step ∷ [])) steps s₀ t
                        (omega (arith, m, more)) there c')
              ]
        ]
  ]

  -- A run of a saga either returns no error, having done every step in order, with a context that
  -- answered before and after each of them that it is not cancelled; or it returns an error,
  -- having done some first steps in order until the next one failed or the context answered,
  -- before the next step or after the last one done, that it is cancelled, as it had not before.
  -- Then exactly those completed steps are undone, from the last to the first, and the error is
  -- the cause, that of the step or of the context, joined with the errors of the undoing.
  pub run_ends :
      (ctx : Context) (steps : List (Op S)) (s : S)
      → ((t : S) × (run ctx steps s ≡ (ok tt, t))
          × (Completes steps s t)
          × IsClear ctx (length steps + length steps))
        ⊎ ((ran : List (Op S)) × (left : List (Op S)) × (t : S) × (u : S) × (cause : Error) × (steps
              ≡ ran ++ left)
            × Completes ran s t
            × Stops ctx (length ran) left t u cause
            × (run ctx steps s ≡ (
              err (join_all cause (undo_all (reverse ran) u).0),
              (undo_all (reverse ran) u).1,
            )))
  unfolding run rollback
  run_ends ctx steps s = run_from-Ends ctx 0 [] steps s s refl (λ k l. absurd (omega arith)) done

  -- What makes a step safe in a saga: a failed `Do` has changed nothing, and `Undo` after `Do`
  -- succeeds and restores the state.
  pub record IsReversible (step : Op S) : Type 0 where
    pub clean : (s t : S) (e : Error) → step.do_step s ≡ (err e, t) → t ≡ s
    pub restores : (s t : S) → step.do_step s ≡ (ok tt, t) → step.undo t ≡ (ok tt, s)

  undo_all-snoc :
      (xs : List (Op S)) (step : Op S) (s t u : S)
      → undo_all xs s ≡ ([], t)
      → step.undo t ≡ (ok tt, u)
      → undo_all (xs ++ (step ∷ [])) s ≡ ([], u)
  unfolding undo_all
  undo_all-snoc [] step s t u h k = ground arith
  undo_all-snoc (x ∷ xs) step s t u h k = ground (arith, undo_all-snoc xs step (x.undo s).1 t u)

  undo_all-Completes :
      {steps : List (Op S)} {s t : S}
      → All IsReversible steps
      → Completes steps s t
      → undo_all (reverse steps) t ≡ ([], s)
  unfolding undo_all
  undo_all-Completes r done = refl
  undo_all-Completes {s} {t} r (next {step = x} {steps = xs} {t = v} h c) =
      rw (reverse-append (x ∷ []) xs)
        (undo_all-snoc (reverse xs) x t v s (undo_all-Completes r.1 c) (r.0.restores s v h))

  Stops-clean :
      {ctx : Context} {n : ℕ} {left : List (Op S)} {t u : S} {e : Error}
      → All IsReversible left
      → Stops ctx n left t u e
      → u ≡ t
  Stops-clean r (failed {step = x} {s = t} {t = u} {e = e} clear h) = r.0.clean t u e h
  Stops-clean r (cancelled_before _ _) = refl
  Stops-clean r (cancelled_after _ _) = refl

  pub All-append_left : (P : Op S → Type 0) (xs ys : List (Op S)) → All P (xs ++ ys) → All P xs
  All-append_left P [] ys h = tt
  All-append_left P (x ∷ xs) ys h = (h.0, All-append_left P xs ys h.1)

  pub All-append_right : (P : Op S → Type 0) (xs ys : List (Op S)) → All P (xs ++ ys) → All P ys
  All-append_right P [] ys h = h
  All-append_right P (x ∷ xs) ys h = All-append_right P xs ys h.1

  -- A saga of reversible steps is atomic: whenever it returns an error, on a failed step or on a
  -- cancelled context, the state is the one that it started from.
  pub run_atomic :
      (ctx : Context) (steps : List (Op S)) (s t : S) (e : Error)
      → All IsReversible steps
      → run ctx steps s ≡ (err e, t)
      → t ≡ s
  run_atomic ctx steps s t e r h = elim (run_ends ctx steps s) [
    | inl (u, k, _, _) ↦ cc
    | inr (ran, left, v, u, cause, split, c, stop, k) ↦
        let parts = subst (λ xs. All IsReversible xs) split r in
        let same = Stops-clean (All-append_right IsReversible ran left parts) stop in
        let undone = undo_all-Completes (All-append_left IsReversible ran left parts) c in
        cc (undone, same, h, k)
  ]
