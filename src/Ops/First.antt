-- ===== src/Ops/First.antt =====
-- A saga that fails, seen from its first step.
use mathlib.Core.List.{reverse-cons}
use mathlib.Core.Path.{subst}
use vpn_pack.Common.{
  ℕ, length, ◌≡◌, refl, sym, ◌∙◌, ap, ◌⊎◌, inl, inr, List, [], ◌∷◌, ◌++◌, reverse, Error, Result,
  ok, err, ⊤, arith,
}
use vpn_pack.Ops.{Op, Context, undo_all, run}
use vpn_pack.Ops.Saga.{Completes, done, Stops, failed, cancelled_before, cancelled_after, run_ends}

module _ {S : Type 0} where
  undo_all-append :
      (xs ys : List (Op S)) (s : S) → (undo_all (xs ++ ys) s).1 ≡ (undo_all ys (undo_all xs s).1).1
  unfolding undo_all
  undo_all-append [] ys s = refl
  undo_all-append (x ∷ xs) ys s = undo_all-append xs ys (x.undo s).1

  undo_all-one : (x : Op S) (s : S) → (undo_all (x ∷ []) s).1 ≡ (x.undo s).1
  unfolding undo_all
  undo_all-one x s = refl

  undo_all-nil : (s : S) → (undo_all [] s).1 ≡ s
  unfolding undo_all
  undo_all-nil s = refl

  -- Nothing was done, or the first step failed, or its undoing came last.
  abbrev pub FirstEnds : Op S → S → S → Type 0
  FirstEnds x s t =
      (t ≡ s) ⊎ (((c : Error) × (x.do_step s ≡ (err c, t))) ⊎ ((u : S) × (t ≡ (x.undo u).1)))

  stopped :
      (ctx : Context) (n : ℕ) (x : Op S) (xs : List (Op S)) (s u : S) (e : Error)
      → Stops ctx n (x ∷ xs) s u e
      → FirstEnds x s u
  stopped ctx n x xs s u e (failed {e = c} _ p) = inr (inl (c, p))
  stopped ctx n x xs s u e (cancelled_before _ _) = inl refl
  stopped ctx n x xs s u e (cancelled_after _ _) = inl refl

  undone :
      (ctx : Context) (n : ℕ) (x : Op S) (xs ran left : List (Op S)) (s t u v : S) (e : Error)
      → x ∷ xs ≡ ran ++ left
      → Completes ran s t
      → Stops ctx n left t u e
      → v ≡ (undo_all (reverse ran) u).1
      → FirstEnds x s v
  undone ctx n x xs [] left s t u v e split done stop p =
      let same = p ∙ undo_all-nil u in
      subst (FirstEnds x s) (sym same)
        (stopped ctx n x xs s u e (subst (λ l. Stops ctx n l s u e) (sym split) stop))
  undone ctx n x xs (y ∷ ys) left s t u v e split c stop p =
      let before = (undo_all (reverse ys) u).1 in
      let same : x ≡ y = ground arith in
      inr (
        inr (
          before,
          p
              ∙ ap (λ l. (undo_all l u).1) (reverse-cons y ys)
              ∙ undo_all-append (reverse ys) (y ∷ []) u
              ∙ undo_all-one y before
              ∙ ap (λ (z : Op S). (z.undo before).1) (sym same),
        ))

  pub run-FirstEnds :
      (ctx : Context) (x : Op S) (xs : List (Op S)) (s t : S) (e : Error)
      → run ctx (x ∷ xs) s ≡ (err e, t)
      → FirstEnds x s t
  run-FirstEnds ctx x xs s t e h = elim (run_ends ctx (x ∷ xs) s) [
    | inl (u, k, _, _) ↦ absurd (ground arith)
    | inr (ran, left, u, v, cause, split, c, stop, k) ↦
        undone ctx (length ran) x xs ran left s u v t cause split c stop
          (ap (λ (q : Result ⊤ × S). q.1) (sym h ∙ k))
  ]

  -- A saga that succeeds has done its first step and then the others.
  pub run-Completes :
      (ctx : Context) (xs : List (Op S)) (s t : S) → run ctx xs s ≡ (ok tt, t) → Completes xs s t
  run-Completes ctx xs s t h = elim (run_ends ctx xs s) [
    | inl (u, k, c, _) ↦ subst (Completes xs s) (ap (λ (q : Result ⊤ × S). q.1) (sym k ∙ h)) c
    | inr (ran, left, u, v, cause, split, c, stop, k) ↦ absurd (ground arith)
  ]
