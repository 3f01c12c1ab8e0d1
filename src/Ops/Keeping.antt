-- ===== src/Ops/Keeping.antt =====
-- What no step of a saga changes, the saga does not change.
use mathlib.Core.List.{reverse-cons}
use mathlib.Core.Path.{subst}
use vpn_pack.Common.{
  ℕ, ◌≡◌, refl, sym, ◌∙◌, ap, inl, inr, List, [], ◌∷◌, ◌++◌, reverse, All, Error, Result, ⊤, Action,
}
use vpn_pack.Ops.{Op, Context, undo_all, run}
use vpn_pack.Ops.Saga.{
  Completes, done, next, Stops, failed, cancelled_before, cancelled_after, All-append_left,
  All-append_right, run_ends,
}

module _ {S X : Type 0} (f : S → X) where
  abbrev pub Keeps : {A : Type 0} → Action S A → Type 0
  Keeps m = (s : S) → f (m s).1 ≡ f s

  abbrev pub KeepsStep : Op S → Type 0
  KeepsStep step = Keeps step.do_step × Keeps step.undo

  undo_all_keeps :
      (steps : List (Op S)) → All KeepsStep steps → (s : S) → f (undo_all steps s).1 ≡ f s
  unfolding undo_all
  undo_all_keeps [] h s = refl
  undo_all_keeps (x ∷ xs) h s = undo_all_keeps xs h.1 (x.undo s).1 ∙ h.0.1 s

  pub append-All :
      (xs ys : List (Op S)) → All KeepsStep xs → All KeepsStep ys → All KeepsStep (xs ++ ys)
  append-All [] ys h k = k
  append-All (x ∷ xs) ys h k = (h.0, append-All xs ys h.1 k)

  reverse-All : (xs : List (Op S)) → All KeepsStep xs → All KeepsStep (reverse xs)
  reverse-All [] h = tt
  reverse-All (x ∷ xs) h =
      subst (All KeepsStep) (sym (reverse-cons x xs))
        (append-All (reverse xs) (x ∷ []) (reverse-All xs h.1) (h.0, tt))

  pub Completes-keeps :
      {steps : List (Op S)} {s t : S} → All KeepsStep steps → Completes steps s t → f t ≡ f s
  Completes-keeps h done = refl
  Completes-keeps h (next {step = x} {s = s} {t = t} p c) =
      Completes-keeps h.1 c ∙ ap (λ (q : Result ⊤ × S). f q.1) (sym p) ∙ h.0.0 s

  Stops-keeps :
      {ctx : Context} {n : ℕ} {steps : List (Op S)} {s t : S} {e : Error}
      → All KeepsStep steps
      → Stops ctx n steps s t e
      → f t ≡ f s
  Stops-keeps h (failed {s = s} _ p) = ap (λ (q : Result ⊤ × S). f q.1) (sym p) ∙ h.0.0 s
  Stops-keeps h (cancelled_before _ _) = refl
  Stops-keeps h (cancelled_after _ _) = refl

  -- Whether the saga ends well or is undone.
  pub run-Keeps :
      (ctx : Context) (steps : List (Op S)) → All KeepsStep steps → Keeps (run ctx steps)
  run-Keeps ctx steps h s = elim (run_ends ctx steps s) [
    | inl (t, p, c, _) ↦ ap (λ (q : Result ⊤ × S). f q.1) p ∙ Completes-keeps h c
    | inr (ran, left, t, u, cause, split, c, stop, p) ↦
        let both = subst (All KeepsStep) split h in
        let first = All-append_left KeepsStep ran left both in
        ap (λ (q : Result ⊤ × S). f q.1) p
        ∙ undo_all_keeps (reverse ran) (reverse-All ran first) u
        ∙ Stops-keeps (All-append_right KeepsStep ran left both) stop
        ∙ Completes-keeps first c
  ]
