-- ===== src/Ops/Background.antt =====
-- Sagas of two or three steps under a context that is never cancelled.
use vpn_pack.Common.{◌≡◌, List, [], ◌∷◌, ⊤, false, Error, wrap, Result, ok, err, arith, is_ok}
use vpn_pack.Ops.{Op, background, undo_all, rollback, run_from, run}

module _ {S : Type 0} where
  -- Sagas under `context.Background()` whose first or second step decides.
  pub run-first_failed :
      (a : Op S) (steps : List (Op S)) (s t : S) (e : Error)
      → a.do_step s ≡ (err e, t)
      → run background (a ∷ steps) s ≡ (err (wrap a.name e), t)
  unfolding run run_from rollback undo_all
  run-first_failed a steps s t e h = ground arith

  pub run-second_failed :
      (a b : Op S) (steps : List (Op S)) (s t u v : S) (e : Error) (r : Result ⊤)
      → a.do_step s ≡ (ok tt, t)
      → b.do_step t ≡ (err e, u)
      → a.undo u ≡ (r, v)
      → (run background (a ∷ b ∷ steps) s).1 ≡ v
        × is_ok (run background (a ∷ b ∷ steps) s).0 ≡ false
  unfolding run run_from rollback undo_all
  run-second_failed a b steps s t u v e r h k o = (ground arith, ground arith)

  pub run-two :
      (a b : Op S) (s t u : S)
      → a.do_step s ≡ (ok tt, t)
      → b.do_step t ≡ (ok tt, u)
      → run background (a ∷ b ∷ []) s ≡ (ok tt, u)
  unfolding run run_from rollback undo_all
  run-two a b s t u h k = ground arith

  pub run-three :
      (a b c : Op S) (s t u v : S)
      → a.do_step s ≡ (ok tt, t)
      → b.do_step t ≡ (ok tt, u)
      → c.do_step u ≡ (ok tt, v)
      → run background (a ∷ b ∷ c ∷ []) s ≡ (ok tt, v)
  unfolding run run_from rollback undo_all
  run-three a b c s t u v h k o = ground arith
