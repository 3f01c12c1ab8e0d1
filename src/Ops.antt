-- ===== src/Ops.antt =====
-- manager/ops/op.go: a saga, which runs steps in order and undoes the completed ones in reverse.
-- A step's `Do` and `Undo` are actions on the state `S` that the closures share. The context is
-- the list of what its successive `ctx.Err()` calls answer, so that it may be cancelled at any
-- moment; `context.Background()` answers nil for ever.
pub mod Saga
pub mod Background
pub mod First
pub mod Keeping
use vpn_pack.Common.{
  ℕ, ◌+◌, String, Option, none, some, List, [], ◌∷◌, ◌++◌, reverse, ⊤, Error, wrap, join_all, ok,
  err, Action,
}

pub record Op (S : Type 0) : Type 0 where
  pub name : String
  pub do_step : Action S ⊤
  pub undo : Action S ⊤

-- `ctx.Err()` at the n-th time it is asked
abbrev pub Context : Type 0
Context = ℕ → Option Error

abbrev pub background : Context
background n = none

module _ {S : Type 0} where
  -- `Noop`: nothing to undo
  abbrev pub noop : String → Action S ⊤ → Op S
  noop name act = record { name = name; do_step = act; undo = λ s. (ok tt, s) }

  -- The loop of `rollback`, over the completed steps from the last to the first.
  unfoldable pub undo_all : List (Op S) → S → List Error × S
  undo_all [] s = ([], s)
  undo_all (step ∷ done) s =
      let (r, s') = step.undo s in
      let (errs, s'') = undo_all done s' in
      (elim r [ ok _ ↦ errs | err e ↦ wrap "undo" e ∷ errs ], s'')

  unfoldable pub rollback : List (Op S) → Error → Action S ⊤
  unfolding undo_all
  rollback done cause s =
      let (errs, s') = undo_all (reverse done) s in (err (join_all cause errs), s')

  -- The loop of `Run`; `done` is the completed steps in order, `n` counts the calls of `ctx.Err()`.
  unfoldable pub run_from : Context → ℕ → List (Op S) → List (Op S) → Action S ⊤
  unfolding rollback
  run_from ctx n done [] s = (ok tt, s)
  run_from ctx n done (step ∷ steps) s =
      let (r, s') = step.do_step s in
      let rest = run_from ctx (n + 2) (done ++ (step ∷ [])) steps s' in
      elim (ctx n) [
        | some e ↦ rollback done (wrap "context cancelled before" e) s
        | none ↦ elim r [
          | err e ↦ rollback done (wrap step.name e) s'
          | ok _ ↦ elim (ctx (n + 1)) [
            | some e ↦ rollback (done ++ (step ∷ [])) (wrap "context cancelled after" e) s'
            | none ↦ rest
          ]
        ]
      ]

  unfoldable pub run : Context → List (Op S) → Action S ⊤
  unfolding run_from
  run ctx steps = run_from ctx 0 [] steps
