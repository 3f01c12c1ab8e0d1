-- ===== src/Common/Errors.antt =====
-- Go's errors, and actions that change a state and may fail.
-- An error is a text, a wrapped error, or several joined. A text is the format string of the
-- source up to its first argument: the formatted arguments are left out.
use Prim.Native.String.{String}
use mathlib.Core.Path.{◌≡◌, refl, ap, sym, ◌∙◌}
use native.Mathlib.Omega.{arith}
use mathlib.Core.Logic.{◌⊎◌, inl, inr}
use mathlib.Core.Bool.{Bool, true, false, ◌||◌}
use mathlib.Core.List.{List, [], ◌∷◌}
use vpn_pack.Common.Tests.{⊤}

-- `Errno` values that the code tells apart.
pub data Errno : Type 0 where
  eexist esrch enoent other : Errno

pub data Error : Type 0 where
  text : String → Error
  errno : Errno → Error
  wrap : String → Error → Error
  join : Error → Error → Error

-- `errors.Is(err, unix.EEXIST)` and the like
abbrev same_errno : Errno → Errno → Bool
same_errno eexist eexist = true
same_errno esrch esrch = true
same_errno enoent enoent = true
same_errno other other = true
same_errno _ _ = false

abbrev pub is_errno : Errno → Error → Bool
is_errno n (text _) = false
is_errno n (errno m) = same_errno n m
is_errno n (wrap _ e) = is_errno n e
is_errno n (join e f) = is_errno n e || is_errno n f

-- `errors.Join` of a first error and further ones
abbrev pub join_all : Error → List Error → Error
join_all e [] = e
join_all e (f ∷ fs) = join e (join_all f fs)

pub data Result (A : Type 0) : Type 0 where
  ok : A → Result A
  err : Error → Result A

-- The state comes back after an error too, since what was written stays written.
abbrev pub Action : Type 0 → Type 0 → Type 0
Action S A = S → Result A × S

module _ {S A : Type 0} where
  abbrev pub pure : A → Action S A
  pure a s = (ok a, s)

  abbrev pub raise : Error → Action S A
  raise e s = (err e, s)

  -- `fmt.Errorf("…: %w", err)`
  abbrev pub wrapping : String → Action S A → Action S A
  wrapping m f s = let (r, s') = f s in elim r [ ok a ↦ (ok a, s') | err e ↦ (err (wrap m e), s') ]

  -- An error that is only logged.
  abbrev pub logged : Action S A → Action S ⊤
  logged f s = (ok tt, (f s).1)

infixl 5 ◌>>=◌ ◌>>◌
abbrev pub ◌>>=◌ : {S A B : Type 0} → Action S A → (A → Action S B) → Action S B
◌>>=◌ m f s = let (r, s') = m s in elim r [ ok a ↦ f a s' | err e ↦ (err e, s') ]

abbrev pub ◌>>◌ : {S A B : Type 0} → Action S A → Action S B → Action S B
m >> k = m >>= λ _. k

abbrev pub raise_if : {S : Type 0} → Bool → Error → Action S ⊤
raise_if true e s = (err e, s)
raise_if false e s = (ok tt, s)

abbrev pub is_ok : {A : Type 0} → Result A → Bool
is_ok (ok _) = true
is_ok (err _) = false

-- How a call may end.
pub Result-cases :
    {S A : Type 0} (p : Result A × S)
    → ((a : A) × (s : S) × (p ≡ (ok a, s))) ⊎ ((e : Error) × (s : S) × (p ≡ (err e, s)))
Result-cases (ok a, s) = inl (a, s, refl)
Result-cases (err e, s) = inr (e, s, refl)

pub Answer-cases :
    {A : Type 0} (r : Result A) → ((a : A) × (r ≡ ok a)) ⊎ ((e : Error) × (r ≡ err e))
Answer-cases (ok a) = inl (a, refl)
Answer-cases (err e) = inr (e, refl)

-- A chain of calls after its first one has ended.
module _ {S A B : Type 0} (m : Action S A) (f : A → Action S B) {s t : S} where
  pub >>=-ok : (a : A) → m s ≡ (ok a, t) → (m >>= f) s ≡ f a t
  >>=-ok a q = ap (λ (p : Result A × S). elim p.0 [ ok a ↦ f a p.1 | err e ↦ (err e, p.1) ]) q

  pub >>=-err : (e : Error) → m s ≡ (err e, t) → (m >>= f) s ≡ (err e, t)
  >>=-err e q = ap (λ (p : Result A × S). elim p.0 [ ok a ↦ f a p.1 | err e ↦ (err e, p.1) ]) q

  -- A chain that succeeds has come through its first call.
  pub >>=-split :
      (b : B)
      → (m >>= f) s ≡ (ok b, t)
      → (a : A) × (u : S) × (m s ≡ (ok a, u)) × (f a u ≡ (ok b, t))
  >>=-split b h = elim (Result-cases (m s)) [
    | inl (a, u, p) ↦ (
      a,
      u,
      p,
      sym (ap (λ (q : Result A × S). elim q.0 [ ok a ↦ f a q.1 | err e ↦ (err e, q.1) ]) p) ∙ h,
    )
    | inr (e, u, p) ↦ absurd (ground arith)
  ]

pub wrapping-split :
    {S A : Type 0} (msg : String) (f : Action S A) {s t : S} (a : A)
    → wrapping msg f s ≡ (ok a, t)
    → f s ≡ (ok a, t)
wrapping-split msg f {s} a h = elim (Result-cases (f s)) [
  | inl (b, u, p) ↦ ground arith
  | inr (e, u, p) ↦ absurd (ground arith)
]
