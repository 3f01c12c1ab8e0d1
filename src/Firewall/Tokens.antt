-- ===== src/Firewall/Tokens.antt =====
-- When a rule's line matches.
use vpn_pack.Common.{
  String, Bool, true, false, List, [], ◌∷◌, ◌++◌, ◌≡◌, ◌≢◌, ◌↔◌, refl, ◌∙◌, ap, inl, inr, ◌==◌,
  eq_self, string_eq, arith, Bool-cases,
}
use vpn_pack.Firewall.Text.{starts_with, contains_run, line_contains_tokens}

starts-rest :
    (mf lf : List String) → starts_with mf lf ≡ true → (rest : List String) × (lf ≡ mf ++ rest)
unfolding starts_with
starts-rest [] lf h = (lf, refl)
starts-rest (m ∷ mf) [] h = absurd (ground arith)
starts-rest (m ∷ mf) (l ∷ lf) h = elim (Bool-cases (l == m)) [
  | inl same ↦ let (rest, p) = starts-rest mf lf (ground arith) in (rest, ground arith)
  | inr other ↦ absurd (ground arith)
]

rest-starts : (mf rest : List String) → starts_with mf (mf ++ rest) ≡ true
unfolding starts_with
rest-starts [] rest = refl
rest-starts (m ∷ mf) rest = ground (arith, eq_self m, rest-starts mf rest)

run-infix :
    (mf lf : List String)
    → contains_run mf lf ≡ true
    → (front : List String) × (rest : List String) × (lf ≡ front ++ (mf ++ rest))
unfolding contains_run
run-infix mf [] h = let (rest, p) = starts-rest mf [] h in ([], rest, p)
run-infix mf (l ∷ lf) h = elim (Bool-cases (starts_with mf (l ∷ lf))) [
  | inl here ↦ let (rest, p) = starts-rest mf (l ∷ lf) here in ([], rest, p)
  | inr later ↦
      let (front, rest, p) = run-infix mf lf (ground arith) in
      (l ∷ front, rest, ap (λ (ls : List String). l ∷ ls) p)
]

starts-run : (mf lf : List String) → starts_with mf lf ≡ true → contains_run mf lf ≡ true
unfolding contains_run
starts-run mf [] h = h
starts-run mf (l ∷ lf) h = ground arith

infix-run : (mf front rest : List String) → contains_run mf (front ++ (mf ++ rest)) ≡ true
unfolding contains_run
infix-run mf [] rest = starts-run mf (mf ++ rest) (rest-starts mf rest)
infix-run mf (f ∷ front) rest = ground (arith, infix-run mf front rest)

-- The test of the source on tokens, which finds nothing where nothing is looked for.
abbrev matched : List String → List String → Bool
matched mf lf = elim mf [ [] ↦ false | m ∷ ms ↦ contains_run (m ∷ ms) lf ]

abbrev InfixOf : List String → List String → Type 0
InfixOf mf lf =
    (mf ≢ []) × (front : List String) × (rest : List String) × (lf ≡ front ++ (mf ++ rest))

cons_not_empty : (m : String) (ms : List String) → (m ∷ ms) ≢ []
cons_not_empty m ms h = absurd (ground arith)

matched-InfixOf : (mf lf : List String) → matched mf lf ≡ true → InfixOf mf lf
matched-InfixOf [] lf h = absurd (ground arith)
matched-InfixOf (m ∷ ms) lf h =
    let (front, rest, p) = run-infix (m ∷ ms) lf h in (cons_not_empty m ms, front, rest, p)

InfixOf-matched : (mf lf : List String) → InfixOf mf lf → matched mf lf ≡ true
InfixOf-matched [] lf (some_there, front, rest, h) = absurd (some_there refl)
InfixOf-matched (m ∷ ms) lf (some_there, front, rest, h) =
    ap (contains_run (m ∷ ms)) h ∙ infix-run (m ∷ ms) front rest

module _ (fields : String → List String) where
  -- The tokens of the second text stand in the line in one piece.
  abbrev pub Infix : String → String → Type 0
  Infix line match_ =
      (fields match_ ≢ [])
      × (front : List String) × (rest : List String) × (fields line
          ≡ front ++ (fields match_ ++ rest))

  -- A line matches exactly when the tokens looked for stand in it one after the other, as whole
  -- tokens, and there is at least one.
  pub line_contains_tokens-Infix :
      (line match_ : String) → (line_contains_tokens fields line match_ ≡ true) ↔ Infix line match_
  unfolding line_contains_tokens
  line_contains_tokens-Infix line match_ =
      (matched-InfixOf (fields match_) (fields line), InfixOf-matched (fields match_) (fields line))
