-- ===== src/Firewall/Chains.antt =====
-- The order of a chain: how many jumps to the target stand before the first jump to UniFi's chain.
use vpn_pack.Common.{
  ℕ, All, zero, suc, ◌+◌, ◌<◌, String, Bool, true, false, ◌||◌, ◌≡◌, refl, sym, ◌∙◌, ap, inl, inr,
  Option, none, some, List, [], ◌∷◌, ltb, length, insert_at, arith, Bool-cases, if◌then◌else◌,
}
use vpn_pack.Firewall.Text.{
  is_some, has_prefix, OrderResult, is_misplaced, nothing_found, line_jumps_to, audit_line,
  audit_from,
}

-- The lines of a chain in the whole text.
abbrev pub chain_of : String → List String → List String
chain_of prefix [] = []
chain_of prefix (l ∷ ls) =
    if has_prefix l prefix then l ∷ chain_of prefix ls else chain_of prefix ls

abbrev pub first_place : (String → Bool) → List String → Option ℕ
first_place p [] = none
first_place p (l ∷ ls) =
    if p l then some 0 else elim (first_place p ls) [ none ↦ none | some i ↦ some (suc i) ]

abbrev pub delete_first : (String → Bool) → List String → List String
delete_first p [] = []
delete_first p (l ∷ ls) = if p l then ls else l ∷ delete_first p ls

abbrev pub without : (String → Bool) → List String → List String
without p [] = []
without p (l ∷ ls) = if p l then without p ls else l ∷ without p ls

-- The places of the target and of UniFi's jump, as the audit counts them.
abbrev pub found : ℕ → OrderResult → Option ℕ → Option ℕ → OrderResult
found pos res target ubios = record {
  has_ubios = res.has_ubios || is_some ubios;
  has_target = res.has_target || is_some target;
  target_pos =
      if res.has_target
      then res.target_pos
      else elim target [ none ↦ res.target_pos | some i ↦ suc pos + i ];
  ubios_pos =
      if res.has_ubios
      then res.ubios_pos
      else elim ubios [ none ↦ res.ubios_pos | some i ↦ suc pos + i ];
}

module _ (fields : String → List String) (target ubios : String) where
  abbrev J : String → Bool
  J l = line_jumps_to fields l target

  abbrev U : String → Bool
  U l = line_jumps_to fields l ubios

  found-line :
      (pos : ℕ) (l : String) (ls : List String) (res : OrderResult)
      → found
          (suc pos)
          (audit_line fields target ubios (suc pos) l res)
          (first_place J ls)
          (first_place U ls)
        ≡ found pos res (first_place J (l ∷ ls)) (first_place U (l ∷ ls))
  unfolding audit_line
  found-line pos l ls res = ground arith

  pub audit_from-found :
      (prefix : String) (pos : ℕ) (res : OrderResult) (ls : List String)
      → audit_from fields prefix target ubios pos res ls
        ≡ found pos res (first_place J (chain_of prefix ls)) (first_place U (chain_of prefix ls))
  unfolding audit_from
  audit_from-found prefix pos res [] = ground arith
  audit_from-found prefix pos res (l ∷ ls) = elim (Bool-cases (has_prefix l prefix)) [
    | inl h ↦
        let next = audit_line fields target ubios (suc pos) l res in
        let end : audit_from fields prefix target ubios pos res (l ∷ ls)
            ≡ audit_from fields prefix target ubios (suc pos) next ls =
          ground arith in
        let chain : chain_of prefix (l ∷ ls) ≡ l ∷ chain_of prefix ls = ground arith in
        end
        ∙ audit_from-found prefix (suc pos) next ls
        ∙ found-line pos l (chain_of prefix ls) res
        ∙ ap (λ c. found pos res (first_place J c) (first_place U c)) (sym chain)
    | inr h ↦
        let chain : chain_of prefix (l ∷ ls) ≡ chain_of prefix ls = ground arith in
        let end : audit_from fields prefix target ubios pos res (l ∷ ls)
            ≡ audit_from fields prefix target ubios pos res ls =
          ground arith in
        end
        ∙ audit_from-found prefix pos res ls
        ∙ ap (λ c. found pos res (first_place J c) (first_place U c)) (sym chain)
  ]

-- A chain, for what a line jumps to; no line jumps to both.
module _ (J U : String → Bool) (apart : (l : String) → J l ≡ true → U l ≡ false) where
  -- How many jumps to the target stand before UniFi's.
  abbrev pub before : List String → Option ℕ
  before [] = none
  before (l ∷ ls) =
      if U l
      then some 0
      else elim (before ls) [ none ↦ none | some n ↦ some (if J l then suc n else n) ]

  abbrev pub shadowing : List String → ℕ
  shadowing ls = elim (before ls) [ none ↦ 0 | some n ↦ n ]

  before-some : (ls : List String) → is_some (before ls) ≡ is_some (first_place U ls)
  before-some [] = refl
  before-some (l ∷ ls) = ground (arith, before-some ls)

  pub shadowing-misplaced :
      (ls : List String)
      → ltb 0 (shadowing ls)
        ≡ is_misplaced (found 0 nothing_found (first_place J ls) (first_place U ls))
  shadowing-misplaced [] = refl
  shadowing-misplaced (l ∷ ls) = ground (arith, shadowing-misplaced ls, before-some ls, apart l)

  -- The place behind the first jump to UniFi's chain.
  inserted :
      (x : String) (ls : List String) (u : ℕ)
      → first_place U ls ≡ some u
      → before (insert_at (suc u) x ls) ≡ before ls
  inserted x [] u h = absurd (ground arith)
  inserted x (l ∷ ls) zero h = ground arith
  inserted x (l ∷ ls) (suc u) h = ground (arith, inserted x ls u)

  pub repaired :
      (x : String) (ls : List String) (n u : ℕ)
      → before ls ≡ some (suc n)
      → first_place U ls ≡ some u
      → before (insert_at u x (delete_first J ls)) ≡ some n
  repaired x [] n u h k = absurd (ground arith)
  repaired x (l ∷ ls) n zero h k = ground arith
  repaired x (l ∷ ls) n (suc u) h k =
      ground (arith, repaired x ls n u, inserted x ls u, apart l, before-some ls)

  pub without-delete_first : (ls : List String) → without J (delete_first J ls) ≡ without J ls
  without-delete_first [] = refl
  without-delete_first (l ∷ ls) = ground (arith, without-delete_first ls)

  pub without-insert_at :
      (x : String) (n : ℕ) (ls : List String)
      → J x ≡ true
      → without J (insert_at n x ls) ≡ without J ls
  without-insert_at x zero ls h = ground arith
  without-insert_at x (suc n) [] h = ground arith
  without-insert_at x (suc n) (l ∷ ls) h = ground (arith, without-insert_at x n ls h)

pub first_place-length :
    (p : String → Bool) (ls : List String) (u : ℕ) → first_place p ls ≡ some u → u < length ls
first_place-length p [] u h = absurd (ground arith)
first_place-length p (l ∷ ls) zero h = omega arith
first_place-length p (l ∷ ls) (suc u) h = ground (arith, first_place-length p ls u)

pub length-delete_first :
    (p : String → Bool) (ls : List String) (u : ℕ)
    → first_place p ls ≡ some u
    → suc (length (delete_first p ls)) ≡ length ls
length-delete_first p [] u h = absurd (ground arith)
length-delete_first p (l ∷ ls) zero h = ground arith
length-delete_first p (l ∷ ls) (suc u) h = ground (arith, length-delete_first p ls u)

-- Two tests that agree on the lines of a chain.
abbrev pub Agree : (String → Bool) → (String → Bool) → String → Type 0
Agree p q l = p l ≡ q l

pub first_place-Agree :
    (p q : String → Bool) (ls : List String)
    → All (Agree p q) ls
    → first_place p ls ≡ first_place q ls
first_place-Agree p q [] h = refl
first_place-Agree p q (l ∷ ls) h = ground (arith, h.0, first_place-Agree p q ls h.1)

pub delete_first-Agree :
    (p q : String → Bool) (ls : List String)
    → All (Agree p q) ls
    → delete_first p ls ≡ delete_first q ls
delete_first-Agree p q [] h = refl
delete_first-Agree p q (l ∷ ls) h = ground (arith, h.0, delete_first-Agree p q ls h.1)

pub delete_first-All :
    (P : String → Type 0) (p : String → Bool) (ls : List String)
    → All P ls
    → All P (delete_first p ls)
delete_first-All P p [] h = tt
delete_first-All P p (l ∷ ls) h =
    elim (p l) as (λ b. All P (if b then ls else l ∷ delete_first p ls)) [
      | true ↦ h.1
      | false ↦ (h.0, delete_first-All P p ls h.1)
    ]

pub insert_at-All :
    (P : String → Type 0) (x : String) (n : ℕ) (ls : List String)
    → P x
    → All P ls
    → All P (insert_at n x ls)
insert_at-All P x zero ls h k = (h, k)
insert_at-All P x (suc n) [] h k = (h, tt)
insert_at-All P x (suc n) (l ∷ ls) h k = (k.0, insert_at-All P x n ls h k.1)
