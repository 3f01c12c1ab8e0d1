-- ===== src/State/Manifest/Zones.antt =====
-- The zones that `get_wg_s2s_zones` lists.
use mathlib.Core.Path.{subst}
use vpn_pack.Common.{
  ◌==◌, ℕ, zero, suc, ◌+◌, String, true, false, Option, none, some, List, [], ◌∷◌, ◌++◌, ◌≡◌, refl,
  ap, sym, ◌∙◌, arith, Option-cases, Bool-cases, inl, inr, string_eq, if◌then◌else◌, map, contains,
  ◌||◌,
}
use vpn_pack.Common.Int.{ℤ, pos, incr}
use vpn_pack.Common.Map.{Map, lookup, insert, lookup-nil, lookup-insert}
use vpn_pack.Domain.{ZoneManifest, WgS2sZoneInfo}
use vpn_pack.State.Manifest.{Manifest}
use vpn_pack.State.Manifest.Read.{new_info, bump, zones_from, collect, get_wg_s2s_zones}

-- How many tunnels have a zone, and the name that the first of them gives it.
abbrev pub tunnels_in : String → Map String ZoneManifest → ℕ
tunnels_in id [] = 0
tunnels_in id ((_, zm) ∷ rest) =
    if zm.zone_id == id then suc (tunnels_in id rest) else tunnels_in id rest

abbrev pub first_name : String → Map String ZoneManifest → String
first_name id [] = ""
first_name id ((_, zm) ∷ rest) = if zm.zone_id == id then zm.zone_name else first_name id rest

-- The entry of a zone.
abbrev pub summary : String → Map String ZoneManifest → Option WgS2sZoneInfo
summary id tunnels = elim (tunnels_in id tunnels) [
  | zero ↦ none
  | suc n ↦
      some (record { zone_id = id; zone_name = first_name id tunnels; tunnel_count = pos (suc n) })
]

abbrev pub entry : String → List WgS2sZoneInfo → Option WgS2sZoneInfo
entry id [] = none
entry id (info ∷ rest) = if info.zone_id == id then some info else entry id rest

abbrev pub Distinct : List String → Type 0
Distinct [] = Unit
Distinct (x ∷ xs) = (contains x xs ≡ false) × Distinct xs

-- The loop, for one zone.
abbrev extended : String → Option WgS2sZoneInfo → Map String ZoneManifest → Option WgS2sZoneInfo
extended id o [] = o
extended id o ((_, zm) ∷ rest) =
    if zm.zone_id == id
    then extended id (some (elim o [ none ↦ new_info zm | some i ↦ bump i ])) rest
    else extended id o rest

abbrev shifted : ℕ → ℤ → ℤ
shifted zero c = c
shifted (suc n) c = shifted n (incr c)

shifted-pos : (n m : ℕ) → shifted n (pos m) ≡ pos (n + m)
shifted-pos zero m = ap pos (omega arith)
shifted-pos (suc n) m = shifted-pos n (suc m) ∙ ap pos (omega arith)

extended-some :
    (id : String) (i : WgS2sZoneInfo) (rest : Map String ZoneManifest)
    → extended id (some i) rest
      ≡ some (record i { tunnel_count = shifted (tunnels_in id rest) i.tunnel_count })
extended-some id i [] = refl
extended-some id i ((k, zm) ∷ rest) =
    ground (arith, extended-some id i rest, extended-some id (bump i) rest)

extended-none :
    (id : String) (rest : Map String ZoneManifest) → extended id none rest ≡ summary id rest
extended-none id [] = refl
extended-none id ((k, zm) ∷ rest) = ground (
  arith,
  extended-none id rest,
  extended-some id (new_info zm) rest,
  shifted-pos (tunnels_in id rest) 1,
)

-- What the loop keeps true of its two variables.
pub record Matches (seen : Map String WgS2sZoneInfo) (order : List String) : Type 0 where
  pub keyed : (id : String) (info : WgS2sZoneInfo) → lookup id seen ≡ some info → info.zone_id ≡ id
  pub listed :
      (id : String) → contains id order ≡ elim (lookup id seen) [ none ↦ false | some _ ↦ true ]
  pub distinct : Distinct order

contains-snoc :
    (a b : String) (xs : List String) → contains a (xs ++ (b ∷ [])) ≡ (contains a xs || b == a)
contains-snoc a b [] = ground arith
contains-snoc a b (x ∷ xs) = ground (arith, contains-snoc a b xs)

snoc-Distinct :
    (b : String) (xs : List String)
    → contains b xs ≡ false
    → Distinct xs
    → Distinct (xs ++ (b ∷ []))
snoc-Distinct b [] h d = (refl, tt)
snoc-Distinct b (x ∷ xs) h d = ground (arith, contains-snoc x b xs, snoc-Distinct b xs)

first_Matches : Matches [] []
unfolding lookup
first_Matches = record {
  keyed = λ id info h. absurd (ground arith);
  listed = λ id. refl;
  distinct = tt;
}

-- A zone that is seen again, and one that is new.
again_Matches :
    (seen : Map String WgS2sZoneInfo) (order : List String) (z : String) (info : WgS2sZoneInfo)
    → Matches seen order
    → lookup z seen ≡ some info
    → Matches (insert z (bump info) seen) order
again_Matches seen order z info m h = record {
  keyed =
      λ id i p. ground (arith, m.keyed id i, m.keyed z info h, lookup-insert id z (bump info) seen);
  listed = λ id. ground (arith, m.listed id, lookup-insert id z (bump info) seen);
  distinct = m.distinct;
}

new_Matches :
    (seen : Map String WgS2sZoneInfo) (order : List String) (zm : ZoneManifest)
    → Matches seen order
    → lookup zm.zone_id seen ≡ none
    → Matches (insert zm.zone_id (new_info zm) seen) (order ++ (zm.zone_id ∷ []))
new_Matches seen order zm m h = record {
  keyed = λ id i p. ground (arith, m.keyed id i, lookup-insert id zm.zone_id (new_info zm) seen);
  listed = λ id. ground (
    arith,
    m.listed id,
    contains-snoc id zm.zone_id order,
    lookup-insert id zm.zone_id (new_info zm) seen,
  );
  distinct = snoc-Distinct zm.zone_id order (ground (arith, m.listed zm.zone_id)) m.distinct;
}

-- What the loop ends with.
abbrev LoopEnds :
    Map String ZoneManifest
    → Map String WgS2sZoneInfo
    → Map String WgS2sZoneInfo × List String
    → Type 0
LoopEnds rest seen (seen', order) =
    Matches seen' order
    × ((id : String) → (id == "") ≡ false → lookup id seen' ≡ extended id (lookup id seen) rest)
    × (lookup "" seen' ≡ lookup "" seen)

abbrev Advances :
    ZoneManifest
    → Map String ZoneManifest
    → Map String WgS2sZoneInfo
    → Map String WgS2sZoneInfo
    → Type 0
Advances zm rest seen next =
    ((id : String)
      → (id == "") ≡ false
      → extended id (lookup id next) rest ≡ extended id (lookup id seen) (("", zm) ∷ rest))
    × (lookup "" next ≡ lookup "" seen)

advance-LoopEnds :
    (k : String) (zm : ZoneManifest) (rest : Map String ZoneManifest)
    (seen next : Map String WgS2sZoneInfo) (p : Map String WgS2sZoneInfo × List String)
    → Advances zm rest seen next
    → LoopEnds rest next p
    → LoopEnds ((k, zm) ∷ rest) seen p
advance-LoopEnds k zm rest seen next (seen', order) (a, b) (m, f, g) =
    (m, (λ id h. f id h ∙ a id h), g ∙ b)

module _ (zm : ZoneManifest) (rest : Map String ZoneManifest)
    (seen : Map String WgS2sZoneInfo) where
  empty-Advances : (zm.zone_id == "") ≡ true → Advances zm rest seen seen
  empty-Advances h = ((λ id n. ground arith), refl)

  again-Advances :
      (info : WgS2sZoneInfo)
      → (zm.zone_id == "") ≡ false
      → lookup zm.zone_id seen ≡ some info
      → Advances zm rest seen (insert zm.zone_id (bump info) seen)
  again-Advances info h p = (
    (λ id n. rw (lookup-insert id zm.zone_id (bump info) seen) (ground arith)),
    lookup-insert "" zm.zone_id (bump info) seen ∙ ground arith,
  )

  new-Advances :
      (zm.zone_id == "") ≡ false
      → lookup zm.zone_id seen ≡ none
      → Advances zm rest seen (insert zm.zone_id (new_info zm) seen)
  new-Advances h p = (
    (λ id n. rw (lookup-insert id zm.zone_id (new_info zm) seen) (ground arith)),
    lookup-insert "" zm.zone_id (new_info zm) seen ∙ ground arith,
  )

zones_from-LoopEnds :
    (rest : Map String ZoneManifest) (seen : Map String WgS2sZoneInfo) (order : List String)
    → Matches seen order
    → LoopEnds rest seen (zones_from rest seen order)
unfolding zones_from
zones_from-LoopEnds [] seen order m = (m, (λ id h. refl), refl)
zones_from-LoopEnds ((k, zm) ∷ rest) seen order m =
    let all = (k, zm) ∷ rest in
    elim (Bool-cases (zm.zone_id == "")) [
      | inl empty ↦
          let end : zones_from all seen order ≡ zones_from rest seen order = ground arith in
          subst (LoopEnds all seen) (sym end) (
            advance-LoopEnds k zm rest seen seen (zones_from rest seen order)
              (empty-Advances zm rest seen empty) (zones_from-LoopEnds rest seen order m))
      | inr named ↦ elim (Option-cases (lookup zm.zone_id seen)) [
        | inl p ↦
            let next = insert zm.zone_id (new_info zm) seen in
            let order' = order ++ (zm.zone_id ∷ []) in
            let end : zones_from all seen order ≡ zones_from rest next order' = ground arith in
            subst (LoopEnds all seen) (sym end) (
              advance-LoopEnds k zm rest seen next (zones_from rest next order')
                (new-Advances zm rest seen named p)
                (zones_from-LoopEnds rest next order' (new_Matches seen order zm m p)))
        | inr (info, p) ↦
            let next = insert zm.zone_id (bump info) seen in
            let end : zones_from all seen order ≡ zones_from rest next order = ground arith in
            subst (LoopEnds all seen) (sym end) (
              advance-LoopEnds k zm rest seen next (zones_from rest next order)
                (again-Advances zm rest seen info named p)
                (zones_from-LoopEnds rest next order
                  (again_Matches seen order zm.zone_id info m p)))
      ]
    ]

-- The list that is collected.
abbrev Collected : Map String WgS2sZoneInfo → List String → Option (List WgS2sZoneInfo) → Type 0
Collected seen order o =
    (infos : List WgS2sZoneInfo) × (o ≡ some infos)
    × (map (λ i. i.zone_id) infos ≡ order)
    × ((id : String) → entry id infos ≡ (if contains id order then lookup id seen else none))

collect-Collected :
    (seen : Map String WgS2sZoneInfo)
    → ((id : String) (info : WgS2sZoneInfo) → lookup id seen ≡ some info → info.zone_id ≡ id)
    → (order : List String)
    → ((id : String) → contains id order ≡ true → (i : WgS2sZoneInfo) × (lookup id seen ≡ some i))
    → Collected seen order (collect seen order)
unfolding collect
collect-Collected seen keyed [] h = ([], refl, refl, (λ id. refl))
collect-Collected seen keyed (id ∷ ids) h =
    let (i, p) = h id (ground arith) in
    let (infos, q, same, found) = collect-Collected seen keyed ids (λ j n. h j (ground arith)) in
    (
      i ∷ infos,
      ground arith,
      (λ k. keyed id i p k ∷ same k),
      λ j. ground (arith, found j, keyed id i p),
    )

-- The list of zones has one entry for each zone that some tunnel has, with the name that the first
-- such tunnel gives it and the number of such tunnels, and no other; a tunnel without a zone counts
-- for none. No pointer is nil.
pub get_wg_s2s_zones-summary :
    {Time : Type 0} (m : Manifest Time)
    → (infos : List WgS2sZoneInfo) × (get_wg_s2s_zones m ≡ some infos)
      × Distinct (map (λ i. i.zone_id) infos)
      × ((id : String) → entry id infos ≡ (if id == "" then none else summary id m.wg_s2s))
unfolding get_wg_s2s_zones
get_wg_s2s_zones-summary m =
    let nil : (k : String) → lookup {V = WgS2sZoneInfo} k [] ≡ none = λ k. lookup-nil k in
    let (seen, order) = zones_from m.wg_s2s [] [] in
    let (matches, found, nameless) = zones_from-LoopEnds m.wg_s2s [] [] first_Matches in
    let (infos, p, same, entries) = collect-Collected seen matches.keyed order (λ id h.
      elim (Option-cases (lookup id seen)) [
        | inr (i, q) ↦ (i, q)
        | inl q ↦ absurd (ground (arith, matches.listed id))
      ]) in
    (
      infos,
      p,
      subst Distinct (sym same) matches.distinct,
      λ id.
          (let shown : entry id infos ≡ lookup id seen =
              entries id ∙ ground (arith, matches.listed id) in
            shown ∙ ground (arith, found id, nameless, nil id, nil "", extended-none id m.wg_s2s)),
    )
