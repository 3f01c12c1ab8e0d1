-- ===== src/State/LogBuffer/Newest.antt =====
-- What a ring of log entries holds (manager/state/logbuffer.go).
use native.Mathlib.Nat.{mod-eq_of_lt, mod-eq-sub-mod}
use mathlib.Core.Path.{subst}
use mathlib.Core.List.{append_assoc, append-nil, reverse-append}
use vpn_pack.Common.{
  ℕ, ◌++◌, reverse, zero, suc, ◌+◌, ◌-◌, ◌%◌, ◌≤◌, ◌<◌, ◌≡◌, ◌≢◌, refl, sym, ◌∙◌, ap, inl, inr,
  true, false, Option, none, some, List, [], ◌∷◌, get_elem?, set, take, length, length-set,
  length-replicate, length-take, get_elem?-set_self, get_elem?-set_ne, ltb, arith, Bool-cases,
}
use vpn_pack.Common.Int.{ℤ, pos, negsuc}
use vpn_pack.State.LogBuffer.{
  LogEntry, zero_entry, LogBuffer, clamp, new_log_buffer, add, place, snapshot_from, snapshot,
}

-- The remainder of what is below twice the modulus.
mod_once : (x m : ℕ) → x < m → x % m ≡ x
mod_once x m h = mod-eq_of_lt h

mod_twice : (x m : ℕ) → m ≤ x → x < m + m → x % m ≡ x - m
mod_twice x m h k = mod-eq-sub-mod h ∙ mod_once (x - m) m (omega (arith, h, k))

-- The ring holds the newest of `xs`, which is the log from the newest entry on.
pub record Holds (lb : LogBuffer) (xs : List LogEntry) : Type 0 where
  pub some_room : 0 < lb.max_size
  pub full_length : length lb.entries ≡ lb.max_size
  pub head_in : lb.head < lb.max_size
  pub count_in : lb.count ≤ lb.max_size
  pub counted : lb.count ≡ length (take lb.max_size xs)
  pub held : (i : ℕ) → i < lb.count → get_elem? lb.entries (place lb i) ≡ get_elem? xs i

place_lem :
    (h m i : ℕ)
    → h < m
    → i < m
    → (h + m - 1 - i) % m ≡ elim (ltb i h) as (λ _. ℕ) [ true ↦ h - 1 - i | false ↦ h + m - 1 - i ]
place_lem h m i a b = elim (Bool-cases (ltb i h)) [
  | inl e ↦ rw e (mod_twice (h + m - 1 - i) m (ground arith) (ground arith) ∙ ground arith)
  | inr e ↦ rw e (mod_once (h + m - 1 - i) m (ground arith))
]

next_head :
    (h m : ℕ) → h < m → (h + 1) % m ≡ elim (ltb (h + 1) m) as (λ _. ℕ) [ true ↦ h + 1 | false ↦ 0 ]
next_head h m a = elim (Bool-cases (ltb (h + 1) m)) [
  | inl e ↦ rw e (mod_once (h + 1) m (ground arith))
  | inr e ↦ rw e (mod_twice (h + 1) m (ground arith) (ground arith) ∙ ground arith)
]

module _ (h m : ℕ) (a : h < m) where
  next_in : (h + 1) % m < m
  next_in = ground (arith, next_head h m a)

  -- The newest entry stands where the last one was written,
  place-zero : ((h + 1) % m + m - 1 - 0) % m ≡ h
  place-zero = ground (arith, next_head h m a, place_lem ((h + 1) % m) m 0 next_in)

  -- and the others one place on in the order.
  place-suc : (i : ℕ) → i + 1 < m → ((h + 1) % m + m - 1 - suc i) % m ≡ (h + m - 1 - i) % m
  place-suc i b =
      ground (arith, next_head h m a, place_lem ((h + 1) % m) m (suc i) next_in, place_lem h m i a)

  place-ne : (i : ℕ) → i + 1 < m → h ≢ (h + m - 1 - i) % m
  place-ne i b = ground (arith, place_lem h m i a)

clamp_pos : (size : ℤ) → 0 < clamp size
unfolding clamp
clamp_pos (pos zero) = omega arith
clamp_pos (pos (suc n)) = omega arith
clamp_pos (negsuc n) = omega arith

abbrev no_entries : List LogEntry
no_entries = []

Holds-new : (size : ℤ) → Holds (new_log_buffer size) []
unfolding new_log_buffer
Holds-new size = record {
  some_room = clamp_pos size;
  full_length = length-replicate (clamp size) zero_entry;
  head_in = clamp_pos size;
  count_in = omega arith;
  counted = omega (arith, length-take (clamp size) no_entries);
  held = λ i h. absurd (omega arith);
}

add-held :
    (e : LogEntry) (lb : LogBuffer) (xs : List LogEntry)
    → Holds lb xs
    → (count : ℕ) → count ≤ lb.count + 1
    → count ≤ lb.max_size
    → (i : ℕ) → i < count
    → get_elem?
        (set lb.entries lb.head e)
        (((lb.head + 1) % lb.max_size + lb.max_size - 1 - i) % lb.max_size)
      ≡ get_elem? (e ∷ xs) i
unfolding place
add-held e lb xs v count b c zero h =
    rw (place-zero lb.head lb.max_size v.head_in)
      (get_elem?-set_self lb.entries lb.head e (rw v.full_length v.head_in))
add-held e lb xs v count b c (suc j) h =
    let below : j + 1 < lb.max_size = omega (arith, h, c) in
    rw (place-suc lb.head lb.max_size v.head_in j below) (
      get_elem?-set_ne lb.entries e (place-ne lb.head lb.max_size v.head_in j below)
      ∙ v.held j (omega (arith, h, b)))

add-Holds :
    (e : LogEntry) (lb : LogBuffer) (xs : List LogEntry)
    → Holds lb xs
    → (lb' : LogBuffer) × (add e lb ≡ some lb') × (lb'.max_size ≡ lb.max_size) × Holds lb' (e ∷ xs)
unfolding add place
add-Holds e lb xs v =
    let m = lb.max_size in
    let h = lb.head in
    let count : ℕ = elim (ltb lb.count m) [ true ↦ lb.count + 1 | false ↦ lb.count ] in
    let entries = set lb.entries h e in
    let next : LogBuffer = record lb { entries = entries; head = (h + 1) % m; count = count } in
    let in_ring : h < length lb.entries = rw v.full_length v.head_in in
    let in_range : ltb h (length lb.entries) ≡ true = ground arith in
    (
      next,
      rw (in_range, add) refl,
      refl,
      record {
        some_room = v.some_room;
        full_length = length-set lb.entries h e ∙ v.full_length;
        head_in = next_in h m v.head_in;
        count_in = ground arith;
        counted = ground (arith, v.counted, v.count_in, length-take m xs, length-take m (e ∷ xs));
        held = add-held e lb xs v count (ground arith) (ground arith);
      },
    )

take-length : {A : Type 0} (m : ℕ) (xs : List A) → take (length (take m xs)) xs ≡ take m xs
take-length zero xs = refl
take-length (suc m) [] = refl
take-length (suc m) (x ∷ xs) = ap (λ ys. x ∷ ys) (take-length m xs)

snapshot_from-take :
    (lb : LogBuffer) (n i : ℕ) (xs : List LogEntry)
    → n ≤ length xs
    → ((j : ℕ) → j < n → get_elem? lb.entries (place lb (i + j)) ≡ get_elem? xs j)
    → snapshot_from lb n i ≡ some (take n xs)
unfolding snapshot_from
snapshot_from-take lb zero i xs h g = refl
snapshot_from-take lb (suc n) i [] h g = absurd (omega arith)
snapshot_from-take lb (suc n) i (x ∷ xs) h g =
    let next : (j : ℕ) → j < n → get_elem? lb.entries (place lb (i + 1 + j)) ≡ get_elem? xs j =
      λ j b. ap (λ k. get_elem? lb.entries (place lb k)) (omega arith) ∙ g (suc j) (omega arith) in
    let here : get_elem? lb.entries (place lb i) ≡ some x =
      ap (λ k. get_elem? lb.entries (place lb k)) (omega arith) ∙ g 0 (omega arith) in
    ground (arith, here, snapshot_from-take lb n (i + 1) xs (omega arith) next)

snapshot-Holds :
    (lb : LogBuffer) (xs : List LogEntry) → Holds lb xs → snapshot lb ≡ some (take lb.max_size xs)
unfolding snapshot
snapshot-Holds lb xs v =
    snapshot_from-take lb lb.count 0 xs (omega (arith, v.counted, length-take lb.max_size xs))
      (λ j b. ap (λ k. get_elem? lb.entries (place lb k)) (omega arith) ∙ v.held j b)
    ∙ ap (λ n. some (take n xs)) v.counted
    ∙ ap some (take-length lb.max_size xs)

-- The entries that are added, one after the other.
unfoldable pub add_all : List LogEntry → LogBuffer → Option LogBuffer
add_all [] lb = some lb
add_all (e ∷ es) lb = elim (add e lb) [ none ↦ none | some lb' ↦ add_all es lb' ]

add_all-Holds :
    (es : List LogEntry) (lb : LogBuffer) (xs : List LogEntry)
    → Holds lb xs
    → (lb' : LogBuffer) × (add_all es lb ≡ some lb')
      × (lb'.max_size ≡ lb.max_size)
      × Holds lb' (reverse es ++ xs)
unfolding add_all
add_all-Holds [] lb xs v = (lb, refl, refl, v)
add_all-Holds (e ∷ es) lb xs v =
    let (lb', p, same, w) = add-Holds e lb xs v in
    let (lb'', q, same', u) = add_all-Holds es lb' (e ∷ xs) w in
    (
      lb'',
      ground arith,
      same' ∙ same,
      subst (λ ys. Holds lb'' ys)
          (sym (
            ap (λ ys. ys ++ xs) (reverse-append (e ∷ []) es)
            ∙ append_assoc (reverse es) (e ∷ []) xs))
          u,
    )

-- For any size that is asked for and any entries added to a new buffer in their order, no index
-- goes out of range, and a snapshot is the newest entries, from the newest on, as many as the size
-- allows: the size itself, or 1 where it is less.
pub snapshot-newest :
    (size : ℤ) (es : List LogEntry)
    → (lb : LogBuffer) × (add_all es (new_log_buffer size) ≡ some lb)
      × (snapshot lb ≡ some (take (clamp size) (reverse es)))
unfolding new_log_buffer
snapshot-newest size es =
    let (lb, p, same, v) = add_all-Holds es (new_log_buffer size) [] (Holds-new size) in
    (
      lb,
      p,
      snapshot-Holds lb (reverse es ++ []) v
          ∙ ap (λ n. some (take n (reverse es ++ []))) same
          ∙ ap (λ xs. some (take (clamp size) xs)) (append-nil (reverse es)),
    )
