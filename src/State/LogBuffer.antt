-- ===== src/State/LogBuffer.antt =====
-- manager/state/logbuffer.go: a ring of the newest log entries. `none` is Go's panic on an index
-- out of range.
pub mod Newest
use vpn_pack.Common.{
  ℕ, zero, suc, ◌+◌, ◌-◌, ◌%◌, String, Bool, true, false, Option, none, some, List, [], ◌∷◌,
  get_elem?, set, replicate, length, ltb,
}
use vpn_pack.Common.Int.{ℤ, pos, negsuc}

pub record LogEntry : Type 0 where
  pub timestamp : String
  pub level : String
  pub message : String
  pub source : String

pub record LogBuffer : Type 0 where
  pub entries : List LogEntry
  pub head : ℕ
  pub count : ℕ
  pub max_size : ℕ

-- `make` fills the ring with zero entries.
abbrev pub zero_entry : LogEntry
zero_entry = record { timestamp = ""; level = ""; message = ""; source = "" }

-- A size below 1 is taken as 1.
unfoldable pub clamp : ℤ → ℕ
clamp (pos zero) = 1
clamp (pos (suc n)) = suc n
clamp (negsuc n) = 1

unfoldable pub new_log_buffer : ℤ → LogBuffer
new_log_buffer size = record {
  entries = replicate (clamp size) zero_entry;
  head = 0;
  count = 0;
  max_size = clamp size;
}

unfoldable pub add : LogEntry → LogBuffer → Option LogBuffer
add e lb =
    let next : LogBuffer = record lb {
      entries = set lb.entries lb.head e;
      head = (lb.head + 1) % lb.max_size;
      count = elim (ltb lb.count lb.max_size) [ true ↦ lb.count + 1 | false ↦ lb.count ];
    } in
    elim (ltb lb.head (length lb.entries)) [ true ↦ some next | false ↦ none ]

-- The place of the i-th newest entry: `(head - 1 - i + maxSize) % maxSize`. The sum comes first
-- here, since natural numbers stop at 0.
unfoldable pub place : LogBuffer → ℕ → ℕ
place lb i = (lb.head + lb.max_size - 1 - i) % lb.max_size

-- The loop of `Snapshot`, from `i` for `n` more rounds.
unfoldable pub snapshot_from : LogBuffer → ℕ → ℕ → Option (List LogEntry)
unfolding place
snapshot_from lb zero i = some []
snapshot_from lb (suc n) i =
    let rest = snapshot_from lb n (i + 1) in
    elim (get_elem? lb.entries (place lb i)) [
      | none ↦ none
      | some e ↦ elim rest [ none ↦ none | some es ↦ some (e ∷ es) ]
    ]

unfoldable pub snapshot : LogBuffer → Option (List LogEntry)
unfolding snapshot_from
snapshot lb = snapshot_from lb lb.count 0
