-- ===== src/Health.antt =====
-- manager/health.go: the health of the watchers, with what is sent to the hub when it changes. Each
-- method runs under the tracker's lock and is one function here. An instant is a number of
-- nanoseconds, 0 is the zero time.
pub mod Broadcast
pub mod Retries
pub mod Status
use vpn_pack.Common.{
  ℕ, zero, suc, ◌+◌, ◌-◌, ◌*◌, String, Bool, true, false, not, ◌&&◌, ◌||◌, Option, none, some, List,
  [], ◌∷◌, ◌++◌, map, get_elem?, length, ltb, leb, Eq, ◌==◌, string_eq, if◌then◌else◌, Result, ok,
  err,
}
use vpn_pack.Common.Map.{Map, lookup, insert}

pub data WatcherStatus : Type 0 where
  healthy degraded unhealthy : WatcherStatus

abbrev pub is_degraded_status : WatcherStatus → Bool
is_degraded_status healthy = false
is_degraded_status degraded = true
is_degraded_status unhealthy = false

pub record WatcherEntry : Type 0 where
  pub status : WatcherStatus
  pub last_success : ℕ
  pub error_count : ℕ
  pub retry_count : ℕ
  pub last_error : String
  pub degraded_reason : String
  pub last_retry : ℕ

-- `WatcherHealth` and `HealthSnapshot` of manager/domain/types.go
pub record WatcherHealth : Type 0 where
  pub status : WatcherStatus
  pub reconnect_count : ℕ
  pub last_error : String
  pub degraded_reason : String
  pub last_success : Option ℕ

pub record HealthSnapshot : Type 0 where
  pub status : WatcherStatus
  pub watchers : Map String WatcherHealth

-- An entry of the fingerprint
pub record Fingerprint : Type 0 where
  pub status : WatcherStatus
  pub errors : ℕ
  pub reason : String
  pub degraded_reason : String

-- `sent` is what the hub was given under the name `health`, in order.
pub record HealthTracker : Type 0 where
  pub watchers : Map String WatcherEntry
  pub has_hub : Bool
  pub last_key : String
  pub sent : List String

abbrev pub new_entry : WatcherEntry
new_entry = record {
  status = healthy;
  last_success = 0;
  error_count = 0;
  retry_count = 0;
  last_error = "";
  degraded_reason = "";
  last_retry = 0;
}

unfoldable pub new_health_tracker : Bool → HealthTracker
new_health_tracker has_hub = record { watchers = []; has_hub = has_hub; last_key = ""; sent = [] }

unfoldable pub get_or_create : String → HealthTracker → WatcherEntry
get_or_create name ht = elim (lookup name ht.watchers) [ none ↦ new_entry | some e ↦ e ]

unfoldable pub watcher_health : WatcherEntry → WatcherHealth
watcher_health e = record {
  status = e.status;
  reconnect_count = e.error_count;
  last_error = e.last_error;
  degraded_reason = e.degraded_reason;
  last_success = elim e.last_success [ zero ↦ none | suc n ↦ some (suc n) ];
}

-- One round of the loop of `snapshotLocked`, on the status so far.
unfoldable pub worse : WatcherStatus → WatcherStatus → WatcherStatus
worse so_far unhealthy = unhealthy
worse unhealthy degraded = unhealthy
worse healthy degraded = degraded
worse degraded degraded = degraded
worse so_far healthy = so_far

unfoldable pub overall_from : WatcherStatus → Map String WatcherEntry → WatcherStatus
overall_from so_far [] = so_far
overall_from so_far ((name, e) ∷ es) = overall_from (worse so_far e.status) es

unfoldable pub snapshot : HealthTracker → HealthSnapshot
snapshot ht = record {
  status = overall_from healthy ht.watchers;
  watchers = map (λ (p : String × WatcherEntry). (p.0, watcher_health p.1)) ht.watchers;
}

unfoldable pub retry_interval : ℕ → ℕ
retry_interval zero = 0
retry_interval (suc zero) = 30 * 1000000000
retry_interval (suc (suc zero)) = 60 * 1000000000
retry_interval (suc (suc (suc zero))) = 120 * 1000000000
retry_interval (suc (suc (suc (suc zero)))) = 300 * 1000000000
retry_interval _ = 600 * 1000000000

unfoldable pub is_degraded : String → HealthTracker → Bool
is_degraded name ht = elim (lookup name ht.watchers) [
  | none ↦ false
  | some e ↦ is_degraded_status e.status
]

-- `time.Since` is `now - lastRetry`
unfoldable pub should_retry : ℕ → String → HealthTracker → Bool
should_retry now name ht = elim (lookup name ht.watchers) [
  | none ↦ true
  | some e ↦
      if is_degraded_status e.status
      then false
      else leb (retry_interval e.retry_count) 0
        || leb (retry_interval e.retry_count) (now - e.last_retry)
]

unfoldable pub record_retry_attempt : ℕ → String → HealthTracker → HealthTracker
unfolding get_or_create
record_retry_attempt now name ht =
    let e = get_or_create name ht in
    record ht {
      watchers =
          insert name (record e { last_retry = now; retry_count = e.retry_count + 1 }) ht.watchers;
    }

unfoldable pub reset_retries : String → HealthTracker → HealthTracker
reset_retries name ht = elim (lookup name ht.watchers) [
  | none ↦ ht
  | some e ↦ record ht { watchers = insert name (record e { retry_count = 0 }) ht.watchers }
]

unfoldable pub retry_count : String → HealthTracker → ℕ
retry_count name ht = elim (lookup name ht.watchers) [ none ↦ 0 | some e ↦ e.retry_count ]

-- What `encoding/json` makes of a fingerprint and of a snapshot. The fingerprint's error is dropped.
module _ (marshal_key : Map String Fingerprint → String)
    (marshal : HealthSnapshot → Result String) where
  unfoldable pub status_fingerprint : HealthTracker → String
  status_fingerprint ht = marshal_key (
      map
        (λ (p : String × WatcherEntry). (
          p.0,
          record {
            status = p.1.status;
            errors = p.1.error_count;
            reason = p.1.last_error;
            degraded_reason = p.1.degraded_reason;
          },
        ))
        ht.watchers)

  unfoldable pub broadcast_if_changed : HealthTracker → HealthTracker
  broadcast_if_changed ht =
      let key = status_fingerprint ht in
      let keyed : HealthTracker = record ht { last_key = key } in
      let sending : HealthTracker = elim (marshal (snapshot ht)) [
        | err _ ↦ keyed
        | ok text ↦ elim ht.has_hub [
          | true ↦ record keyed { sent = keyed.sent ++ (text ∷ []) }
          | false ↦ keyed
        ]
      ] in
      elim (key == ht.last_key) [ true ↦ ht | false ↦ sending ]

  -- `e` is written back, since the map holds a pointer to it.
  abbrev put : String → WatcherEntry → HealthTracker → HealthTracker
  put name e ht = broadcast_if_changed (record ht { watchers = insert name e ht.watchers })

  unfoldable pub record_success : ℕ → String → HealthTracker → HealthTracker
  record_success now name ht =
      put name
        (record (get_or_create name ht) {
          status = healthy;
          last_success = now;
          last_error = "";
          degraded_reason = "";
          error_count = 0;
          retry_count = 0;
        })
        ht

  unfoldable pub record_error : String → String → HealthTracker → HealthTracker
  record_error name message ht =
      let e = get_or_create name ht in
      put name
        (record e { status = unhealthy; last_error = message; error_count = e.error_count + 1 }) ht

  unfoldable pub set_degraded : String → String → HealthTracker → HealthTracker
  set_degraded name reason ht =
      put name (record (get_or_create name ht) { status = degraded; degraded_reason = reason }) ht

  unfoldable pub clear_degraded : String → HealthTracker → HealthTracker
  clear_degraded name ht = elim (lookup name ht.watchers) [
    | none ↦ ht
    | some e ↦
        let cleared = put name (record e { status = healthy; degraded_reason = "" }) ht in
        elim (is_degraded_status e.status) [ true ↦ cleared | false ↦ ht ]
  ]
