-- ===== src/Tests/Parts.antt =====
-- Sagas, files, logs and health.
use vpn_pack.Common.{
  length, ℕ, ◌+◌, ◌-◌, ◌*◌, ◌≤◌, ◌≡◌, refl, sym, ◌∙◌, ap, ◌⊎◌, String, true, false, none, some,
  List, [], ◌∷◌, ◌++◌, reverse, take, leb, if◌then◌else◌, ⊤, Error, text, wrap, join_all, Result,
  ok, err, pure, arith, string_eq,
}
use vpn_pack.Common.Int.{pos}
use vpn_pack.Common.Map.{Map, lookup}
use vpn_pack.Ops.{Op, background, undo_all, rollback, run_from, run}
use vpn_pack.Ops.Saga.{IsClear, Completes, Stops, IsReversible, run_ends, run_atomic}
use vpn_pack.Atomic.{write_file}
use vpn_pack.Atomic.Replace.{Replaced, write_file-Replaced}
use vpn_pack.Tests.Disk.{content, disk_fs, disk-IsLawful}
use vpn_pack.State.LogBuffer.{LogEntry, LogBuffer, clamp, new_log_buffer, snapshot}
use vpn_pack.State.LogBuffer.Newest.{add_all, snapshot-newest}
use vpn_pack.Health.{
  HealthTracker, HealthSnapshot, Fingerprint, WatcherStatus, healthy, degraded, unhealthy,
  is_degraded, should_retry, record_retry_attempt, retry_interval, retry_count,
}
use vpn_pack.Health.Status.{some_watcher, snapshot-status}
use vpn_pack.Health.Retries.{should_retry-attempt}
use vpn_pack.Health.Broadcast.{failure, report, Told, report-Told}

-- A step that adds `n` to a number and takes it off again, and one that fails.
abbrev adding : ℕ → Op ℕ
adding n = record { name = "add"; do_step = λ s. (ok tt, s + n); undo = λ s. (ok tt, s - n) }

abbrev refusing : Op ℕ
refusing = record { name = "refuse"; do_step = λ s. (err (text "no"), s); undo = pure tt }

adding-IsReversible : (n : ℕ) → IsReversible (adding n)
adding-IsReversible n = record {
  clean = λ s t e h. absurd (ground arith);
  restores = λ s t h.
      let e : t ≡ s + n = ap (λ (p : Result ⊤ × ℕ). p.1) (sym h) in
      ap (λ k. (ok tt, k)) (ap (λ k. k - n) e ∙ omega arith);
}

refusing-IsReversible : IsReversible refusing
refusing-IsReversible = record {
  clean = λ s t e h. ap (λ (p : Result ⊤ × ℕ). p.1) (sym h);
  restores = λ s t h. absurd (ground arith);
}

abbrev steps : List (Op ℕ)
steps = adding 2 ∷ adding 3 ∷ refusing ∷ []

run_ends_example :
    ((t : ℕ) × (run background steps 1 ≡ (ok tt, t))
      × (Completes steps 1 t)
      × IsClear background (length steps + length steps))
    ⊎ ((ran : List (Op ℕ)) × (left : List (Op ℕ)) × (t : ℕ) × (u : ℕ) × (cause : Error) × (steps
          ≡ ran ++ left)
        × Completes ran 1 t
        × Stops background (length ran) left t u cause
        × (run background steps 1
            ≡ (err (join_all cause (undo_all (reverse ran) u).0), (undo_all (reverse ran) u).1)))
run_ends_example = run_ends background steps 1

abbrev one : ℕ
one = 1

refused : run background steps one ≡ (err (wrap "refuse" (text "no")), (run background steps one).1)
unfolding run run_from rollback undo_all
refused = refl

run_atomic_example : (run background steps one).1 ≡ one
run_atomic_example =
    run_atomic background steps one (run background steps one).1 (wrap "refuse" (text "no"))
      (adding-IsReversible 2, (adding-IsReversible 3, (refusing-IsReversible, tt))) refused

write_file-Replaced_example :
    Replaced disk_fs content disk-IsLawful "a" "new"
      (record { stored = some "old"; temporary = none })
      (write_file disk_fs "a" "new" 384 (record { stored = some "old"; temporary = none }))
write_file-Replaced_example =
    write_file-Replaced disk_fs content disk-IsLawful "a" "new" 384
      (record { stored = some "old"; temporary = none })

abbrev line : String → LogEntry
line m = record { timestamp = ""; level = "info"; message = m; source = "" }

snapshot-newest_example :
    (lb : LogBuffer) × (add_all (line "a" ∷ line "b" ∷ line "c" ∷ []) (new_log_buffer (pos 2))
      ≡ some lb)
    × (snapshot lb ≡ some (take (clamp (pos 2)) (reverse (line "a" ∷ line "b" ∷ line "c" ∷ []))))
snapshot-newest_example = snapshot-newest (pos 2) (line "a" ∷ line "b" ∷ line "c" ∷ [])

abbrev tracker : HealthTracker
tracker = record {
  watchers =
      (
        "firewall",
        record {
          status = unhealthy;
          last_success = 0;
          error_count = 1;
          retry_count = 1;
          last_error = "x";
          degraded_reason = "";
          last_retry = 5;
        },
      )
      ∷ [];
  has_hub = true;
  last_key = "";
  sent = [];
}

snapshot-status_example : (vpn_pack.Health.snapshot tracker).status ≡ (
    if some_watcher unhealthy tracker.watchers
    then unhealthy
    else if some_watcher degraded tracker.watchers
    then degraded
    else healthy)
snapshot-status_example = snapshot-status tracker

not_degraded : is_degraded "firewall" tracker ≡ false
unfolding is_degraded lookup string_eq
not_degraded = refl

should_retry-attempt_example :
    (should_retry 70000000009 "firewall" (record_retry_attempt 9 "firewall" tracker)
      ≡ leb (retry_interval (retry_count "firewall" tracker + 1)) (70000000009 - 9))
    × (30 * 1000000000 ≤ retry_interval (retry_count "firewall" tracker + 1))
    × (retry_interval (retry_count "firewall" tracker + 1) ≤ 600 * 1000000000)
should_retry-attempt_example = should_retry-attempt 70000000009 9 "firewall" tracker not_degraded

abbrev key_of : Map String Fingerprint → String
key_of m = "key"

abbrev print : HealthSnapshot → Result String
print s = ok "snapshot"

report-Told_example :
    Told key_of print tracker (report key_of print (failure "firewall" "refused") tracker)
report-Told_example = report-Told key_of print (failure "firewall" "refused") tracker
