-- ===== src/Health/Retries.antt =====
-- When a watcher's service is tried again.
use vpn_pack.Common.{ℕ, zero, suc, ◌+◌, ◌-◌, ◌*◌, ◌≤◌, String, false, ◌≡◌, leb, arith, string_eq}
use vpn_pack.Common.Map.{lookup-insert}
use vpn_pack.Health.{
  HealthTracker, WatcherEntry, get_or_create, retry_interval, is_degraded, should_retry,
  record_retry_attempt, retry_count,
}

retry_interval-bound : (n : ℕ) → retry_interval n ≤ 600 * 1000000000
unfolding retry_interval
retry_interval-bound zero = omega arith
retry_interval-bound (suc zero) = omega arith
retry_interval-bound (suc (suc zero)) = omega arith
retry_interval-bound (suc (suc (suc zero))) = omega arith
retry_interval-bound (suc (suc (suc (suc zero)))) = omega arith
retry_interval-bound (suc (suc (suc (suc (suc n))))) = omega arith

plus_one : {n : ℕ} → suc (suc (suc (suc n))) + 1 ≡ suc (suc (suc (suc (suc n))))
plus_one = omega arith

retry_interval-suc : (n : ℕ) → 30 * 1000000000 ≤ retry_interval (n + 1)
unfolding retry_interval
retry_interval-suc zero = omega arith
retry_interval-suc (suc zero) = omega arith
retry_interval-suc (suc (suc zero)) = omega arith
retry_interval-suc (suc (suc (suc zero))) = omega arith
retry_interval-suc (suc (suc (suc (suc n)))) = rw plus_one (omega arith)

-- After an attempt at the time `then_at`, with the watcher not degraded, it is tried again exactly
-- from the interval on that its attempts so far have earned, and that is at least thirty seconds
-- and at most ten minutes.
pub should_retry-attempt :
    (now then_at : ℕ) (name : String) (ht : HealthTracker)
    → is_degraded name ht ≡ false
    → (should_retry now name (record_retry_attempt then_at name ht)
        ≡ leb (retry_interval (retry_count name ht + 1)) (now - then_at))
      × (30 * 1000000000 ≤ retry_interval (retry_count name ht + 1))
      × (retry_interval (retry_count name ht + 1) ≤ 600 * 1000000000)
unfolding should_retry record_retry_attempt get_or_create retry_count is_degraded
should_retry-attempt now then_at name ht h =
    let k = retry_interval-suc (retry_count name ht) in
    let e = get_or_create name ht in
    let tried : WatcherEntry = record e { last_retry = then_at; retry_count = e.retry_count + 1 } in
    let found = lookup-insert name name tried ht.watchers in
    (ground (arith, found, k), k, retry_interval-bound (retry_count name ht + 1))
