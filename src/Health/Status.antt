-- ===== src/Health/Status.antt =====
-- The overall status of a health snapshot.
use vpn_pack.Common.{String, Bool, true, false, ◌||◌, [], ◌∷◌, ◌≡◌, refl, if◌then◌else◌, arith}
use vpn_pack.Common.Map.{Map}
use vpn_pack.Health.{
  WatcherStatus, healthy, degraded, unhealthy, WatcherEntry, HealthTracker, worse, overall_from,
  snapshot,
}

same_status : WatcherStatus → WatcherStatus → Bool
same_status healthy healthy = true
same_status degraded degraded = true
same_status unhealthy unhealthy = true
same_status _ _ = false

-- Whether some watcher has the status.
unfoldable pub some_watcher : WatcherStatus → Map String WatcherEntry → Bool
unfolding same_status
some_watcher status [] = false
some_watcher status ((name, e) ∷ es) = same_status e.status status || some_watcher status es

-- The status that stands for a state and the watchers to come.
unfoldable pub verdict : WatcherStatus → Map String WatcherEntry → WatcherStatus
unfolding same_status some_watcher
verdict so_far es =
    if same_status so_far unhealthy || some_watcher unhealthy es
    then unhealthy
    else if same_status so_far degraded || some_watcher degraded es
    then degraded
    else healthy

overall_from-verdict :
    (so_far : WatcherStatus) (es : Map String WatcherEntry)
    → overall_from so_far es ≡ verdict so_far es
unfolding overall_from verdict worse some_watcher same_status
overall_from-verdict healthy [] = refl
overall_from-verdict degraded [] = refl
overall_from-verdict unhealthy [] = refl
overall_from-verdict so_far ((name, e) ∷ es) =
    ground (arith, overall_from-verdict (worse so_far e.status) es)

-- The overall status is `unhealthy` where some watcher is, otherwise `degraded` where some watcher
-- is, and otherwise `healthy`; so it does not depend on the order in which the map is walked.
pub snapshot-status :
    (ht : HealthTracker)
    → (snapshot ht).status ≡ (
        if some_watcher unhealthy ht.watchers
        then unhealthy
        else if some_watcher degraded ht.watchers
        then degraded
        else healthy)
unfolding snapshot verdict same_status
snapshot-status ht = overall_from-verdict healthy ht.watchers
