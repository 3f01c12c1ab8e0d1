-- ===== src/Health/Broadcast.antt =====
-- What is sent to the hub when a watcher reports.
use mathlib.Core.List.{append-nil}
use vpn_pack.Common.{
  ℕ, String, List, [], ◌∷◌, ◌++◌, ◌≡◌, refl, if◌then◌else◌, arith, inl, inr, Bool-cases, ◌==◌,
  string_eq, Result, ok, err,
}
use vpn_pack.Common.Map.{Map}
use vpn_pack.Health.{
  HealthTracker, HealthSnapshot, Fingerprint, snapshot, status_fingerprint, broadcast_if_changed,
  record_success, record_error, set_degraded,
}

pub data Report : Type 0 where
  success : ℕ → String → Report
  failure degradation : String → String → Report

module _ (marshal_key : Map String Fingerprint → String)
    (marshal : HealthSnapshot → Result String) where
  unfoldable pub report : Report → HealthTracker → HealthTracker
  report (success now name) = record_success marshal_key marshal now name
  report (failure name message) = record_error marshal_key marshal name message
  report (degradation name reason) = set_degraded marshal_key marshal name reason

  -- The messages of a state that is new to the hub.
  abbrev pub news : HealthTracker → List String
  news ht = elim (marshal (snapshot ht)) [
    | err _ ↦ []
    | ok text ↦ if ht.has_hub then text ∷ [] else []
  ]

  -- From one state to another, the last fingerprint is the new state's, and the snapshot of the new
  -- state was sent, once, if the fingerprint is another one than before, and nothing otherwise.
  abbrev pub Told : HealthTracker → HealthTracker → Type 0
  Told s t =
      (t.last_key ≡ status_fingerprint marshal_key marshal t)
      × (t.sent ≡ s.sent ++ (if t.last_key == s.last_key then [] else news t))

  broadcast-Told : (ht : HealthTracker) → Told ht (broadcast_if_changed marshal_key marshal ht)
  unfolding broadcast_if_changed status_fingerprint snapshot
  broadcast-Told ht =
      let key = status_fingerprint marshal_key marshal ht in
      elim (Bool-cases (key == ht.last_key)) [
        | inl same ↦
            rw (same, broadcast_if_changed) (ground arith, ground (arith, append-nil ht.sent))
        | inr new ↦
            elim (marshal (snapshot ht))
                as (λ r.
                  marshal (snapshot ht) ≡ r
                  → Told ht (broadcast_if_changed marshal_key marshal ht)) [
                    | ok text ↦ λ m. elim (Bool-cases ht.has_hub) [
                      | inl hub ↦ (ground arith, ground arith)
                      | inr none_there ↦ (ground arith, ground (arith, append-nil ht.sent))
                    ]
                    | err e ↦ λ m. (ground arith, ground (arith, append-nil ht.sent))
                  ]
              refl
      ]

  -- Whatever a watcher reports, a success, a failure or a degradation, the tracker's last
  -- fingerprint is then that of its watchers, and the hub is given the snapshot of the new state,
  -- once, if the fingerprint is another one than before, there is a hub, and the snapshot can be
  -- marshalled; it is given nothing otherwise.
  pub report-Told : (r : Report) (ht : HealthTracker) → Told ht (report r ht)
  unfolding report record_success record_error set_degraded
  report-Told (success now name) ht = broadcast-Told _
  report-Told (failure name message) ht = broadcast-Told _
  report-Told (degradation name reason) ht = broadcast-Told _
