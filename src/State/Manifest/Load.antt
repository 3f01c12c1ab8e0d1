-- ===== src/State/Manifest/Load.antt =====
-- `LoadManifest` of manager/state/manifest.go: the file of version 2, one of version 1, or a fresh
-- manifest beside a copy of the file that cannot be read.
use Prim.Native.String.{◌++◌ as ◌<>◌}
use vpn_pack.Common.{
  zero, suc, String, Bool, true, false, Option, none, some, Result, ok, err, Action, ◌==◌,
  string_eq, if◌then◌else◌,
}
use vpn_pack.Common.Int.{ℤ, pos, negsuc}
use vpn_pack.Common.Decimal.{itoa}
use vpn_pack.Common.Map.{lookup}
use vpn_pack.Domain.{ZoneManifest}
use vpn_pack.State.Manifest.{Manifest, ManifestEnv, zero_zone, fresh_manifest, secret_perm}

abbrev pub version_key : String
version_key = "version"

-- `version <= 1`
abbrev pub is_legacy : ℤ → Bool
is_legacy (pos zero) = true
is_legacy (pos (suc zero)) = true
is_legacy (pos (suc (suc _))) = false
is_legacy (negsuc _) = true

module _ (E : ManifestEnv) where
  unfoldable pub new_manifest : String → E.World → Manifest E.Time
  new_manifest path w = fresh_manifest path (E.now w) E.zero_time

  -- Where the copy goes.
  unfoldable pub quarantine : String → E.World → String
  unfolding itoa
  quarantine path w = path <> (".corrupt-" <> itoa (E.unix (E.now w)))

  -- An error of the writing is dropped.
  unfoldable pub recover_from_corrupt : String → String → E.World → E.World
  unfolding quarantine
  recover_from_corrupt path text w = (E.os_write_file (quarantine path w) text secret_perm w).1

  -- The four places that keep a copy and start afresh.
  unfoldable pub recover : String → String → Action E.World (Manifest E.Time)
  unfolding new_manifest recover_from_corrupt
  recover path text w =
      let w' = recover_from_corrupt path text w in
      (ok (record (new_manifest path w') { recovered = true }), w')

  unfoldable pub migrate_v1 : String → E.World → Result (Manifest E.Time)
  migrate_v1 text w = elim (E.unmarshal_v1 text) [
    | err e ↦ ok (fresh_manifest "" (E.now w) E.zero_time)
    | ok v1 ↦
        let zone : ZoneManifest = record zero_zone { chain_prefix = "VPN" } in
        ok (record (fresh_manifest "" v1.created_at v1.updated_at) {
          tailscale =
              if v1.zone_id == ""
              then zone
              else record zone { zone_id = v1.zone_id; policy_ids = v1.policy_ids };
        })
  ]

  -- The end of both branches: an error starts afresh, and a manifest gets its path.
  unfoldable pub finish :
      String → String → Result (Manifest E.Time) → Action E.World (Manifest E.Time)
  unfolding recover
  finish path text (err e) w = recover path text w
  finish path text (ok m) w = (ok (record m { path = path }), w)

  -- The part after the version is known.
  unfoldable pub load_version : String → String → ℤ → Action E.World (Manifest E.Time)
  unfolding migrate_v1 finish
  load_version path text version w = elim (is_legacy version) [
    | true ↦ finish path text (migrate_v1 text w) w
    | false ↦ finish path text (E.unmarshal text) w
  ]

  -- The part after the version's text is known; a file without one has version 0.
  unfoldable pub load_raw : String → String → Option String → Action E.World (Manifest E.Time)
  unfolding load_version recover
  load_raw path text none w = load_version path text (pos 0) w
  load_raw path text (some v) w = elim (E.unmarshal_int v) [
    | err e ↦ recover path text w
    | ok version ↦ load_version path text version w
  ]

  -- The part after the file is read.
  unfoldable pub load_text : String → String → Action E.World (Manifest E.Time)
  unfolding load_raw recover
  load_text path text w = elim (E.unmarshal_raw text) [
    | err e ↦ recover path text w
    | ok raw ↦ load_raw path text (lookup version_key raw) w
  ]

  unfoldable pub load_manifest : String → Action E.World (Manifest E.Time)
  unfolding load_text new_manifest
  load_manifest path w = elim (E.read_file path w) [
    | err e ↦ elim (E.is_not_exist e) [ true ↦ (ok (new_manifest path w), w) | false ↦ (err e, w) ]
    | ok text ↦ load_text path text w
  ]
