-- ===== src/Tests/Manifest.antt =====
-- The manifest.
use vpn_pack.Common.{
  ◌≡◌, refl, String, true, false, Option, none, some, List, [], ◌∷◌, map, text, Result, ok, err,
  pure, ◌==◌, string_eq, if◌then◌else◌, sym, ap,
}
use vpn_pack.Common.Int.{ℤ, pos}
use vpn_pack.Common.Map.{lookup}
use vpn_pack.Domain.{ZoneManifest, WgS2sZoneInfo, all}
use vpn_pack.Atomic.{write_file, fill, publish, sync_dir, cleanup, close_cleanup}
use vpn_pack.State.Manifest.{Manifest, ManifestEnv, fresh_manifest}
use vpn_pack.State.Manifest.Edit.{St, set_site_id, change, save_locked, migrate_exit_node}
use vpn_pack.State.Manifest.Edits.{
  Edit, site, wg_s2s_zone, view, all_specified, run_edit, run_edits, view-run_edits,
}
use vpn_pack.State.Manifest.Read.{get_wg_s2s_zones}
use vpn_pack.State.Manifest.Zones.{Distinct, entry, summary, get_wg_s2s_zones-summary}
use vpn_pack.State.Manifest.Migration.{migrated, migrate_exit_node-twice}
use vpn_pack.State.Manifest.Load.{version_key, load_manifest}
use vpn_pack.State.Manifest.Recovery.{KeepsUnwritten, LoadEnds, load_manifest-LoadEnds}
use vpn_pack.State.Manifest.RoundTrip.{ReadsBack, load_manifest-run_edit}
use vpn_pack.Tests.Disk.{Disk, content, disk_fs, disk-IsLawful}

abbrev seven : ℤ
seven = pos 7

abbrev pub blank : Manifest ℤ
blank = fresh_manifest "a" (pos 1) (pos 0)

-- The manifest that the only text stands for.
abbrev with_site : Manifest ℤ
with_site = record blank { site_id = "site"; updated_at = seven }

abbrev pub disk_env : ManifestEnv
disk_env = record {
  World = Disk;
  Time = ℤ;
  now = λ w. seven;
  zero_time = pos 0;
  unix = λ t. t;
  fs = disk_fs;
  mkdir_all = λ d p. pure tt;
  read_file = λ p w. elim (content p w) [ some t ↦ ok t | none ↦ err (text "no such file") ];
  is_not_exist = λ e. true;
  os_write_file = λ p t n. pure tt;
  marshal = λ m. ok "{}";
  unmarshal = λ t. ok (record with_site { path = "" });
  unmarshal_raw = λ t. ok ((version_key, "2") ∷ []);
  unmarshal_int = λ t. ok (pos 2);
  unmarshal_v1 = λ t. err (text "no version 1");
}

abbrev pub empty_disk : Disk
empty_disk = record { stored = none; temporary = none }

abbrev before : St disk_env
before = record { manifest = blank; world = empty_disk }

abbrev after : St disk_env
after = record {
  manifest = with_site;
  world = record { stored = some "{}"; temporary = some "{}" };
}

abbrev office : ZoneManifest
office = record { zone_id = "z1"; zone_name = "office"; policy_ids = []; chain_prefix = "" }

abbrev edits : List Edit
edits = wg_s2s_zone "t1" office ∷ wg_s2s_zone "t2" office ∷ site "site" ∷ []

view-run_edits_example :
    view (run_edits disk_env edits before).manifest ≡ all_specified edits (view blank)
view-run_edits_example = view-run_edits disk_env edits before

get_wg_s2s_zones-summary_example :
    (infos : List WgS2sZoneInfo) × (get_wg_s2s_zones
        (record blank { wg_s2s = ("t1", office) ∷ ("t2", office) ∷ [] })
      ≡ some infos)
    × Distinct (map (λ i. i.zone_id) infos)
    × ((id : String)
        → entry id infos
          ≡ (if id == "" then none else summary id (("t1", office) ∷ ("t2", office) ∷ [])))
get_wg_s2s_zones-summary_example =
    get_wg_s2s_zones-summary (record blank { wg_s2s = ("t1", office) ∷ ("t2", office) ∷ [] })

abbrev old_policy : St disk_env
old_policy = record before {
  manifest = record blank { exit_node_policy = some (record { mode = all; clients = [] }) };
}

migrate_exit_node-twice_example :
    (view (migrate_exit_node disk_env false old_policy).manifest
      ≡ migrated false (view old_policy.manifest))
    × (migrate_exit_node disk_env false (migrate_exit_node disk_env false old_policy)
        ≡ migrate_exit_node disk_env false old_policy)
migrate_exit_node-twice_example = migrate_exit_node-twice disk_env false old_policy

kept : KeepsUnwritten disk_env
kept t m h = ap (λ (r : Result (Manifest ℤ)). elim r [ ok n ↦ n.recovered | err e ↦ false ]) (sym h)

abbrev full_disk : Disk
full_disk = record { stored = some "{}"; temporary = none }

load_manifest-LoadEnds_example :
    LoadEnds disk_env "a" full_disk (load_manifest disk_env "a" full_disk)
load_manifest-LoadEnds_example = load_manifest-LoadEnds disk_env kept "a" full_disk

saved : run_edit disk_env (site "site") before ≡ (ok tt, after)
unfolding run_edit set_site_id change save_locked write_file fill publish sync_dir cleanup
    close_cleanup string_eq
saved = refl

back : ReadsBack disk_env content with_site
unfolding lookup string_eq
back = record {
  reads = λ path t w h.
      ap
        (λ (o : Option String). elim o as (λ _. Result String) [
          | some t ↦ ok t
          | none ↦ err (text "no such file")
        ])
        h;
  parses = λ text h. refl;
  versions = λ text h. (((version_key, "2") ∷ []), "2", refl, refl, refl);
}

load_manifest-run_edit_example :
    load_manifest disk_env "a" after.world ≡ (ok with_site, after.world)
load_manifest-run_edit_example =
    load_manifest-run_edit disk_env content disk-IsLawful (site "site") before after saved back refl
