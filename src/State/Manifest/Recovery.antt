-- ===== src/State/Manifest/Recovery.antt =====
-- How `load_manifest` ends, by what of the file can be parsed (manager/state/manifest.go).
use mathlib.Core.Path.{subst}
use vpn_pack.Common.{
  String, true, false, none, some, [], ◌≡◌, refl, sym, Error, Result, ok, err, arith, Bool-cases,
  Option-cases, Answer-cases, inl, inr, ◌==◌, string_eq, if◌then◌else◌,
}
use vpn_pack.Common.Int.{ℤ, pos}
use vpn_pack.Common.Map.{Map, lookup}
use vpn_pack.State.Manifest.{Manifest, ManifestV1, ManifestEnv, zero_zone, fresh_manifest}
use vpn_pack.State.Manifest.Load.{
  is_legacy, version_key, new_manifest, recover_from_corrupt, recover, migrate_v1, finish,
  load_version, load_raw, load_text, load_manifest,
}

module _ (E : ManifestEnv) where
  -- The text has this version, 0 where it names none.
  pub data Version (text : String) : ℤ → Type 0 where
    named :
        {raw : Map String String} {v : String} {n : ℤ}
        → E.unmarshal_raw text ≡ ok raw
        → lookup version_key raw ≡ some v
        → E.unmarshal_int v ≡ ok n
        → Version text n
    unnamed :
        {raw : Map String String}
        → E.unmarshal_raw text ≡ ok raw
        → lookup version_key raw ≡ none
        → Version text (pos 0)

  -- The text, its version, or its body of version 2 cannot be parsed.
  pub data Broken (text : String) : Type 0 where
    no_object : {e : Error} → E.unmarshal_raw text ≡ err e → Broken text
    no_version :
        {raw : Map String String} {v : String} {e : Error}
        → E.unmarshal_raw text ≡ ok raw
        → lookup version_key raw ≡ some v
        → E.unmarshal_int v ≡ err e
        → Broken text
    no_body :
        {n : ℤ} {e : Error}
        → Version text n
        → is_legacy n ≡ false
        → E.unmarshal text ≡ err e
        → Broken text

  -- What a file of version 1 says.
  abbrev pub carried : String → ManifestV1 E.Time → Manifest E.Time
  carried path v1 = record (fresh_manifest path v1.created_at v1.updated_at) {
    tailscale = record zero_zone {
      zone_id = v1.zone_id;
      policy_ids = if v1.zone_id == "" then [] else v1.policy_ids;
      chain_prefix = "VPN";
    };
  }

  -- How a load from a path ends, by its answer and the world that it leaves.
  pub data LoadEnds (path : String) (w : E.World)
      : Result (Manifest E.Time) × E.World → Type 0 where
    unreadable :
        {e : Error}
        → E.read_file path w ≡ err e
        → E.is_not_exist e ≡ false
        → LoadEnds path w (err e, w)
    missing :
        {e : Error}
        → E.read_file path w ≡ err e
        → E.is_not_exist e ≡ true
        → LoadEnds path w (ok (new_manifest E path w), w)
    broken :
        {text : String} {v : E.World}
        → E.read_file path w ≡ ok text
        → Broken text
        → v ≡ recover_from_corrupt E path text w
        → LoadEnds path w (ok (record (new_manifest E path v) { recovered = true }), v)
    current :
        {text : String} {n : ℤ} {m : Manifest E.Time}
        → E.read_file path w ≡ ok text
        → Version text n
        → is_legacy n ≡ false
        → E.unmarshal text ≡ ok m
        → m.recovered ≡ false
        → LoadEnds path w (ok (record m { path = path }), w)
    legacy :
        {text : String} {n : ℤ} {v1 : ManifestV1 E.Time}
        → E.read_file path w ≡ ok text
        → Version text n
        → is_legacy n ≡ true
        → E.unmarshal_v1 text ≡ ok v1
        → LoadEnds path w (ok (carried path v1), w)
    broken_legacy :
        {text : String} {n : ℤ} {e : Error}
        → E.read_file path w ≡ ok text
        → Version text n
        → is_legacy n ≡ true
        → E.unmarshal_v1 text ≡ err e
        → LoadEnds path w (ok (new_manifest E path w), w)

  -- encoding/json leaves a field alone that is marked `json:"-"`.
  abbrev pub KeepsUnwritten : Type 0
  KeepsUnwritten =
      (text : String) (m : Manifest E.Time) → E.unmarshal text ≡ ok m → m.recovered ≡ false

  module _ (kept : KeepsUnwritten) (path text : String) (w : E.World)
      (h : E.read_file path w ≡ ok text) where
    recover-LoadEnds : Broken text → LoadEnds path w (recover E path text w)
    unfolding recover
    recover-LoadEnds bad = broken h bad refl

    legacy-LoadEnds :
        (n : ℤ)
        → Version text n
        → is_legacy n ≡ true
        → LoadEnds path w (finish E path text (migrate_v1 E text w) w)
    unfolding finish migrate_v1 new_manifest
    legacy-LoadEnds n v old = elim (Answer-cases (E.unmarshal_v1 text)) [
      | inr (e, p) ↦
          let end : finish E path text (migrate_v1 E text w) w ≡ (ok (new_manifest E path w), w) =
            ground arith in
          subst (LoadEnds path w) (sym end) (broken_legacy h v old p)
      | inl (v1, p) ↦
          let end : finish E path text (migrate_v1 E text w) w ≡ (ok (carried path v1), w) =
            elim (Bool-cases (v1.zone_id == "")) [
              | inl empty ↦ let zone : v1.zone_id ≡ "" = ground arith in ground arith
              | inr there ↦ ground arith
            ] in
          subst (LoadEnds path w) (sym end) (legacy h v old p)
    ]

    current-LoadEnds :
        (n : ℤ)
        → Version text n
        → is_legacy n ≡ false
        → LoadEnds path w (finish E path text (E.unmarshal text) w)
    unfolding finish
    current-LoadEnds n v new = elim (Answer-cases (E.unmarshal text)) [
      | inr (e, p) ↦
          let end : finish E path text (E.unmarshal text) w ≡ recover E path text w =
            ground arith in
          subst (LoadEnds path w) (sym end) (recover-LoadEnds (no_body v new p))
      | inl (m, p) ↦
          let end : finish E path text (E.unmarshal text) w ≡ (ok (record m { path = path }), w) =
            ground arith in
          subst (LoadEnds path w) (sym end) (current h v new p (kept text m p))
    ]

    load_version-LoadEnds :
        (n : ℤ) → Version text n → LoadEnds path w (load_version E path text n w)
    unfolding load_version
    load_version-LoadEnds n v = elim (Bool-cases (is_legacy n)) [
      | inl old ↦
          let end : load_version E path text n w ≡ finish E path text (migrate_v1 E text w) w =
            ground arith in
          subst (LoadEnds path w) (sym end) (legacy-LoadEnds n v old)
      | inr new ↦
          let end : load_version E path text n w ≡ finish E path text (E.unmarshal text) w =
            ground arith in
          subst (LoadEnds path w) (sym end) (current-LoadEnds n v new)
    ]

    load_text-LoadEnds : LoadEnds path w (load_text E path text w)
    unfolding load_text load_raw
    load_text-LoadEnds = elim (Answer-cases (E.unmarshal_raw text)) [
      | inr (e, p) ↦
          let end : load_text E path text w ≡ recover E path text w = ground arith in
          subst (LoadEnds path w) (sym end) (recover-LoadEnds (no_object p))
      | inl (raw, p) ↦ elim (Option-cases (lookup version_key raw)) [
        | inl q ↦
            let end : load_text E path text w ≡ load_version E path text (pos 0) w = ground arith in
            subst (LoadEnds path w) (sym end) (load_version-LoadEnds (pos 0) (unnamed p q))
        | inr (v, q) ↦ elim (Answer-cases (E.unmarshal_int v)) [
          | inr (e, r) ↦
              let end : load_text E path text w ≡ recover E path text w = ground arith in
              subst (LoadEnds path w) (sym end) (recover-LoadEnds (no_version p q r))
          | inl (n, r) ↦
              let end : load_text E path text w ≡ load_version E path text n w = ground arith in
              subst (LoadEnds path w) (sym end) (load_version-LoadEnds n (named p q r))
        ]
      ]
    ]

  -- Where encoding/json leaves unmarked fields alone, a load fails only when the file is there and
  -- cannot be read, with that error. A missing file gives a fresh manifest. A text that cannot be
  -- parsed, or has no version or body of version 2 that can, gives a fresh one that is marked as
  -- recovered, beside a copy of the text. Any other text gives what it says, of version 2 or of
  -- version 1, not marked, and changes nothing in the world; but a text of version 1 whose body
  -- cannot be parsed gives a fresh manifest without a mark or a copy.
  pub load_manifest-LoadEnds :
      KeepsUnwritten → (path : String) (w : E.World) → LoadEnds path w (load_manifest E path w)
  unfolding load_manifest
  load_manifest-LoadEnds kept path w = elim (Answer-cases (E.read_file path w)) [
    | inl (text, p) ↦
        let end : load_manifest E path w ≡ load_text E path text w = ground arith in
        subst (LoadEnds path w) (sym end) (load_text-LoadEnds kept path text w p)
    | inr (e, p) ↦ elim (Bool-cases (E.is_not_exist e)) [
      | inl gone ↦
          let end : load_manifest E path w ≡ (ok (new_manifest E path w), w) = ground arith in
          subst (LoadEnds path w) (sym end) (missing p gone)
      | inr other ↦
          let end : load_manifest E path w ≡ (err e, w) = ground arith in
          subst (LoadEnds path w) (sym end) (unreadable p other)
    ]
  ]
