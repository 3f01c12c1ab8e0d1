-- ===== src/State/Manifest/RoundTrip.antt =====
-- What is read from the file that a change of the manifest has written.
use vpn_pack.Common.{
  String, false, Option, some, ◌≡◌, ap, sym, ◌∙◌, ⊤, Result, ok, arith, Result-cases, Answer-cases,
  inl, inr, string_eq,
}
use vpn_pack.Common.Map.{Map, lookup}
use vpn_pack.Atomic.{write_file}
use vpn_pack.Atomic.Replace.{write_file-content, IsLawful}
use vpn_pack.State.Manifest.{Manifest, ManifestEnv, secret_perm, dir_perm}
use vpn_pack.State.Manifest.Edit.{save_locked, St, change}
use vpn_pack.State.Manifest.Load.{
  version_key, is_legacy, finish, load_version, load_raw, load_text, load_manifest,
}
use vpn_pack.State.Manifest.Edits.{Edit, run_edit, effect, run_edit-change}

module _ (E : ManifestEnv) where
  -- The three calls of a saving that succeeded.
  save_locked-calls :
      (s t : St E)
      → save_locked E s ≡ (ok tt, t)
      → (text : String) × (E.marshal s.manifest ≡ ok text)
        × (w : E.World) × (write_file E.fs s.manifest.path text secret_perm w ≡ (ok tt, t.world))
        × (t.manifest ≡ s.manifest)
  unfolding save_locked
  save_locked-calls s t h =
      let directory = E.fs.dir s.manifest.path in
      elim (Answer-cases (E.marshal s.manifest)) [
        | inr (e, p) ↦ absurd (ground arith)
        | inl (text, p) ↦ elim (Result-cases (E.mkdir_all directory dir_perm s.world)) [
          | inr (e, w, q) ↦ absurd (ground arith)
          | inl (_, w, q) ↦
              elim (Result-cases (write_file E.fs s.manifest.path text secret_perm w)) [
                | inr (e, v, r) ↦ absurd (ground arith)
                | inl (_, v, r) ↦
                    let end : save_locked E s ≡ (ok tt, record s { world = v }) = ground arith in
                    let same : t ≡ record s { world = v } =
                      ap (λ (q : Result ⊤ × St E). q.1) (sym h ∙ end) in
                    (
                      text,
                      p,
                      w,
                      r ∙ ap (λ (u : St E). (ok tt, u.world)) (sym same),
                      ap (λ (u : St E). u.manifest) same,
                    )
              ]
        ]
      ]

  -- What the reading relies on: os.ReadFile gives what is at the path, and encoding/json reads a
  -- manifest's own text as that manifest, its version among the fields.
  pub record ReadsBack (content : String → E.World → Option String) (m : Manifest E.Time)
      : Type 0 where
    pub reads :
        (path text : String) (w : E.World)
        → content path w ≡ some text
        → E.read_file path w ≡ ok text
    pub parses :
        (text : String)
        → E.marshal m ≡ ok text
        → E.unmarshal text ≡ ok (record m { path = ""; recovered = false })
    pub versions :
        (text : String)
        → E.marshal m ≡ ok text
        → (raw : Map String String) × (v : String) × (E.unmarshal_raw text ≡ ok raw)
          × (lookup version_key raw ≡ some v)
          × (E.unmarshal_int v ≡ ok m.version)

  load_text-current :
      {content : String → E.World → Option String} (m : Manifest E.Time)
      → ReadsBack content m
      → is_legacy m.version ≡ false
      → (text : String) → E.marshal m ≡ ok text
      → (path : String) (w : E.World)
      → load_text E path text w ≡ (ok (record m { path = path; recovered = false }), w)
  unfolding load_text load_raw load_version finish
  load_text-current m back new text h path w =
      let (raw, v, p, q, r) = back.versions text h in
      let parsed = back.parses text h in ground arith

  -- A change that was saved is read back: where the file system is lawful, reading gives what is
  -- there and JSON reads the manifest's text as the manifest, loading the path after a successful
  -- call gives the manifest in memory, its mark of a recovery taken off.
  pub load_manifest-run_edit :
      (content : String → E.World → Option String)
      → IsLawful E.fs content
      → (e : Edit) (s t : St E) → run_edit E e s ≡ (ok tt, t)
      → ReadsBack content t.manifest
      → is_legacy t.manifest.version ≡ false
      → load_manifest E t.manifest.path t.world
        ≡ (ok (record t.manifest { recovered = false }), t.world)
  unfolding change load_manifest
  load_manifest-run_edit content L e s t h back new =
      let changed : St E = record s {
        manifest = record (effect E e s.manifest) { updated_at = E.now s.world };
      } in
      let (text, p, w, q, same) = save_locked-calls changed t (sym (run_edit-change E e s) ∙ h) in
      let marshalled : E.marshal t.manifest ≡ ok text = ap E.marshal same ∙ p in
      let there : content t.manifest.path t.world ≡ some text =
        ap (λ (m : Manifest E.Time). content m.path t.world) same
        ∙ write_file-content E.fs content L changed.manifest.path text secret_perm w t.world q in
      let read = back.reads t.manifest.path text t.world there in
      let end : load_manifest E t.manifest.path t.world ≡ load_text E t.manifest.path text t.world =
        ground arith in
      end ∙ load_text-current t.manifest back new text marshalled t.manifest.path t.world
