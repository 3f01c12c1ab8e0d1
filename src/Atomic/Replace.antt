-- ===== src/Atomic/Replace.antt =====
-- What is at the path when a replacement of manager/state/atomic.go has ended.
use mathlib.Core.Path.{subst}
use Prim.Native.String.{◌++◌ as ◌<>◌}
use vpn_pack.Common.{
  ℕ, ◌≡◌, ◌≢◌, refl, sym, ◌∙◌, ◌⊎◌, inl, inr, String, Option, some, ⊤, Error, wrap, Result, ok, err,
  arith, Result-cases,
}
use vpn_pack.Atomic.{Fs, cleanup, sync_dir, fill, publish, write_file}

-- What the code relies on of the file system, for the contents of the files by their paths.
pub record IsLawful {World : Type 0} (fs : Fs World) (content : String → World → Option String)
    : Type 0 where
  -- A temporary file is another file than the one that its pattern is made of.
  pub temp_differs :
      (path : String) (w v : World) (f : fs.File)
      → fs.create_temp (fs.dir path) (fs.base path <> ".*.tmp") w ≡ (ok f, v)
      → path ≢ fs.name f
  pub temp_keeps :
      (path : String) (w : World)
      → content path (fs.create_temp (fs.dir path) (fs.base path <> ".*.tmp") w).1 ≡ content path w
  pub write_keeps :
      (f : fs.File) (t p : String) (w : World)
      → p ≢ fs.name f
      → content p (fs.write f t w).1 ≡ content p w
  pub write_writes :
      (f : fs.File) (t : String) (w v : World)
      → fs.write f t w ≡ (ok tt, v)
      → content (fs.name f) v ≡ some t
  pub chmod_keeps :
      (f : fs.File) (n : ℕ) (p : String) (w : World) → content p (fs.chmod f n w).1 ≡ content p w
  pub sync_keeps : (f : fs.File) (p : String) (w : World) → content p (fs.sync f w).1 ≡ content p w
  pub close_keeps :
      (f : fs.File) (p : String) (w : World) → content p (fs.close f w).1 ≡ content p w
  pub open_keeps : (q p : String) (w : World) → content p (fs.open_file q w).1 ≡ content p w
  pub remove_keeps : (q p : String) (w : World) → p ≢ q → content p (fs.remove q w).1 ≡ content p w
  pub rename_moves :
      (p q : String) (w v : World) → fs.rename p q w ≡ (ok tt, v) → content q v ≡ content p w
  pub rename_fails :
      (p q r : String) (w v : World) (e : Error)
      → fs.rename p q w ≡ (err e, v)
      → content r v ≡ content r w

module _ {World : Type 0} (fs : Fs World) (content : String → World → Option String)
    (L : IsLawful fs content) where
  -- How a replacement ends, by its answer.
  abbrev pub Replaced : String → String → World → Result ⊤ × World → Type 0
  Replaced path text w (ok _, v) = content path v ≡ some text
  Replaced path text w (err e, v) =
      (content path v ≡ content path w)
      ⊎ ((content path v ≡ some text) × (c : Error) × (e ≡ wrap "fsync dir" c))

  fill_keeps :
      (tmp : fs.File) (text : String) (perm : ℕ) (path : String) (w : World)
      → path ≢ fs.name tmp
      → content path (fill fs tmp text perm w).1 ≡ content path w
  unfolding fill
  fill_keeps tmp text perm path w ne =
      grind (arith, L.write_keeps, L.chmod_keeps, L.sync_keeps, L.close_keeps, L.remove_keeps)

  fill_writes :
      (tmp : fs.File) (text : String) (perm : ℕ) (w v : World)
      → fill fs tmp text perm w ≡ (ok tt, v)
      → content (fs.name tmp) v ≡ some text
  unfolding fill
  fill_writes tmp text perm w v h = elim (Result-cases (fs.write tmp text w)) [
    | inr (e, u, q) ↦ ground arith
    | inl (_, u, q) ↦
        grind (arith, L.write_writes tmp text w u q, L.chmod_keeps, L.sync_keeps, L.close_keeps)
  ]

  sync_dir_keeps :
      (d p : String) (w v : World) → v ≡ (sync_dir fs d w).1 → content p v ≡ content p w
  unfolding sync_dir
  sync_dir_keeps d p w v e = rw e (grind (arith, L.open_keeps, L.sync_keeps, L.close_keeps))

  module _ (tmp : fs.File) (path text : String) (w : World) (ne : path ≢ fs.name tmp) where
    publish-Replaced :
        (u : World)
        → content (fs.name tmp) w ≡ some text
        → content path w ≡ content path u
        → Replaced path text u (publish fs tmp path w)
    unfolding publish cleanup
    publish-Replaced u full same = elim (Result-cases (fs.rename (fs.name tmp) path w)) [
      | inr (e, v, q) ↦
          let end : publish fs tmp path w ≡ (err (wrap "rename" e), (fs.remove (fs.name tmp) v).1) =
            ground arith in
          subst (Replaced path text u) (sym end) (
            inl (
              L.remove_keeps (fs.name tmp) path v ne
              ∙ L.rename_fails (fs.name tmp) path path w v e q
              ∙ same))
      | inl (_, v, q) ↦
          let moved = L.rename_moves (fs.name tmp) path w v q ∙ full in
          elim (Result-cases (sync_dir fs (fs.dir path) v)) [
            | inl (_, x, p) ↦
                let end : publish fs tmp path w ≡ (ok tt, x) = ground arith in
                subst (Replaced path text u) (sym end)
                  (sync_dir_keeps (fs.dir path) path v x (ground arith) ∙ moved)
            | inr (e, x, p) ↦
                let end : publish fs tmp path w ≡ (err (wrap "fsync dir" e), x) = ground arith in
                subst (Replaced path text u) (sym end)
                  (inr (sync_dir_keeps (fs.dir path) path v x (ground arith) ∙ moved, e, refl))
          ]
    ]

  -- Whatever fails, the path holds its old content or the whole of the new one: the old one after
  -- every error but that of the last fsync of the directory, and the new one after success.
  pub write_file-Replaced :
      (path text : String) (perm : ℕ) (w : World)
      → Replaced path text w (write_file fs path text perm w)
  unfolding write_file
  write_file-Replaced path text perm w =
      let create = fs.create_temp (fs.dir path) (fs.base path <> ".*.tmp") in
      let run = write_file fs path text perm in
      elim (Result-cases (create w)) [
        | inr (e, v, q) ↦
            let end : run w ≡ (err (wrap "create tmp" e), v) = ground arith in
            subst (Replaced path text w) (sym end) (inl (cc (q, L.temp_keeps path w)))
        | inl (tmp, v, q) ↦
            let ne = L.temp_differs path w v tmp q in
            let kept : content path v ≡ content path w = cc (q, L.temp_keeps path w) in
            elim (Result-cases (fill fs tmp text perm v)) [
              | inr (e, u, p) ↦
                  let end : run w ≡ (err e, u) = ground arith in
                  subst (Replaced path text w) (sym end)
                    (inl (cc (p, kept, fill_keeps tmp text perm path v ne)))
              | inl (_, u, p) ↦
                  let end : run w ≡ publish fs tmp path u = ground arith in
                  subst (Replaced path text w) (sym end) (
                    publish-Replaced tmp path text u ne w (fill_writes tmp text perm v u p)
                      (cc (p, kept, fill_keeps tmp text perm path v ne)))
            ]
      ]

  pub write_file-content :
      (path text : String) (perm : ℕ) (w v : World)
      → write_file fs path text perm w ≡ (ok tt, v)
      → content path v ≡ some text
  write_file-content path text perm w v h =
      subst (Replaced path text w) h (write_file-Replaced path text perm w)
