-- ===== src/Atomic.antt =====
-- manager/state/atomic.go: a file is replaced through a temporary file, a rename and two fsyncs.
pub mod Replace
use Prim.Native.String.{◌++◌ as ◌<>◌}
use vpn_pack.Common.{
  ℕ, String, ⊤, Error, wrap, Result, ok, err, Action, pure, raise, wrapping, ◌>>=◌, ◌>>◌,
}

-- Go's os and filepath, over an unknown world. A file is an open handle.
pub record Fs (World : Type 0) : Type 1 where
  pub File : Type 0
  pub dir : String → String
  pub base : String → String
  pub create_temp : String → String → Action World File
  pub name : File → String
  pub write : File → String → Action World ⊤
  pub chmod : File → ℕ → Action World ⊤
  pub sync : File → Action World ⊤
  pub close : File → Action World ⊤
  pub rename : String → String → Action World ⊤
  pub remove : String → Action World ⊤
  pub open_file : String → Action World File

module _ {World : Type 0} (fs : Fs World) where
  -- An error of `f` is returned under `message` after the cleanup `g`, whose own error is dropped.
  abbrev pub or_after : String → (World → World) → Action World ⊤ → Action World ⊤
  or_after message g f w =
      let (r, w') = f w in elim r [ ok _ ↦ (ok tt, w') | err e ↦ (err (wrap message e), g w') ]

  -- `cleanup` of `WriteFileWith`, and the same after closing
  unfoldable pub cleanup : fs.File → World → World
  cleanup tmp w = (fs.remove (fs.name tmp) w).1

  unfoldable pub close_cleanup : fs.File → World → World
  unfolding cleanup
  close_cleanup tmp w = cleanup tmp (fs.close tmp w).1

  -- `defaultSyncer.SyncDir`: the directory is closed whether or not it could be synced.
  unfoldable pub sync_dir : String → Action World ⊤
  sync_dir path w =
      let (r, w') = fs.open_file path w in
      elim r [
        | err e ↦ (err e, w')
        | ok d ↦ let (r', w'') = fs.sync d w' in (r', (fs.close d w'').1)
      ]

  -- The steps on the temporary file up to the rename.
  unfoldable pub fill : fs.File → String → ℕ → Action World ⊤
  unfolding close_cleanup cleanup
  fill tmp text perm =
      or_after "write tmp" (close_cleanup tmp) (fs.write tmp text)
      >> or_after "chmod tmp" (close_cleanup tmp) (fs.chmod tmp perm)
      >> or_after "fsync tmp" (close_cleanup tmp) (fs.sync tmp)
      >> or_after "close tmp" (cleanup tmp) (fs.close tmp)

  -- The rename and the fsync of the directory.
  unfoldable pub publish : fs.File → String → Action World ⊤
  unfolding cleanup sync_dir
  publish tmp path =
      or_after "rename" (cleanup tmp) (fs.rename (fs.name tmp) path)
      >> wrapping "fsync dir" (sync_dir (fs.dir path))

  -- `WriteFileWith`, and `WriteFile` with the default syncer
  unfoldable pub write_file : String → String → ℕ → Action World ⊤
  write_file path text perm = do
    tmp ← wrapping "create tmp" (fs.create_temp (fs.dir path) (fs.base path <> ".*.tmp"))
    fill tmp text perm
    publish tmp path
