-- ===== src/Tests/Disk.antt =====
-- A small file system for the tests.
use Prim.Native.String.{◌++◌ as ◌<>◌}
use vpn_pack.Common.{
  text, ◌≡◌, refl, ◌∙◌, ap, String, false, Option, none, some, if◌then◌else◌, ⊤, ok, err, pure,
  arith, eq_self, ◌==◌, string_eq,
}
use vpn_pack.Atomic.{Fs}
use vpn_pack.Atomic.Replace.{IsLawful}

-- A disk of two files, one of them temporary.
pub record Disk : Type 0 where
  pub stored : Option String
  pub temporary : Option String

abbrev pub content : String → Disk → Option String
content p d = if p == "tmp" then d.temporary else if p == "a" then d.stored else none

abbrev pub disk_fs : Fs Disk
disk_fs = record {
  File = ⊤;
  dir = λ p. "";
  base = λ p. p;
  create_temp = λ d p w. (if p == "a.*.tmp" then ok tt else err (text "permission denied"), w);
  name = λ f. "tmp";
  write = λ f t w. (ok tt, record w { temporary = some t });
  chmod = λ f n. pure tt;
  sync = λ f. pure tt;
  close = λ f. pure tt;
  rename = λ p q w.
      (if p == "tmp"
        then if q == "a"
          then (ok tt, record w { stored = w.temporary })
          else (err (text "permission denied"), w)
        else (err (text "permission denied"), w));
  remove = λ p. pure tt;
  open_file = λ p. pure tt;
}

abbrev pub path_a : String
path_a = "a"

abbrev pub path_tmp : String
path_tmp = "tmp"

abbrev pub only_pattern : String
only_pattern = "a.*.tmp"

temp_refused : (path_tmp <> ".*.tmp" == only_pattern) ≡ false
unfolding string_eq
temp_refused = refl

tmp_other : (path_a == path_tmp) ≡ false
unfolding string_eq
tmp_other = refl

pub disk-IsLawful : IsLawful disk_fs content
disk-IsLawful = record {
  temp_differs = λ path w v f h e.
      let refused : (path <> ".*.tmp" == only_pattern) ≡ false =
        ap (λ q. q <> ".*.tmp" == only_pattern) e ∙ temp_refused in
      ground arith;
  temp_keeps = λ path w. refl;
  write_keeps = λ f t p w ne. ground arith;
  write_writes = λ f t w v h. ground (arith, eq_self path_tmp);
  chmod_keeps = λ f n p w. refl;
  sync_keeps = λ f p w. refl;
  close_keeps = λ f p w. refl;
  open_keeps = λ q p w. refl;
  remove_keeps = λ q p w ne. refl;
  rename_moves = λ p q w v h. ground (arith, eq_self path_tmp, eq_self path_a, tmp_other);
  rename_fails = λ p q r w v e h. ground arith;
}
