-- ===== src/Wgs2s/Keys.antt =====
-- manager/internal/wgs2s/keygen.go, and `validTunnelID` of manager.go and `generateID` of
-- config.go: tunnel ids and the key files that are named for them.
use Prim.Native.Char.{code}
use Prim.Native.String.{len, ◌++◌ as ◌<>◌}
use vpn_pack.Common.{
  ℕ, ◌/◌, ◌%◌, String, Bool, true, false, not, ◌&&◌, ◌||◌, List, [], ◌∷◌, text, wrap, Result, ok,
  err, Action, pure, wrapping, raise_if, ◌>>=◌, ◌>>◌, ltb, leb, ◌==◌, string_eq, nat_eq,
}
use vpn_pack.Atomic.{write_file}
use vpn_pack.Wgs2s.Env.{Env}

-- The code points of a text, over which `range` goes.
abbrev pub codes : String → List ℕ
codes String.[] = []
codes (String.◌∷◌ c s) = code c ∷ codes s

abbrev pub is_id_char : ℕ → Bool
is_id_char r =
    (leb b'0' r && leb r b'9')
    || (leb b'a' r && leb r b'z')
    || (leb b'A' r && leb r b'Z')
    || r == b'-'
    || r == b'_'

unfoldable pub all_id_chars : List ℕ → Bool
unfolding nat_eq
all_id_chars [] = true
all_id_chars (r ∷ rs) = is_id_char r && all_id_chars rs

unfoldable pub valid_tunnel_id : String → Bool
unfolding string_eq all_id_chars
valid_tunnel_id id = not (id == "" || ltb 64 (len id)) && all_id_chars (codes id)

-- One byte by `%x`: two digits.
abbrev hex_digits : List String
hex_digits =
    "0" ∷ "1" ∷ "2" ∷ "3" ∷ "4" ∷ "5" ∷ "6" ∷ "7" ∷ "8" ∷ "9" ∷ "a" ∷ "b" ∷ "c" ∷ "d" ∷ "e" ∷ "f"
    ∷ []

abbrev nth_text : ℕ → List String → String
nth_text n [] = ""
nth_text ℕ.zero (t ∷ ts) = t
nth_text (ℕ.suc n) (t ∷ ts) = nth_text n ts

unfoldable pub hex_byte : ℕ → String
hex_byte b = nth_text (b / 16) hex_digits <> nth_text (b % 16) hex_digits

unfoldable pub hex_bytes : List ℕ → String
unfolding hex_byte
hex_bytes [] = ""
hex_bytes (b ∷ bs) = hex_byte b <> hex_bytes bs

module _ (E : Env) where
  unfoldable pub generate_id : Action E.World String
  unfolding hex_bytes
  generate_id = do b ← wrapping "crypto/rand failed" E.rand_read4; pure (hex_bytes b)

  abbrev pub key_path : String → String
  key_path id = E.config_dir <> "/" <> id <> ".key"

  abbrev pub pub_path : String → String
  pub_path id = E.config_dir <> "/" <> id <> ".pub"

  -- 0600
  abbrev pub secret_perm : ℕ
  secret_perm = 384

  unfoldable pub save_key_files : String → E.Key → Action E.World E.Key
  save_key_files id key = do
    raise_if (not (valid_tunnel_id id)) (text "invalid tunnel ID")
    wrapping "write private key" (write_file E.fs (key_path id) (E.key_string key) secret_perm)
    wrapping "write public key"
        (write_file E.fs (pub_path id) (E.key_string (E.public_key key)) secret_perm)
    pure key

  unfoldable pub generate_keypair : String → Action E.World E.Key
  generate_keypair id = do
    key ← wrapping "generate private key" E.generate_private_key
    save_key_files id key

  unfoldable pub save_existing_keypair : String → String → Action E.World E.Key
  save_existing_keypair id key_text = do
    key ← wrapping "parse private key" (λ w. (E.parse_key (E.trim_space key_text), w))
    save_key_files id key

  unfoldable pub load_private_key : String → Action E.World E.Key
  load_private_key id = do
    raise_if (not (valid_tunnel_id id)) (text "invalid tunnel ID")
    content ← wrapping "read private key" (λ w. (E.read_file (key_path id) w, w))
    λ w. (E.parse_key content, w)

  unfoldable pub delete_key_files : String → E.World → E.World
  delete_key_files id w =
      let w' = (E.fs.remove (pub_path id) (E.fs.remove (key_path id) w).1).1 in
      elim (valid_tunnel_id id) [ true ↦ w' | false ↦ w ]

  -- `GetPublicKey` of manager.go
  unfoldable pub get_public_key : String → E.World → Result String
  get_public_key id w =
      let r : Result String = elim (E.read_file (pub_path id) w) [
        | ok t ↦ ok (E.trim_space t)
        | err e ↦ err (wrap "read public key" e)
      ] in
      elim (valid_tunnel_id id) [ true ↦ r | false ↦ err (text "invalid tunnel ID") ]
