-- ===== src/Tests/World.antt =====
-- A small world to run the code in: every call succeeds, or the file system refuses.
use vpn_pack.Common.{true, false, none, some, List, [], ◌∷◌, ⊤, text, ok, Action, pure, raise}
use vpn_pack.Common.Int.{pos}
use vpn_pack.Atomic.{Fs}
use vpn_pack.Net.{NetText}
use vpn_pack.Wgs2s.Config.{TunnelConfig}
use vpn_pack.Wgs2s.Env.{Env, State}

abbrev pub text_fs : Action ⊤ ⊤ → Fs ⊤
text_fs create = record {
  File = ⊤;
  dir = λ p. p;
  base = λ p. p;
  create_temp = λ d p. create;
  name = λ f. "tmp";
  write = λ f t. pure tt;
  chmod = λ f n. pure tt;
  sync = λ f. pure tt;
  close = λ f. pure tt;
  rename = λ p q. pure tt;
  remove = λ p. pure tt;
  open_file = λ p. pure tt;
}

-- Every prefix is 10.0.0.0/24.
abbrev pub one_net : NetText
one_net = record {
  parse_cidr = λ s. some (
    record { is_v4 = true; value = 167772161 },
    record { ip = record { is_v4 = true; value = 167772160 }; ones = 24 },
  );
  to_string = λ n. "10.0.0.0/24";
}

-- Prefixes stay as they are written.
abbrev pub plain_net : NetText
plain_net = record { parse_cidr = λ s. none; to_string = λ n. "" }

abbrev pub world_with : Action ⊤ ⊤ → Env
world_with create = record {
  World = ⊤;
  Key = ⊤;
  UdpAddr = ⊤;
  net = one_net;
  dial = pure tt;
  route_add = λ m. pure tt;
  route_delete = λ m. pure tt;
  route_replace = λ m. pure tt;
  link_new = λ n. pure tt;
  link_delete = λ i. pure tt;
  link_set_mtu = λ i n. pure tt;
  link_set_up = λ i. pure tt;
  address_new = λ m. pure tt;
  interface_by_name = λ n w. ok 7;
  interfaces = λ w. ok [];
  resolve_udp_addr = λ a w. ok tt;
  listen_udp4 = λ p. pure tt;
  listen_udp6 = λ p. pure tt;
  configure_device = λ n c. pure tt;
  generate_private_key = pure tt;
  parse_key = λ t. ok tt;
  key_string = λ k. "key";
  public_key = λ k. k;
  config_dir = "/data";
  fs = text_fs create;
  read_file = λ p w. ok "key";
  marshal = λ ts. ok "[]";
  trim_space = λ t. t;
  has_prefix = λ s p. true;
  now = λ w. 1;
  rand_read4 = pure (1 ∷ 2 ∷ 3 ∷ 4 ∷ []);
}

abbrev pub calm : Env
calm = world_with (pure tt)

-- Nothing can be saved.
abbrev pub read_only : Env
read_only = world_with (raise (text "read-only file system"))

abbrev pub office : TunnelConfig
office = record {
  id = "0a1b2c3d";
  name = "office";
  interface_name = "wg-s2s0";
  listen_port = pos 51820;
  tunnel_address = "10.0.0.1/24";
  peer_public_key = "peer";
  peer_endpoint = "";
  allowed_ips = some ("10.0.0.0/24" ∷ []);
  local_subnets = none;
  persistent_keepalive = pos 25;
  mtu = pos 1420;
  route_metric = pos 100;
  enabled = false;
  created_at = 1;
}

abbrev pub office_on : TunnelConfig
office_on = record office { enabled = true }

abbrev pub holding : List TunnelConfig → State ⊤
holding ts = record { tunnels = ts; refs = []; world = tt }
