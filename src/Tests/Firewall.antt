-- ===== src/Tests/Firewall.antt =====
-- The firewall.
use Prim.Native.Char.{Char}
use vpn_pack.Common.{
  ℕ, zero, suc, ◌-◌, String, Bool, true, false, none, some, List, [], ◌∷◌, ◌≡◌, ◌↔◌, refl, ap, inl,
  inr, ⊤, ok, Action, pure, insert_at, ◌==◌, string_eq, if◌then◌else◌, arith, Bool-cases,
}
use vpn_pack.Common.Int.{pos}
use vpn_pack.Common.Map.{lookup, erase}
use vpn_pack.Common.Decimal.{itoa, value_from, value_from-decimal_from}
use vpn_pack.Service.ExitNode.Rules.{strip_prefix}
use vpn_pack.Firewall.{FirewallEnv}
use vpn_pack.Firewall.Text.{jump_to, line_jumps_to, chain_prefix, has_prefix, line_contains_tokens}
use vpn_pack.Firewall.Order.{St}
use vpn_pack.Firewall.Chains.{chain_of, delete_first}
use vpn_pack.Firewall.Shadow.{to_target, IsKernel, is_plain, to_ubios, to_target-apart}
use vpn_pack.Atomic.{write_file, fill, publish, sync_dir, cleanup, close_cleanup}
use vpn_pack.State.Manifest.Edit.{
  change, save_locked, set_wan_port, remove_wan_port, set_system_zone_ids,
}
use vpn_pack.State.Manifest.Read.{
  get_wan_port_entry, get_wan_port_policy_id, get_site_id, has_site_id, get_system_zone_ids,
}
use vpn_pack.Firewall.Probes.{integration_ready}
use vpn_pack.Firewall.Ports.{
  wan_port_policy_name, create_wan_port, resolve_system_zones, open_wan_port, delete_wan_port,
  close_wan_port,
}
use vpn_pack.Firewall.Tokens.{Infix, line_contains_tokens-Infix}
use vpn_pack.Firewall.Idempotent.{Closed, Opened, open_wan_port-close_wan_port}
use vpn_pack.Tests.World.{plain_net}
use vpn_pack.Tests.Disk.{Disk}
use vpn_pack.Tests.Manifest.{disk_env, empty_disk, blank}

-- A chain is a text: a `t` stands for a rule that jumps to Tailscale's chain.
abbrev is_jump : Char → Bool
is_jump c = String.◌∷◌ c "" == "t"

abbrev line : Bool → String
line true = "-A INPUT -j ts-input"
line false = "-A INPUT -j UBIOS_INPUT_JUMP"

abbrev rules_of : String → List String
rules_of String.[] = []
rules_of (String.◌∷◌ c s) = line (is_jump c) ∷ rules_of s

abbrev behind_first : String → String
behind_first String.[] = ""
behind_first (String.◌∷◌ c s) = s

abbrev drop_jump : String → String
drop_jump String.[] = ""
drop_jump (String.◌∷◌ c s) = if is_jump c then s else String.◌∷◌ c (drop_jump s)

abbrev put_jump : ℕ → String → String
put_jump zero s = String.◌∷◌ "t" s
put_jump (suc i) String.[] = "t"
put_jump (suc i) (String.◌∷◌ c s) = String.◌∷◌ c (put_jump i s)

abbrev chain_text : Disk → String
chain_text w = elim w.stored [ none ↦ "" | some t ↦ t ]

abbrev run_iptables : List String → Action Disk ⊤
run_iptables (a ∷ b ∷ c ∷ d ∷ op ∷ e ∷ n ∷ rest) w = (
  ok tt,
  record w {
    stored = some (
        if op == "-D"
        then drop_jump (chain_text w)
        else put_jump (value_from 0 n - 1) (chain_text w));
  },
)
run_iptables _ w = (ok tt, w)

abbrev host : FirewallEnv
host = record {
  env = disk_env;
  clock = λ w. 0;
  fields = λ l. if l == line true then "-j" ∷ "ts-input" ∷ [] else "-j" ∷ "UBIOS_INPUT_JUMP" ∷ [];
  lines = λ s. rules_of (behind_first s);
  trim_space = λ s. s;
  iptables_save = λ w. ok (String.◌∷◌ "x" (chain_text w));
  iptables_list = λ c w. ok "";
  ipset_list = λ c w. ok "";
  mongo_zones = λ w. ok "";
  iptables = run_iptables;
  has_ic = true;
  has_api_key = λ w. true;
  is_not_found = λ e. false;
  ensure_wan_port_policy = λ a b c d e. pure "policy";
  delete_policy = λ a b. pure tt;
  find_system_zone_ids = λ a. pure ("external", "gateway");
  ensure_dns_forward_domain = λ a b c. pure "policy";
  delete_dns_policy = λ a b. pure tt;
  add_interface_rules = λ a b c. pure tt;
  remove_interface_rules = λ a b. pure tt;
  ensure_zone_subnet = λ a b. pure tt;
  ensure_zone_subnets = λ a b. pure tt;
  remove_zone_subnet = λ a b. pure tt;
  net = plain_net;
  host = λ w. record {
    interfaces = ok [];
    dial = ok tt;
    routes = ok [];
    rules = ok [];
    interface_by_index = λ n. ok "";
  };
}

abbrev jumps : String → Bool
jumps = to_target host "INPUT" "ts-input"

line-jumps : (b : Bool) → jumps (line b) ≡ b
unfolding line_jumps_to jump_to string_eq
line-jumps true = refl
line-jumps false = refl

abbrev plain : String → Bool
plain = is_plain host "INPUT" "ts-input"

line-plain : (b : Bool) → plain (line b) ≡ b
unfolding string_eq
line-plain true = refl
line-plain false = refl

line-in_chain : (b : Bool) → has_prefix (line b) (chain_prefix "INPUT") ≡ true
unfolding has_prefix strip_prefix string_eq
line-in_chain true = refl
line-in_chain false = refl

chain_of-rules : (s : String) → chain_of (chain_prefix "INPUT") (rules_of s) ≡ rules_of s
chain_of-rules String.[] = refl
chain_of-rules (String.◌∷◌ c s) = ground (arith, line-in_chain (is_jump c), chain_of-rules s)

rules-drop_jump : (s : String) → rules_of (drop_jump s) ≡ delete_first plain (rules_of s)
rules-drop_jump String.[] = refl
rules-drop_jump (String.◌∷◌ c s) = ground (arith, line-plain (is_jump c), rules-drop_jump s)

rules-put_jump :
    (i : ℕ) (s : String) → rules_of (put_jump i s) ≡ insert_at i (line true) (rules_of s)
unfolding string_eq
rules-put_jump zero s = refl
rules-put_jump (suc i) String.[] = refl
rules-put_jump (suc i) (String.◌∷◌ c s) =
    ap (λ (ls : List String). line (is_jump c) ∷ ls) (rules-put_jump i s)

-- Whether a text has characters.
abbrev has_some : String → Bool
has_some String.[] = false
has_some (String.◌∷◌ c s) = true

not_empty : (s : String) → (String.◌∷◌ "x" s == "") ≡ false
not_empty s = elim (Bool-cases (String.◌∷◌ "x" s == "")) [
  | inr h ↦ h
  | inl h ↦
      let same : String.◌∷◌ "x" s ≡ "" = ground arith in
      let apart : true ≡ false = ap has_some same in absurd (ground arith)
]

place-itoa : (i : ℕ) → value_from 0 (itoa (pos (suc i))) - 1 ≡ i
unfolding itoa value_from
place-itoa i =
    let read = value_from-decimal_from (suc (suc i)) (suc i) "" (omega arith) in omega (arith, read)

abbrev rules : Disk → List String
rules w = rules_of (chain_text w)

host-IsKernel : IsKernel host "INPUT" "ts-input" rules
unfolding string_eq itoa
host-IsKernel = record {
  other_target = refl;
  plain_jumps = line-jumps true;
  saves = λ w. (
    String.◌∷◌ "x" (chain_text w),
    refl,
    not_empty (chain_text w),
    chain_of-rules (chain_text w),
  );
  deletes = λ w i h.
      (record w { stored = some (drop_jump (chain_text w)) }, refl, rules-drop_jump (chain_text w));
  inserts = λ w i h. (
    record w { stored = some (put_jump i (chain_text w)) },
    ap (λ n. (ok tt, record w { stored = some (put_jump n (chain_text w)) })) (place-itoa i),
    rules-put_jump i (chain_text w),
  );
}

-- A chain with two jumps in front of UniFi's and one behind it.
abbrev start : St host
start = record {
  manifest = blank;
  world = record empty_disk { stored = some "ttut" };
  filter_cache = "";
  filter_time = 0;
  ipset_cache = "";
  ipset_set = "";
  ipset_time = 0;
  mongo_cache = none;
  mongo_time = 0;
}

abbrev apart :
    (l : String)
    → to_target host "INPUT" "ts-input" l ≡ true
    → to_ubios host "INPUT" "ts-input" l ≡ false
apart = to_target-apart host "INPUT" "ts-input" rules host-IsKernel

-- The port of Tailscale is moved.
abbrev ready : St host
ready = record start {
  manifest = record blank {
    site_id = "site";
    wan_ports =
        ("tailscale-wg", record { policy_id = "old"; policy_name = "old"; port = pos 3478 }) ∷ [];
  };
}

abbrev closed : St host
closed = (close_wan_port host "tailscale-wg" ready).1

abbrev opened : St host
opened = (open_wan_port host (pos 41641) "tailscale-wg" closed).1

close_ready : close_wan_port host "tailscale-wg" ready ≡ (ok tt, closed)
unfolding close_wan_port delete_wan_port integration_ready get_wan_port_policy_id get_site_id
    remove_wan_port has_site_id lookup erase change save_locked write_file fill publish sync_dir
    cleanup close_cleanup string_eq
close_ready = refl

open_closed : open_wan_port host (pos 41641) "tailscale-wg" closed ≡ (ok tt, opened)
unfolding close_wan_port delete_wan_port remove_wan_port erase has_site_id lookup open_wan_port
    create_wan_port resolve_system_zones integration_ready get_wan_port_policy_id
    get_system_zone_ids get_site_id set_system_zone_ids set_wan_port change save_locked write_file
    fill publish sync_dir cleanup close_cleanup string_eq
open_closed = refl

open_wan_port-close_wan_port_example :
    (Closed host "tailscale-wg" ready closed)
    × (id : String) × (Opened host "tailscale-wg" (pos 41641) id closed opened)
    × (get_wan_port_entry "tailscale-wg" opened.manifest
        ≡ some (record {
          policy_id = id;
          policy_name = wan_port_policy_name (pos 41641) "tailscale-wg";
          port = pos 41641;
        }))
open_wan_port-close_wan_port_example =
    open_wan_port-close_wan_port host "tailscale-wg" (pos 41641) ready closed opened close_ready
      open_closed

line_contains_tokens-Infix_example :
    (line_contains_tokens host.fields (line true) (line true) ≡ true)
    ↔ Infix host.fields (line true) (line true)
line_contains_tokens-Infix_example = line_contains_tokens-Infix host.fields (line true) (line true)
