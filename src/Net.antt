-- ===== src/Net.antt =====
-- IP addresses and prefixes as the code uses them of Go's `net`: the parsed values and what is
-- computed of them. The text grammar of `net.ParseCIDR` and the printing of `IPNet.String` are
-- the parameter `NetText`.
use vpn_pack.Common.{ℕ, String, Bool, Option, nat_eq}

-- `net.IP`: an address of 32 or 128 bits; an IPv4 address that is written in IPv6 has 32, as `To4`
-- makes it
pub record Ip : Type 0 where
  pub is_v4 : Bool
  pub value : ℕ

-- `net.IPNet`: the masked address and the number of ones of the mask, which has 128 bits where the
-- prefix is written in IPv6
pub record IpNet : Type 0 where
  pub ip : Ip
  pub ones : ℕ

pub record NetText : Type 0 where
  -- `net.ParseCIDR`, its error left out
  pub parse_cidr : String → Option (Ip × IpNet)
  -- `IPNet.String`
  pub to_string : IpNet → String
