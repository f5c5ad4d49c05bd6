-- ===== src/Security.antt =====
-- security.py: the test of a destination address.
use lite_checker.Prelude.{Bool, false, not, ◌||◌, if◌then◌else◌}
use lite_checker.Models.{Ip}

-- The properties of an address that the `ipaddress` module answers from its tables.
pub record IpTables : Type 0 where
  pub is_global : Ip → Bool
  pub is_multicast : Ip → Bool
  pub is_unspecified : Ip → Bool
  pub is_loopback : Ip → Bool
  pub is_link_local : Ip → Bool
  pub is_private : Ip → Bool
  pub is_reserved : Ip → Bool

unfoldable pub is_forbidden_ip : IpTables → Bool → Ip → Bool
is_forbidden_ip t allow_private a =
    if allow_private
    then false
    else not (t.is_global a)
      || t.is_multicast a
      || t.is_unspecified a
      || t.is_loopback a
      || t.is_link_local a
      || t.is_private a
      || t.is_reserved a
