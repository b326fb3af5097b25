-- ===== src/Tests/Addresses.antt =====
-- The theorems on addresses and access control lists (src-api/common/netaddr.c, netaddr_acl.c) at
-- inputs.
use oonf_api.Base.Exec.{done, fault, out_of_bounds}
use oonf_api.Base.Int.{pos}
use oonf_api.Base.{
  ℕ, ◌*◌, ◌≤◌, ◌<◌, ◌≡◌, ◌≢◌, ◌↔◌, refl, inl, Bool, true, false, List, [], ◌∷◌, ◌++◌, length, drop,
  replicate, Option, some, arith,
}
use oonf_api.Common.Netaddr.Binary.{netaddr_to_binary-netaddr_from_binary_prefix}
use oonf_api.Common.Netaddr.Host.{netaddr_create_host-fault}
use oonf_api.Common.Netaddr.SameBits.{SameBits}
use oonf_api.Common.Netaddr.Subnet.{IsNetaddr, netaddr_is_in_subnet-SameBits}
use oonf_api.Common.Netaddr.{
  Netaddr, Families, netaddr_is_in_subnet, netaddr_from_binary_prefix, netaddr_to_binary,
  netaddr_create_host, netaddr_get_maxprefix, netaddr_get_af_maxprefix,
}
use oonf_api.Common.NetaddrAcl.Decision.{Allowed, Covered, netaddr_acl_check_accept-Allowed}
use oonf_api.Common.NetaddrAcl.Outcome.{netaddr_acl_from_strarray-described, outcome}
use oonf_api.Common.NetaddrAcl.Reading.{described}
use oonf_api.Common.NetaddrAcl.{
  NetaddrAcl, Text, first_reject, netaddr_acl_check_accept, cleared_acl, netaddr_acl_from_strarray,
}

-- The families of Linux.
abbrev linux : Families
linux = record {
  inet = 2;
  inet6 = 10;
  max_family = 45;
  inet_some = omega arith;
  inet6_some = omega arith;
  inet_ne = omega arith;
  inet_lt = omega arith;
  inet6_lt = omega arith;
  room = omega arith;
}

-- 10.0.0.0/9, and 10.127.0.1.
abbrev net : Netaddr
net = record { addr = 10 ∷ replicate 15 0; addr_type = 2; prefix_len = 9 }

abbrev node : Netaddr
node = record { addr = 10 ∷ 127 ∷ 0 ∷ 1 ∷ replicate 12 0; addr_type = 2; prefix_len = 32 }

net-IsNetaddr : IsNetaddr net
net-IsNetaddr = record { bytes = omega arith; size = refl; prefix_le = omega arith }

netaddr_is_in_subnet-SameBits_example :
    (r : Bool) × (netaddr_is_in_subnet net node ≡ done r)
    × ((r ≡ true) ↔ ((net.addr_type ≡ node.addr_type) × SameBits 9 net.addr node.addr))
netaddr_is_in_subnet-SameBits_example =
    netaddr_is_in_subnet-SameBits net node net-IsNetaddr (omega arith) refl

node_known : netaddr_get_maxprefix linux node ≢ 0
unfolding netaddr_get_maxprefix netaddr_get_af_maxprefix
node_known = omega arith

net_short : 9 < netaddr_get_maxprefix linux net
unfolding netaddr_get_maxprefix netaddr_get_af_maxprefix
net_short = omega arith

netaddr_create_host-fault_example : netaddr_create_host linux net node ≡ fault out_of_bounds
netaddr_create_host-fault_example =
    netaddr_create_host-fault linux net node refl refl node_known net_short

abbrev four_bytes : List ℕ
four_bytes = 10 ∷ 127 ∷ 0 ∷ 1 ∷ []

netaddr_to_binary-netaddr_from_binary_prefix_example :
    (a : Netaddr) × (netaddr_from_binary_prefix linux net four_bytes 4 0 255 ≡ done (a, pos 0))
    × (a.prefix_len ≡ 8 * 4)
    × ((mem : List ℕ)
        → 4 ≤ length mem
        → netaddr_to_binary linux mem a (length mem) ≡ done (four_bytes ++ drop 4 mem, pos 0))
netaddr_to_binary-netaddr_from_binary_prefix_example =
    netaddr_to_binary-netaddr_from_binary_prefix linux net four_bytes (inl refl)

-- Accept the net and nothing else.
abbrev only_net : NetaddrAcl
only_net = record {
  accept = net ∷ [];
  accept_count = 1;
  reject = [];
  reject_count = 0;
  reject_first = true;
  accept_default = false;
}

netaddr_acl_check_accept-Allowed_example :
    (r : Bool) × (netaddr_acl_check_accept only_net node ≡ done r)
    × ((r ≡ true) ↔ Allowed true (Covered (net ∷ []) node) (Covered [] node) (false ≡ true))
netaddr_acl_check_accept-Allowed_example =
    netaddr_acl_check_accept-Allowed only_net node refl refl (net-IsNetaddr, tt) tt (omega arith)
      refl

-- A reading of texts that takes each for the net.
abbrev any_text : Text → Option Netaddr
any_text t = some net

netaddr_acl_from_strarray-described_example :
    netaddr_acl_from_strarray any_text true true cleared_acl (first_reject ∷ (45 ∷ 49 ∷ []) ∷ [])
    ≡ done (outcome any_text (described any_text (first_reject ∷ (45 ∷ 49 ∷ []) ∷ [])))
netaddr_acl_from_strarray-described_example =
    netaddr_acl_from_strarray-described any_text true true cleared_acl
      (first_reject ∷ (45 ∷ 49 ∷ []) ∷ [])
