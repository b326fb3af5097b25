-- ===== src/Common/Netaddr.antt =====
-- Addresses (src-api/common/netaddr.c and netaddr.h) and their comparator
-- (src-api/common/avl_comp.c). The numbers of the address families are those of the system.
pub mod SameBits
pub mod Subnet
pub mod Host
pub mod Binary
use oonf_api.Base.Exec.{Exec, done, fault, out_of_bounds, ◌>>=◌}
use oonf_api.Base.Int.{ℤ, pos, negsuc, sub_ℕ}
use oonf_api.Base.Word.{u8}
use oonf_api.Base.{
  ℕ, ◌+◌, ◌-◌, ◌*◌, ◌/◌, ◌%◌, ◌^◌, ◌≤◌, ◌<◌, ◌≢◌, Bool, true, false, not, ◌&&◌, ◌||◌, bit_and,
  bit_or, ◌==◌, ltb, leb, if◌then◌else◌, List, [], ◌∷◌, ◌++◌, length, get_elem?, set, take, drop,
  replicate, none, some,
}
use oonf_api.Common.Autobuf.{store, load}

pub record Netaddr : Type 0 where
  pub addr : List ℕ
  pub addr_type : ℕ
  pub prefix_len : ℕ

-- The bytes of the structure, in the order in which they lie in memory.
abbrev pub netaddr_bytes : Netaddr → List ℕ
netaddr_bytes n = n.addr ++ (n.addr_type ∷ n.prefix_len ∷ [])

-- `memcmp` over the shorter of two objects: the difference at the first byte that differs.
unfoldable pub memcmp : List ℕ → List ℕ → ℤ
memcmp [] ys = pos 0
memcmp (x ∷ xs) [] = pos 0
memcmp (x ∷ xs) (y ∷ ys) = if x == y then memcmp xs ys else sub_ℕ x y

unfoldable pub avl_comp_netaddr : Netaddr → Netaddr → ℤ
avl_comp_netaddr n1 n2 = memcmp (netaddr_bytes n1) (netaddr_bytes n2)

-- `AF_INET`, `AF_INET6` and `AF_MAX` of the system, as far as the code relies on them:
-- `AF_UNSPEC` is 0, the families differ, and lie below `AF_MAX`, which leaves room in a byte.
pub record Families : Type 0 where
  pub inet : ℕ
  pub inet6 : ℕ
  pub max_family : ℕ
  pub inet_some : inet ≢ 0
  pub inet6_some : inet6 ≢ 0
  pub inet_ne : inet ≢ inet6
  pub inet_lt : inet < max_family
  pub inet6_lt : inet6 < max_family
  pub room : max_family + 2 < 256

abbrev pub mac48 : Families → ℕ
mac48 af = af.max_family + 1

abbrev pub eui64 : Families → ℕ
eui64 af = af.max_family + 2

-- Whether two blocks of `n` bytes are the same.
unfoldable pub same_bytes : List ℕ → List ℕ → Bool
same_bytes [] ys = true
same_bytes (x ∷ xs) [] = true
same_bytes (x ∷ xs) (y ∷ ys) = x == y && same_bytes xs ys

-- A byte of an object.
unfoldable pub byte_at : List ℕ → ℕ → Exec ℕ
byte_at mem i = elim (get_elem? mem i) [ none ↦ fault out_of_bounds | some x ↦ done x ]

-- `_binary_is_in_subnet`
unfoldable pub binary_is_in_subnet : Netaddr → List ℕ → Exec Bool
unfolding same_bytes byte_at load
binary_is_in_subnet subnet bin = do
  let byte_length = subnet.prefix_len / 8
  let bit_length = subnet.prefix_len % 8
  mine ← load subnet.addr 0 byte_length
  theirs ← load bin 0 byte_length
  if not (same_bytes mine theirs)
      then done false
      else if not (bit_length == 0)
      then (do
        x ← byte_at subnet.addr byte_length
        y ← byte_at bin byte_length
        done (x / 2 ^ (8 - bit_length) == y / 2 ^ (8 - bit_length)))
      else done true

unfoldable pub netaddr_is_in_subnet : Netaddr → Netaddr → Exec Bool
unfolding binary_is_in_subnet
netaddr_is_in_subnet subnet a =
    if not (subnet.addr_type == a.addr_type) then done false else binary_is_in_subnet subnet a.addr

-- The byte in which the prefix ends: the bits behind it are the number's.
unfoldable pub mix_byte : ℕ → ℕ → ℕ → ℕ
mix_byte mask old new = bit_or (bit_and old (255 - mask)) (bit_and new mask)

-- `(max - prefix_len + 7) / 8`, cut to a byte; the `int` division rounds towards zero.
unfoldable pub host_part : ℕ → ℕ → ℕ
host_part max prefix_len = u8 (2 ^ 8 + (max + 7 - prefix_len) / 8 - (prefix_len - (max + 7)) / 8)

-- The copy at the end of `netaddr_create_host_bin`.
unfoldable pub copy_number : Netaddr → ℕ → List ℕ → ℕ → ℕ → Exec (Netaddr × ℤ)
unfolding load store
copy_number host host_index number number_index n = do
  bytes ← load number number_index n
  addr ← store host.addr host_index bytes
  done (record host { addr = addr }, pos 0)

module _ (af : Families) where
  unfoldable pub netaddr_get_af_maxprefix : ℕ → ℕ
  netaddr_get_af_maxprefix af_type =
      if af_type == af.inet
      then 32
      else if af_type == af.inet6
      then 128
      else if af_type == mac48 af
      then 48
      else if af_type == eui64 af
      then 64
      else 0

  unfoldable pub netaddr_get_maxprefix : Netaddr → ℕ
  unfolding netaddr_get_af_maxprefix
  netaddr_get_maxprefix a = netaddr_get_af_maxprefix a.addr_type

  unfoldable pub netaddr_binary_is_in_subnet : Netaddr → List ℕ → ℕ → ℕ → Exec Bool
  unfolding netaddr_get_maxprefix binary_is_in_subnet
  netaddr_binary_is_in_subnet subnet bin len af_family =
      if not (subnet.addr_type == af_family) || not (netaddr_get_maxprefix subnet == len * 8)
      then done false
      else binary_is_in_subnet subnet bin

  -- The `switch` on the length: the type, and the length that is copied.
  unfoldable pub type_of_length : ℕ → ℕ × ℕ
  type_of_length len =
      if len == 4
      then (af.inet, len)
      else if len == 6
      then (mac48 af, len)
      else if len == 8
      then (eui64 af, len)
      else if len == 16
      then (af.inet6, len)
      else (0, (if ltb 16 len then 16 else len))

  unfoldable pub netaddr_from_binary_prefix : Netaddr → List ℕ → ℕ → ℕ → ℕ → Exec (Netaddr × ℤ)
  unfolding type_of_length load store
  netaddr_from_binary_prefix dst binary len addr_type prefix_len = do
    let (t, n) = if not (addr_type == 0) then (addr_type, len) else type_of_length len
    bytes ← load binary 0 n
    addr ← store (replicate 16 0) 0 bytes
    done (
      record {
        addr = addr;
        addr_type = t;
        prefix_len = (if prefix_len == 255 then u8 (n * 2 ^ 3) else prefix_len);
      },
      (if t == 0 then negsuc 0 else pos 0),
    )

  -- The memory at `dst` and the result.
  unfoldable pub netaddr_to_binary : List ℕ → Netaddr → ℕ → Exec (List ℕ × ℤ)
  unfolding netaddr_get_maxprefix load store
  netaddr_to_binary dst src len =
      let addr_len = netaddr_get_maxprefix src / 2 ^ 3 in
      if addr_len == 0 || ltb len addr_len
      then done (dst, negsuc 0)
      else (do bytes ← load src.addr 0 addr_len; mem ← store dst 0 bytes; done (mem, pos 0))

  unfoldable pub netaddr_create_host_bin : Netaddr → List ℕ → ℕ → Exec (Netaddr × ℤ)
  unfolding netaddr_get_maxprefix host_part mix_byte byte_at copy_number
  netaddr_create_host_bin netmask number num_length =
      let max = netaddr_get_maxprefix netmask in
      let host = record netmask { prefix_len = max } in
      if max == 0
      then done (host, negsuc 0)
      else if max == netmask.prefix_len || num_length == 0
      then done (host, pos 0)
      else let host_part_length = host_part max netmask.prefix_len in
        if ltb num_length host_part_length
        then copy_number host (max / 8 - num_length) number 0 num_length
        else let host_index = netmask.prefix_len / 8 in
          let number_index = num_length - host_part_length in
          if not (bit_and netmask.prefix_len 7 == 0)
          then (do
            let mask = 255 / 2 ^ bit_and netmask.prefix_len 7
            old ← byte_at host.addr host_index
            new ← byte_at number number_index
            copy_number (record host { addr = set host.addr host_index (mix_byte mask old new) })
                (host_index + 1) number (number_index + 1) (num_length - (number_index + 1)))
          else copy_number host host_index number number_index (num_length - number_index)

  -- The inline function of netaddr.h.
  unfoldable pub netaddr_create_host : Netaddr → Netaddr → Exec (Netaddr × ℤ)
  unfolding netaddr_create_host_bin netaddr_get_maxprefix
  netaddr_create_host netmask host_number =
      netaddr_create_host_bin netmask host_number.addr (netaddr_get_maxprefix host_number)
