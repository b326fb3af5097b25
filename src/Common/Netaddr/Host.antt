-- ===== src/Common/Netaddr/Host.antt =====
-- An address from a prefix and a host number (src-api/common/netaddr.c and netaddr.h).
use oonf_api.Base.Exec.{fault, out_of_bounds}
use oonf_api.Base.{
  ℕ, zero, suc, ◌+◌, ◌-◌, ◌/◌, ◌≤◌, ◌<◌, ◌≡◌, ◌≢◌, refl, false, ◌==◌, ltb, leb, List, [], ◌∷◌,
  length, Bool-cases, ◌⊎◌, inl, inr, bit_and, arith,
}
use oonf_api.Common.Autobuf.{load}
use oonf_api.Common.Netaddr.Subnet.{byte_at-lt}
use oonf_api.Common.Netaddr.{
  Netaddr, Families, mac48, eui64, netaddr_get_af_maxprefix, netaddr_get_maxprefix, host_part,
  copy_number, byte_at, netaddr_create_host_bin, netaddr_create_host,
}

byte_at-ge : (mem : List ℕ) (i : ℕ) → length mem ≤ i → byte_at mem i ≡ fault out_of_bounds
unfolding byte_at
byte_at-ge [] i h = refl
byte_at-ge (x ∷ mem) zero h = absurd (omega arith)
byte_at-ge (x ∷ mem) (suc i) h = byte_at-ge mem i (omega arith)

copy_number-fault :
    (host : Netaddr) (at : ℕ) (number : List ℕ) (i n : ℕ)
    → length number < i + n
    → copy_number host at number i n ≡ fault out_of_bounds
unfolding copy_number load
copy_number-fault host at number i n h =
    let over : leb (i + n) (length number) ≡ false = ground arith in rw over refl

host_part-bounds :
    (max p : ℕ) → max ≤ 128 → p < max → (0 < host_part max p) × (host_part max p ≤ 16)
unfolding host_part
host_part-bounds max p h lt = (omega arith, omega arith)

module _ (af : Families) where
  maxprefix-cases :
      (t : ℕ)
      → (netaddr_get_af_maxprefix af t ≡ 0)
        ⊎ ((32 ≤ netaddr_get_af_maxprefix af t) × (netaddr_get_af_maxprefix af t ≤ 128))
  unfolding netaddr_get_af_maxprefix
  maxprefix-cases t = elim (Bool-cases (t == af.inet)) [
    | inl e ↦ rw e (inr (omega arith, omega arith))
    | inr a ↦ elim (Bool-cases (t == af.inet6)) [
      | inl e ↦ rw (a, e) (inr (omega arith, omega arith))
      | inr b ↦ elim (Bool-cases (t == mac48 af)) [
        | inl e ↦ rw (a, b, e) (inr (omega arith, omega arith))
        | inr c ↦ elim (Bool-cases (t == eui64 af)) [
          | inl e ↦ rw (a, b, c, e) (inr (omega arith, omega arith))
          | inr d ↦ rw (a, b, c, d) (inl refl)
        ]
      ]
    ]
  ]

  -- A number of at least 32 bytes is read behind its end when it has only 16.
  create_host_bin-fault :
      (netmask : Netaddr) (number : List ℕ) (len : ℕ)
      → length netmask.addr ≡ 16
      → length number ≡ 16
      → 32 ≤ len
      → netaddr_get_maxprefix af netmask ≢ 0
      → netaddr_get_maxprefix af netmask ≤ 128
      → netmask.prefix_len < netaddr_get_maxprefix af netmask
      → netaddr_create_host_bin af netmask number len ≡ fault out_of_bounds
  unfolding netaddr_create_host_bin
  create_host_bin-fault netmask number len size size' big known le lt =
      let max : ℕ = netaddr_get_maxprefix af netmask in
      let (some_part, small_part) = host_part-bounds max netmask.prefix_len le lt in
      let one : (netaddr_get_maxprefix af netmask == 0) ≡ false = ground arith in
      let two : (netaddr_get_maxprefix af netmask == netmask.prefix_len) ≡ false = ground arith in
      let three : (len == 0) ≡ false = ground arith in
      let four : ltb len (host_part (netaddr_get_maxprefix af netmask) netmask.prefix_len) ≡ false =
        ground arith in
      rw (one, two, three, four)
        (elim (Bool-cases (bit_and netmask.prefix_len 7 == 0)) [
          | inl whole ↦
              let part : ℕ = host_part max netmask.prefix_len in
              rw whole (
                copy_number-fault (record netmask { prefix_len = max }) (netmask.prefix_len / 8)
                  number (len - part) (len - (len - part))
                  (omega (arith, some_part, small_part, size')))
          | inr part ↦
              rw
                (
                  part,
                  byte_at-lt netmask.addr (netmask.prefix_len / 8) (omega (arith, size, le, lt)),
                  byte_at-ge number (len - host_part max netmask.prefix_len)
                      (omega (arith, small_part, size')),
                )
                refl
        ])

  -- A host number of 16 bytes with a known type makes `netaddr_create_host` read behind it, for
  -- each prefix of a known type that is shorter than its address: the function passes the length
  -- in bits where `netaddr_create_host_bin` takes one in bytes.
  pub netaddr_create_host-fault :
      (netmask host_number : Netaddr)
      → length netmask.addr ≡ 16
      → length host_number.addr ≡ 16
      → netaddr_get_maxprefix af host_number ≢ 0
      → netmask.prefix_len < netaddr_get_maxprefix af netmask
      → netaddr_create_host af netmask host_number ≡ fault out_of_bounds
  unfolding netaddr_create_host netaddr_get_maxprefix
  netaddr_create_host-fault netmask host_number size size' known lt =
      elim (maxprefix-cases host_number.addr_type) [
        | inl none_known ↦ absurd (known none_known)
        | inr (big, _) ↦ elim (maxprefix-cases netmask.addr_type) [
          | inl none_known ↦ absurd (omega (arith, none_known, lt))
          | inr (some_bits, le) ↦
              create_host_bin-fault netmask host_number.addr _ size size' big
                (omega (arith, some_bits)) le lt
        ]
      ]
