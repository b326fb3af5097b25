-- ===== src/Common/Netaddr/Binary.antt =====
-- Addresses from bytes and back (`netaddr_from_binary_prefix` and `netaddr_to_binary`,
-- src-api/common/netaddr.c).
use oonf_api.Base.Exec.{done}
use oonf_api.Base.Int.{pos}
use oonf_api.Base.{
  ℕ, ◌+◌, ◌*◌, ◌/◌, ◌^◌, ◌≤◌, ◌≡◌, ◌≢◌, refl, true, false, ◌==◌, ltb, leb, List, ◌++◌, length,
  length-append, le→leb, replicate, drop, take-append, take_all, ◌⊎◌, inl, inr, ==_iff, arith,
}
use oonf_api.Base.Word.{u8}
use oonf_api.Common.Autobuf.{load, store}
use oonf_api.Common.Netaddr.{
  Netaddr, Families, mac48, eui64, netaddr_get_af_maxprefix, netaddr_get_maxprefix, type_of_length,
  netaddr_from_binary_prefix, netaddr_to_binary,
}

-- The lengths that the code knows.
abbrev pub IsLength : ℕ → Type 0
IsLength n = (n ≡ 4) ⊎ ((n ≡ 6) ⊎ ((n ≡ 8) ⊎ (n ≡ 16)))

length-le : (n : ℕ) → IsLength n → n ≤ 16
length-le n (inl h) = omega arith
length-le n (inr (inl h)) = omega arith
length-le n (inr (inr (inl h))) = omega arith
length-le n (inr (inr (inr h))) = omega arith

length-ne : (n : ℕ) → IsLength n → n ≢ 0
length-ne n (inl h) = omega arith
length-ne n (inr (inl h)) = omega arith
length-ne n (inr (inr (inl h))) = omega arith
length-ne n (inr (inr (inr h))) = omega arith

load_all : (bytes : List ℕ) → load bytes 0 (length bytes) ≡ done bytes
unfolding load
load_all bytes =
    let all : leb (0 + length bytes) (length bytes) ≡ true = ground arith in
    rw (all, take_all (length bytes) bytes (omega arith)) refl

load-first :
    (bytes rest : List ℕ) (n : ℕ) → n ≡ length bytes → load (bytes ++ rest) 0 n ≡ done bytes
unfolding load
load-first bytes rest n h =
    let all : leb (0 + n) (length (bytes ++ rest)) ≡ true =
      le→leb _ _ (omega (arith, length-append bytes rest)) in
    rw (all, take-append bytes rest n h) refl

store-first :
    (mem bytes : List ℕ)
    → length bytes ≤ length mem
    → store mem 0 bytes ≡ done (bytes ++ drop (length bytes) mem)
unfolding store
store-first mem bytes h =
    let all : leb (0 + length bytes) (length mem) ≡ true = le→leb _ _ (omega arith) in
    let z : 0 + length bytes ≡ length bytes = omega arith in rw all (rw z refl)

module _ (af : Families) where
  type_of_length-maxprefix :
      (n : ℕ)
      → IsLength n
      → ((type_of_length af n).1 ≡ n)
        × (netaddr_get_af_maxprefix af (type_of_length af n).0 ≡ n * 8)
        × ((type_of_length af n).0 ≢ 0)
  unfolding type_of_length netaddr_get_af_maxprefix
  type_of_length-maxprefix n (inl h) =
      let a : (af.inet == af.inet) ≡ true = (==_iff _ _).1 refl in
      rw h (rw a (refl, refl, af.inet_some))
  type_of_length-maxprefix n (inr (inl h)) =
      let a : (mac48 af == af.inet) ≡ false = ground (arith, af.inet_lt) in
      let b : (mac48 af == af.inet6) ≡ false = ground (arith, af.inet6_lt) in
      let c : (mac48 af == mac48 af) ≡ true = (==_iff _ _).1 refl in
      rw h (rw (a, b, c) (refl, refl, omega arith))
  type_of_length-maxprefix n (inr (inr (inl h))) =
      let a : (eui64 af == af.inet) ≡ false = ground (arith, af.inet_lt) in
      let b : (eui64 af == af.inet6) ≡ false = ground (arith, af.inet6_lt) in
      let c : (eui64 af == mac48 af) ≡ false = ground arith in
      let d : (eui64 af == eui64 af) ≡ true = (==_iff _ _).1 refl in
      rw h (rw (a, b, c, d) (refl, refl, omega arith))
  type_of_length-maxprefix n (inr (inr (inr h))) =
      let a : (af.inet6 == af.inet) ≡ false = ground (arith, af.inet_ne) in
      let b : (af.inet6 == af.inet6) ≡ true = (==_iff _ _).1 refl in
      rw h (rw (a, b) (refl, refl, af.inet6_some))

  -- Bytes of one of the four known lengths, read as an address without a type and with the full
  -- prefix, give an address whose prefix has all their bits; written back, it puts the same bytes
  -- at the start of a memory that has room for them.
  pub netaddr_to_binary-netaddr_from_binary_prefix :
      (dst : Netaddr) (bytes : List ℕ)
      → IsLength (length bytes)
      → (a : Netaddr) × (netaddr_from_binary_prefix af dst bytes (length bytes) 0 255
          ≡ done (a, pos 0))
        × (a.prefix_len ≡ 8 * length bytes)
        × ((mem : List ℕ)
            → length bytes ≤ length mem
            → netaddr_to_binary af mem a (length mem)
              ≡ done (bytes ++ drop (length bytes) mem, pos 0))
  unfolding netaddr_from_binary_prefix netaddr_to_binary netaddr_get_maxprefix
  netaddr_to_binary-netaddr_from_binary_prefix dst bytes h =
      let n : ℕ = length bytes in
      let (copied, bits, typed) = type_of_length-maxprefix n h in
      let small : n ≤ 16 = length-le n h in
      let full : u8 (n * 8) ≡ 8 * n = omega arith in
      let some_bytes : n ≢ 0 = length-ne n h in
      let known : ((type_of_length af n).0 == 0) ≡ false = ground (arith, typed) in
      (
        record {
          addr = bytes ++ drop n (replicate 16 0);
          addr_type = (type_of_length af n).0;
          prefix_len = u8 (n * 8);
        },
        rw (copied, load_all bytes, store-first (replicate 16 0) bytes small, known) refl,
        full,
        λ mem room.
            let back : n * 8 / 2 ^ 3 ≡ n = omega arith in
            let some_len : (n == 0) ≡ false = ground arith in
            let fits : ltb (length mem) n ≡ false = ground arith in
            rw bits (
              rw
                (
                  back,
                  some_len,
                  fits,
                  load-first bytes (drop n (replicate 16 0)) n refl,
                  store-first mem bytes room,
                )
                refl),
      )
