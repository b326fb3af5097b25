-- ===== src/Common/Netaddr/Subnet.antt =====
-- What it means that an address lies in a prefix (src-api/common/netaddr.c): the bits of the
-- prefix are the first bits of the address.
use mathlib.Core.Bool.{false≢true}
use oonf_api.Base.Exec.{done}
use oonf_api.Base.{
  ℕ, zero, suc, ◌+◌, ◌-◌, ◌*◌, ◌/◌, ◌%◌, ◌^◌, ◌≤◌, ◌<◌, ◌≡◌, ◌≢◌, ◌↔◌, refl, sym, ◌∙◌, Bool, true,
  false, ◌&&◌, ◌==◌, leb, if◌then◌else◌, List, [], ◌∷◌, length, get_or, take, Bool-cases, inl, inr,
  ==_iff, le→leb, arith,
}
use oonf_api.Common.Netaddr.{
  Netaddr, same_bytes, byte_at, binary_is_in_subnet, netaddr_is_in_subnet,
}
use oonf_api.Common.Netaddr.SameBits.{SameBits, AreBytes, SameBits-first, SameBits-cons}

-- The comparison of `k` whole bytes and `b` bits.
verdict : ℕ → ℕ → List ℕ → List ℕ → Bool
verdict k b xs ys =
    same_bytes (take k xs) (take k ys)
    && (if b == 0 then true else get_or xs k 0 / 2 ^ (8 - b) == get_or ys k 0 / 2 ^ (8 - b))

verdict_iff :
    (k b : ℕ) (xs ys : List ℕ)
    → AreBytes xs
    → AreBytes ys
    → 8 * k + b ≤ 8 * length xs
    → 8 * k + b ≤ 8 * length ys
    → b < 8
    → (verdict k b xs ys ≡ true) ↔ SameBits (8 * k + b) xs ys
unfolding verdict same_bytes
verdict_iff zero b xs ys hx hy lx ly hb = by_bits b xs ys hx hy lx ly hb
  where
    by_bits :
        (b : ℕ) (xs ys : List ℕ)
        → AreBytes xs
        → AreBytes ys
        → 8 * 0 + b ≤ 8 * length xs
        → 8 * 0 + b ≤ 8 * length ys
        → b < 8
        → ((if b == 0 then true else get_or xs 0 0 / 2 ^ (8 - b) == get_or ys 0 0 / 2 ^ (8 - b))
            ≡ true)
          ↔ SameBits (8 * 0 + b) xs ys
    by_bits zero xs ys hx hy lx ly hb = (λ e i lt. absurd (omega arith), λ h. refl)
    by_bits (suc b) [] ys hx hy lx ly hb = absurd (omega arith)
    by_bits (suc b) (x ∷ xs) [] hx hy lx ly hb = absurd (omega arith)
    by_bits (suc b) (x ∷ xs) (y ∷ ys) hx hy lx ly hb =
        let given : (suc b == 0) ≡ false = ground arith in
        let total : 8 * 0 + suc b ≡ suc b = omega arith in
        let first = SameBits-first x y (suc b) xs ys hx.0 hy.0 (omega arith) in
        rw (given, total) (λ e. first.0 ((==_iff _ _).0 e), λ h. (==_iff _ _).1 (first.1 h))
verdict_iff (suc k) b [] ys hx hy lx ly hb = absurd (omega arith)
verdict_iff (suc k) b (x ∷ xs) [] hx hy lx ly hb = absurd (omega arith)
verdict_iff (suc k) b (x ∷ xs) (y ∷ ys) hx hy lx ly hb =
    let rest = verdict_iff k b xs ys hx.1 hy.1 (omega arith) (omega arith) hb in
    let both = SameBits-cons x y (8 * k + b) xs ys hx.0 hy.0 in
    let total : 8 * suc k + b ≡ 8 + (8 * k + b) = omega arith in
    rw total (
      λ e. both.0 (ground arith, rest.0 (ground arith)),
      λ h.
          let same : (x == y) ≡ true = (==_iff x y).1 (both.1 h).0 in
          rw (same, rest.1 (both.1 h).1) refl,
    )

pub byte_at-lt : (mem : List ℕ) (i : ℕ) → i < length mem → byte_at mem i ≡ done (get_or mem i 0)
unfolding byte_at
byte_at-lt [] i h = elim h [ ]
byte_at-lt (x ∷ xs) zero h = refl
byte_at-lt (x ∷ xs) (suc i) h = byte_at-lt xs i (omega arith)

-- An address and a prefix of 16 bytes each.
pub record IsNetaddr (a : Netaddr) : Type 0 where
  pub bytes : AreBytes a.addr
  pub size : length a.addr ≡ 16
  pub prefix_le : a.prefix_len ≤ 128

runs :
    (s : Netaddr) (bin : List ℕ)
    → IsNetaddr s
    → length bin ≡ 16
    → binary_is_in_subnet s bin ≡ done (verdict (s.prefix_len / 8) (s.prefix_len % 8) s.addr bin)
unfolding binary_is_in_subnet verdict
runs s bin h size =
    let k : ℕ = s.prefix_len / 8 in
    let mine : leb (0 + s.prefix_len / 8) (length s.addr) ≡ true =
      le→leb _ _ (omega (arith, h.size, h.prefix_le)) in
    let theirs : leb (0 + s.prefix_len / 8) (length bin) ≡ true =
      le→leb _ _ (omega (arith, size, h.prefix_le)) in
    rw (mine, theirs)
      (elim (Bool-cases (same_bytes (take k s.addr) (take k bin))) [
        | inr differ ↦ rw differ refl
        | inl same ↦ rw same (elim (Bool-cases (s.prefix_len % 8 == 0)) [
          | inl whole ↦ rw whole refl
          | inr part ↦
              rw
                (
                  part,
                  byte_at-lt s.addr k (within s.addr part h.size),
                  byte_at-lt bin k (within bin part size),
                )
                refl
        ])
      ])
  where
    within :
        (xs : List ℕ)
        → (s.prefix_len % 8 == 0) ≡ false
        → length xs ≡ 16
        → s.prefix_len / 8 < length xs
    within xs part e =
        let some_bits : s.prefix_len % 8 ≢ 0 = ground arith in
        omega (arith, e, h.prefix_le, some_bits)

-- A prefix of at most 128 bits is compared with an address without leaving either: an address of
-- another family is not in it, and one of the same family is exactly if its first bits, as many as
-- the prefix is long, are those of the prefix.
pub netaddr_is_in_subnet-SameBits :
    (subnet a : Netaddr)
    → IsNetaddr subnet
    → AreBytes a.addr
    → length a.addr ≡ 16
    → (r : Bool) × (netaddr_is_in_subnet subnet a ≡ done r)
      × ((r ≡ true)
          ↔ ((subnet.addr_type ≡ a.addr_type) × SameBits subnet.prefix_len subnet.addr a.addr))
unfolding netaddr_is_in_subnet
netaddr_is_in_subnet-SameBits subnet a h bytes size =
    elim (Bool-cases (subnet.addr_type == a.addr_type)) [
      | inr differ ↦ (
        false,
        rw differ refl,
        (λ e. absurd (false≢true e), λ q. absurd (ne_of_false differ q.0)),
      )
      | inl same ↦
          let p : ℕ = subnet.prefix_len in
          let total : 8 * (p / 8) + p % 8 ≡ p = omega arith in
          let spec =
            verdict_iff (p / 8) (p % 8) subnet.addr a.addr h.bytes bytes
              (omega (arith, h.size, h.prefix_le)) (omega (arith, size, h.prefix_le))
              (omega arith) in
          (
            verdict (p / 8) (p % 8) subnet.addr a.addr,
            rw same (runs subnet a.addr h size),
            (λ e. ((==_iff _ _).0 same, rw total at (spec.0 e)), λ q. spec.1 (rw total q.1)),
          )
    ]
  where
    ne_of_false : {x y : ℕ} → (x == y) ≡ false → x ≢ y
    ne_of_false e q = absurd (false≢true (sym e ∙ (==_iff _ _).1 q))
