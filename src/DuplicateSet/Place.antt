-- ===== src/DuplicateSet/Place.antt =====
-- Where a sequence number stands to the current one of an entry, and which part of `_test`
-- (src-api/subsystems/oonf_duplicate_set.c) treats it there.
use oonf_api.Base.{
  ℕ, ◌+◌, ◌-◌, ◌%◌, ◌^◌, ◌≤◌, ◌<◌, ◌≡◌, ◌≢◌, ◌⊎◌, inl, inr, Bool, true, false, Bool-cases, ltb,
  ◌==◌, arith,
}
use oonf_api.Base.Int.{pos, negsuc, pos_part, neg_part, ltb_ℤ}
use oonf_api.DuplicateSet.{
  current_number, Entry, test_too_old, test_history, test_ahead, test_entry,
}
use oonf_api.Rfc5444.Seqno.{seqno_difference}

-- How far a number lies behind the current one, modulo 2 ^ 16.
abbrev pub back_of : Entry → ℕ → ℕ
back_of e s = (e.current + 2 ^ 16 - s) % 2 ^ 16

-- The distance is the way back, or the way ahead, whichever is shorter.
difference_ways :
    (s c : ℕ)
    → s < 2 ^ 16
    → c < 2 ^ 16
    → s ≢ c
    → ((pos_part (seqno_difference s c) ≡ 0)
        × (neg_part (seqno_difference s c) ≡ (c + 2 ^ 16 - s) % 2 ^ 16)
        × (neg_part (seqno_difference s c) ≤ 2 ^ 15))
      ⊎ ((neg_part (seqno_difference s c) ≡ 0)
          × (pos_part (seqno_difference s c) ≡ (s + 2 ^ 16 - c) % 2 ^ 16)
          × (pos_part (seqno_difference s c) ≤ 2 ^ 15))
unfolding seqno_difference
difference_ways s c hs hc ne = ground arith

-- The fields of an entry whose count of old numbers is reset.
abbrev pub counted : Entry → Entry
counted e = record e { too_old_count = 0 }

-- The four parts of `_test`, with the numbers that come to each.
pub data Place (e : Entry) (s : ℕ) : Type 0 where
  same : s ≡ e.current → ((add : Bool) → test_entry e s add ≡ (e, current_number)) → Place e s
  far :
      s ≢ e.current
      → 32 ≤ back_of e s
      → back_of e s ≤ 2 ^ 15
      → ((add : Bool) → test_entry e s add ≡ test_too_old e s)
      → Place e s
  behind :
      (back : ℕ)
      → back ≡ back_of e s
      → 1 ≤ back
      → back < 32
      → ((add : Bool) → test_entry e s add ≡ test_history (counted e) back add)
      → Place e s
  ahead :
      (diff : ℕ)
      → diff ≡ (s + 2 ^ 16 - e.current) % 2 ^ 16
      → 1 ≤ diff
      → diff ≤ 2 ^ 15
      → ((add : Bool) → test_entry e s add ≡ test_ahead (counted e) s diff add)
      → Place e s

module _ (e : Entry) (s : ℕ) (ne : s ≢ e.current) (add : Bool) where
  test_entry_far :
      31 < neg_part (seqno_difference s e.current)
      → pos_part (seqno_difference s e.current) ≡ 0
      → test_entry e s add ≡ test_too_old e s
  unfolding test_entry
  test_entry_far lt z =
      let t : (s == e.current) ≡ false = ground arith in
      let u : ltb_ℤ (seqno_difference s e.current) (negsuc 30) ≡ true = ground arith in rw (t, u)

  test_entry_behind :
      neg_part (seqno_difference s e.current) ≤ 31
      → pos_part (seqno_difference s e.current) ≡ 0
      → test_entry e s add ≡ test_history (counted e) (neg_part (seqno_difference s e.current)) add
  unfolding test_entry
  test_entry_behind le z =
      let t : (s == e.current) ≡ false = ground arith in
      let u : ltb_ℤ (seqno_difference s e.current) (negsuc 30) ≡ false = ground arith in
      let v : ltb_ℤ (pos 0) (seqno_difference s e.current) ≡ false = ground arith in rw (t, u, v)

  test_entry_ahead :
      0 < pos_part (seqno_difference s e.current)
      → neg_part (seqno_difference s e.current) ≡ 0
      → test_entry e s add ≡ test_ahead (counted e) s (pos_part (seqno_difference s e.current)) add
  unfolding test_entry
  test_entry_ahead lt z =
      let t : (s == e.current) ≡ false = ground arith in
      let u : ltb_ℤ (seqno_difference s e.current) (negsuc 30) ≡ false = ground arith in
      let v : ltb_ℤ (pos 0) (seqno_difference s e.current) ≡ true = ground arith in rw (t, u, v)

test_entry_same :
    (e : Entry) (s : ℕ) → s ≡ e.current → (add : Bool) → test_entry e s add ≡ (e, current_number)
unfolding test_entry
test_entry_same e s h add = let t : (s == e.current) ≡ true = ground arith in rw t

-- Every number stands in one of the four places.
pub place : (e : Entry) (s : ℕ) → s < 2 ^ 16 → e.current < 2 ^ 16 → Place e s
place e s hs hc = elim (Bool-cases (s == e.current)) [
  | inl eq ↦ let h : s ≡ e.current = ground arith in same h (test_entry_same e s h)
  | inr off ↦
      let ne : s ≢ e.current = ground arith in
      elim (difference_ways s e.current hs hc ne) [
        | inl (z, n, le) ↦ elim (Bool-cases (ltb 31 (neg_part (seqno_difference s e.current)))) [
          | inl lt ↦
              let h : 31 < neg_part (seqno_difference s e.current) = ground arith in
              far ne (omega arith) (omega arith) (λ add. test_entry_far e s ne add h z)
          | inr ge ↦
              let h : neg_part (seqno_difference s e.current) ≤ 31 = ground arith in
              behind (neg_part (seqno_difference s e.current)) n (omega arith) (omega arith)
                (λ add. test_entry_behind e s ne add h z)
        ]
        | inr (z, p, le) ↦
            let h : 0 < pos_part (seqno_difference s e.current) = omega arith in
            ahead (pos_part (seqno_difference s e.current)) p h le
              (λ add. test_entry_ahead e s ne add h z)
      ]
]
