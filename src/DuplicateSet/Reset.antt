-- ===== src/DuplicateSet/Reset.antt =====
-- A run of numbers that are too old resets an entry of the duplicate set
-- (src-api/subsystems/oonf_duplicate_set.c).
use oonf_api.Base.{
  ℕ, suc, ◌+◌, ◌≤◌, ◌<◌, ◌≡◌, ◌⊎◌, inl, inr, Bool, true, false, Bool-cases, List, [], ◌∷◌, length,
  ltb, ◌==◌, ap, ◌∙◌, arith,
}
use oonf_api.Base.Int.{negsuc, ◌<ℤ◌, ltb_ℤ}
use oonf_api.Base.Word.{u16}
use oonf_api.DuplicateSet.{too_old, newest, Entry, test_too_old, test_entry}
use oonf_api.Rfc5444.Seqno.{seqno_difference}

-- More than 31 behind the current number.
abbrev pub IsOld : Entry → ℕ → Type 0
IsOld e s = seqno_difference s e.current <ℤ negsuc 30

difference_self : (s : ℕ) → (seqno_difference s s <ℤ negsuc 30) → ⊥
unfolding seqno_difference
difference_self s h = ground arith

test_entry_old :
    (e : Entry) (s : ℕ) (add : Bool) → IsOld e s → test_entry e s add ≡ test_too_old e s
unfolding test_entry
test_entry_old e s add h = elim (Bool-cases (s == e.current)) [
  | inl eq ↦
      let same : s ≡ e.current = ground arith in absurd (difference_self s (rw (← same) at h))
  | inr off ↦
      let u : ltb_ℤ (seqno_difference s e.current) (negsuc 30) ≡ true = ground arith in rw (off, u)
]

-- Eight numbers that are too old are refused and counted; the next one starts the window anew,
-- with that number alone in its history, also where the entry is only to be tested.
pub test_entry-IsOld :
    (e : Entry) (s : ℕ) (add : Bool)
    → IsOld e s
    → e.too_old_count ≤ 8
    → ((e.too_old_count < 8)
        × (test_entry e s add ≡ (record e { too_old_count = e.too_old_count + 1 }, too_old)))
      ⊎ ((e.too_old_count ≡ 8)
          × (test_entry e s add
              ≡ (record e { history = 1; too_old_count = 0; current = s }, newest)))
unfolding test_too_old
test_entry-IsOld e s add h le = elim (Bool-cases (ltb e.too_old_count 8)) [
  | inl lt ↦
      let c : u16 (e.too_old_count + 1) ≡ e.too_old_count + 1 = omega arith in
      let t : ltb 8 (e.too_old_count + 1) ≡ false = ground arith in
      inl (ground arith, test_entry_old e s add h ∙ rw (c, t))
  | inr ge ↦
      let c : u16 (e.too_old_count + 1) ≡ e.too_old_count + 1 = omega arith in
      let t : ltb 8 (e.too_old_count + 1) ≡ true = ground arith in
      inr (ground arith, test_entry_old e s add h ∙ rw (c, t))
]

-- The entry after a sequence of numbers, each of them added.
unfoldable pub add_all : Entry → List ℕ → Entry
add_all e [] = e
add_all e (s ∷ ss) = add_all (test_entry e s true).0 ss

-- All numbers are old against the same entry.
abbrev pub AllOld : Entry → List ℕ → Type 0
AllOld e [] = Unit
AllOld e (s ∷ ss) = IsOld e s × AllOld e ss

AllOld-counted :
    (e : Entry) (n : ℕ) (ss : List ℕ) → AllOld e ss → AllOld (record e { too_old_count = n }) ss
AllOld-counted e n [] h = tt
AllOld-counted e n (s ∷ ss) (h, hs) = (h, AllOld-counted e n ss hs)

add_all-old :
    (ss : List ℕ) (e : Entry)
    → AllOld e ss
    → e.too_old_count + length ss ≤ 8
    → add_all e ss ≡ record e { too_old_count = e.too_old_count + length ss }
unfolding add_all
add_all-old [] e h le = let z : e.too_old_count + 0 ≡ e.too_old_count = omega arith in rw z
add_all-old (s ∷ ss) e (h, hs) le = elim (test_entry-IsOld e s true h (omega arith)) [
  | inl (lt, eq) ↦
      let n : e.too_old_count + 1 + length ss ≡ e.too_old_count + suc (length ss) = omega arith in
      rw eq (
        add_all-old ss (record e { too_old_count = e.too_old_count + 1 })
          (AllOld-counted e (e.too_old_count + 1) ss hs) (omega arith)
        ∙ ap (λ k. record e { too_old_count = k }) n)
  | inr (eight, eq) ↦ absurd (omega arith)
]

-- A number that is more than 31 behind the current one is old: eight of them leave an entry that has
-- counted none as it is but for its count, and a ninth one becomes the current number of a new
-- window.
pub add_all-reset :
    (e : Entry) (ss : List ℕ) (s : ℕ)
    → e.too_old_count ≡ 0
    → length ss ≡ 8
    → AllOld e ss
    → IsOld e s
    → (add_all e ss ≡ record e { too_old_count = 8 })
      × (test_entry (add_all e ss) s true
          ≡ (record e { history = 1; too_old_count = 0; current = s }, newest))
add_all-reset e ss s z n hs h =
    let eight : e.too_old_count + length ss ≡ 8 = omega arith in
    let after : add_all e ss ≡ record e { too_old_count = 8 } =
      add_all-old ss e hs (omega arith) ∙ ap (λ k. record e { too_old_count = k }) eight in
    (
      after,
      rw after (last (test_entry-IsOld (record e { too_old_count = 8 }) s true h (omega arith))),
    )
  where
    last :
        ((8 < 8)
            × (test_entry (record e { too_old_count = 8 }) s true
                ≡ (record e { too_old_count = 8 + 1 }, too_old)))
          ⊎ ((◌≡◌ {A = ℕ} 8 8)
              × (test_entry (record e { too_old_count = 8 }) s true
                  ≡ (record e { history = 1; too_old_count = 0; current = s }, newest)))
        → test_entry (record e { too_old_count = 8 }) s true
          ≡ (record e { history = 1; too_old_count = 0; current = s }, newest)
    last (inl (lt, eq)) = absurd (omega arith)
    last (inr (e8, eq)) = eq
