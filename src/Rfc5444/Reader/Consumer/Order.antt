-- ===== src/Rfc5444/Reader/Consumer/Order.antt =====
-- The order of a consumer's entries behind `_add_consumer` (src-api/rfc5444/rfc5444_reader.c).
use oonf_api.Base.{
  ℕ, ◌+◌, ◌≤◌, ◌≡◌, refl, Bool, Bool-cases, inl, inr, leb, List, [], ◌∷◌, map, arith, if◌then◌else◌,
}
use oonf_api.Rfc5444.Reader.Consumer.{
  ConsumerEntry, calc_tlvconsumer_intorder, insert_reverse, fix_length, sort_entries,
  reverse_entries,
}

-- All entries are at most, or at least, of an order.
abbrev AreAtMost : ℕ → List ConsumerEntry → Type 0
AreAtMost n [] = Unit
AreAtMost n (e ∷ l) = (calc_tlvconsumer_intorder e ≤ n) × AreAtMost n l

abbrev pub AreAtLeast : ℕ → List ConsumerEntry → Type 0
AreAtLeast n [] = Unit
AreAtLeast n (e ∷ l) = (n ≤ calc_tlvconsumer_intorder e) × AreAtLeast n l

abbrev AreDown : List ConsumerEntry → Type 0
AreDown [] = Unit
AreDown (e ∷ l) = AreAtMost (calc_tlvconsumer_intorder e) l × AreDown l

abbrev pub AreUp : List ConsumerEntry → Type 0
AreUp [] = Unit
AreUp (e ∷ l) = AreAtLeast (calc_tlvconsumer_intorder e) l × AreUp l

-- How many entries pass a test.
abbrev pub count_if : (ConsumerEntry → Bool) → List ConsumerEntry → ℕ
count_if p [] = 0
count_if p (e ∷ l) = (if p e then 1 else 0) + count_if p l

AreAtMost-le : (m n : ℕ) (l : List ConsumerEntry) → m ≤ n → AreAtMost m l → AreAtMost n l
AreAtMost-le m n [] le h = tt
AreAtMost-le m n (e ∷ l) le h = (omega (arith, h.0), AreAtMost-le m n l le h.1)

AreAtLeast-ge : (m n : ℕ) (l : List ConsumerEntry) → n ≤ m → AreAtLeast m l → AreAtLeast n l
AreAtLeast-ge m n [] le h = tt
AreAtLeast-ge m n (e ∷ l) le h = (omega (arith, h.0), AreAtLeast-ge m n l le h.1)

insert_reverse-AreAtMost :
    (n : ℕ) (l : List ConsumerEntry) (new : ConsumerEntry)
    → calc_tlvconsumer_intorder new ≤ n
    → AreAtMost n l
    → AreAtMost n (insert_reverse l new)
unfolding insert_reverse
insert_reverse-AreAtMost n [] new le h = (le, tt)
insert_reverse-AreAtMost n (e ∷ l) new le h =
    elim (Bool-cases (leb (calc_tlvconsumer_intorder e) (calc_tlvconsumer_intorder new))) [
      | inl q ↦ rw q (le, h)
      | inr q ↦ rw q (h.0, insert_reverse-AreAtMost n l new le h.1)
    ]

insert_reverse-AreDown :
    (l : List ConsumerEntry) (new : ConsumerEntry) → AreDown l → AreDown (insert_reverse l new)
unfolding insert_reverse
insert_reverse-AreDown [] new h = (tt, tt)
insert_reverse-AreDown (e ∷ l) new h =
    elim (Bool-cases (leb (calc_tlvconsumer_intorder e) (calc_tlvconsumer_intorder new))) [
      | inl q ↦
          let le : calc_tlvconsumer_intorder e ≤ calc_tlvconsumer_intorder new = ground arith in
          rw q (
            (
              le,
              AreAtMost-le (calc_tlvconsumer_intorder e) (calc_tlvconsumer_intorder new) l le h.0,
            ),
            h,
          )
      | inr q ↦
          let le : calc_tlvconsumer_intorder new ≤ calc_tlvconsumer_intorder e = ground arith in
          rw q (
            insert_reverse-AreAtMost (calc_tlvconsumer_intorder e) l new le h.0,
            insert_reverse-AreDown l new h.1,
          )
    ]

count_if-insert_reverse :
    (p : ConsumerEntry → Bool) (l : List ConsumerEntry) (new : ConsumerEntry)
    → count_if p (insert_reverse l new) ≡ count_if p (new ∷ l)
unfolding insert_reverse
count_if-insert_reverse p [] new = refl
count_if-insert_reverse p (e ∷ l) new =
    elim (Bool-cases (leb (calc_tlvconsumer_intorder e) (calc_tlvconsumer_intorder new))) [
      | inl q ↦ rw q refl
      | inr q ↦ rw q (omega (arith, count_if-insert_reverse p l new))
    ]

sort_entries-AreDown :
    (l entries : List ConsumerEntry) → AreDown l → AreDown (sort_entries l entries)
unfolding sort_entries
sort_entries-AreDown l [] h = h
sort_entries-AreDown l (e ∷ entries) h =
    sort_entries-AreDown (insert_reverse l (fix_length e)) entries
      (insert_reverse-AreDown l (fix_length e) h)

count_if-sort_entries :
    (p : ConsumerEntry → Bool) (l entries : List ConsumerEntry)
    → count_if p (sort_entries l entries) ≡ count_if p l + count_if p (map fix_length entries)
unfolding sort_entries
count_if-sort_entries p l [] = omega arith
count_if-sort_entries p l (e ∷ entries) = omega (
  arith,
  count_if-sort_entries p (insert_reverse l (fix_length e)) entries,
  count_if-insert_reverse p l (fix_length e),
)

-- Each entry of one list is at most each of the other.
abbrev IsAbove : List ConsumerEntry → List ConsumerEntry → Type 0
IsAbove acc [] = Unit
IsAbove acc (e ∷ l) = AreAtLeast (calc_tlvconsumer_intorder e) acc × IsAbove acc l

IsAbove-cons :
    (acc : List ConsumerEntry) (e : ConsumerEntry) (l : List ConsumerEntry)
    → IsAbove acc l
    → AreAtMost (calc_tlvconsumer_intorder e) l
    → IsAbove (e ∷ acc) l
IsAbove-cons acc e [] h k = tt
IsAbove-cons acc e (x ∷ l) h k = ((k.0, h.0), IsAbove-cons acc e l h.1 k.1)

IsAbove-nil : (l : List ConsumerEntry) → IsAbove [] l
IsAbove-nil [] = tt
IsAbove-nil (e ∷ l) = (tt, IsAbove-nil l)

reverse_entries-AreUp :
    (acc l : List ConsumerEntry)
    → AreUp acc
    → AreDown l
    → IsAbove acc l
    → AreUp (reverse_entries acc l)
unfolding reverse_entries
reverse_entries-AreUp acc [] up down above = up
reverse_entries-AreUp acc (e ∷ l) up down above =
    reverse_entries-AreUp (e ∷ acc) l (above.0, up) down.1 (IsAbove-cons acc e l above.1 down.0)

count_if-reverse_entries :
    (p : ConsumerEntry → Bool) (acc l : List ConsumerEntry)
    → count_if p (reverse_entries acc l) ≡ count_if p acc + count_if p l
unfolding reverse_entries
count_if-reverse_entries p acc [] = omega arith
count_if-reverse_entries p acc (e ∷ l) = omega (arith, count_if-reverse_entries p (e ∷ acc) l)

-- The list that a consumer gets when it is added is in ascending order of the types with their
-- extensions, and consists of the given entries, each with its maximum length raised to its minimum
-- length: as many of them pass any test.
pub sort_entries-AreUp :
    (entries : List ConsumerEntry)
    → AreUp (reverse_entries [] (sort_entries [] entries))
      × ((p : ConsumerEntry → Bool)
          → count_if p (reverse_entries [] (sort_entries [] entries))
            ≡ count_if p (map fix_length entries))
sort_entries-AreUp entries =
    let sorted = sort_entries [] entries in
    (
      reverse_entries-AreUp [] sorted tt (sort_entries-AreDown [] entries tt) (IsAbove-nil sorted),
      λ p. omega (arith, count_if-reverse_entries p [] sorted, count_if-sort_entries p [] entries),
    )
