-- ===== src/Rfc5444/TlvWriter/RoundTrip.antt =====
-- The reader's view of a written TLV (src-api/rfc5444/rfc5444_tlv_writer.c and rfc5444_reader.c).
use oonf_api.Base.{
  ℕ, suc, ◌+◌, ◌-◌, ◌/◌, ◌^◌, ◌≤◌, ◌<◌, ◌≡◌, refl, sym, ap, ◌∙◌, ◌⊎◌, Bool, true, false, Bool-cases,
  inl, inr, not, ◌==◌, ltb, if◌then◌else◌, List, [], ◌∷◌, length, ◌++◌, arith, bit_and,
}
use oonf_api.Base.Exec.{done, ◌>>=◌}
use oonf_api.Base.Word.{u8, u16}
use oonf_api.Rfc5444.Reader.Tlv.{TlvEntry, cleared_entry, calc_intorder, parse_type, parse_tlv}
use oonf_api.Rfc5444.TlvWriter.Flags.{flag_bits, tlv_flags-flag_bits, bits_ext, bits_none, bits_len}
use oonf_api.Rfc5444.Reader.Cursor.From.{From, at, From-next}
use oonf_api.Rfc5444.TlvWriter.ReadBack.{
  parse_type-From, parse_type-From_ext, parse_length_long, parse_length_short, parse_length_none,
  finish, after_type, finished, length_bytes,
}
use oonf_api.Rfc5444.TlvWriter.{write_tlv, tlv_flags}

-- Behind the type of a written TLV the reader finds its value.
after_type-From :
    (buf rest : List ℕ) (eob count q : ℕ) (e : TlvEntry) (a : Bool) (value : List ℕ)
    → From buf q (length_bytes value ++ rest)
    → q + length (length_bytes value) ≤ eob
    → length value < 2 ^ 16
    → e.flags ≡ flag_bits a (ltb 255 (length value)) (ltb 0 (length value))
    → after_type buf eob count e (at q)
      ≡ done (
        finished count (length value) (q + length (length_bytes value) - length value) e,
        at (q + length (length_bytes value)),
      )
after_type-From buf rest eob count q e a value f fits small flags =
    by_length (Bool-cases (ltb 255 (length value))) (Bool-cases (ltb 0 (length value)))
  where
    n : ℕ
    n = length value

    Goal : List ℕ → Type 0
    Goal bytes =
        after_type buf eob count e (at q)
        ≡ done (finished count n (q + length bytes - n) e, at (q + length bytes))

    at_place :
        (p : ℕ) (bytes : List ℕ)
        → p + n ≡ q + length bytes
        → after_type buf eob count e (at q) ≡ done (finished count n p e, at (p + n))
        → Goal bytes
    at_place p bytes e1 h = let e2 : q + length bytes - n ≡ p = omega arith in rw (e2, sym e1) h

    by_length :
        (ltb 255 n ≡ true) ⊎ (ltb 255 n ≡ false)
        → (ltb 0 n ≡ true) ⊎ (ltb 0 n ≡ false)
        → Goal (length_bytes value)
    by_length (inl long) (inr empty) = absurd (ground arith)
    by_length (inl long) (inl given) =
        let g : From buf q (u8 (n / 2 ^ 8) ∷ bit_and n 255 ∷ (value ++ rest)) =
          rw (long, given) at f in
        let le : q + suc (suc n) ≤ eob = rw (long, given) at fits in
        let bits : e.flags ≡ flag_bits a true true = rw (long, given) at flags in
        rw (long, given)
          (at_place (q + 1 + 1) (u8 (n / 2 ^ 8) ∷ bit_and n 255 ∷ value) (omega arith) (
            finish buf eob count n q (q + 1 + 1) e a true true bits
              (λ e2 same.
                parse_length_long eob n e2 g (omega arith) small
                  (ap (λ k. bit_and k 0x18) (same ∙ bits) ∙ bits_len a true true))
              (omega arith)))
    by_length (inr short) (inl given) =
        let g : From buf q (bit_and n 255 ∷ (value ++ rest)) = rw (short, given) at f in
        let le : q + suc n ≤ eob = rw (short, given) at fits in
        let bits : e.flags ≡ flag_bits a false true = rw (short, given) at flags in
        rw (short, given)
          (at_place (q + 1) (bit_and n 255 ∷ value) (omega arith) (
            finish buf eob count n q (q + 1) e a false true bits
              (λ e2 same.
                parse_length_short eob n e2 g (omega arith) (ground arith)
                  (ap (λ k. bit_and k 0x18) (same ∙ bits) ∙ bits_len a false true))
              (omega arith)))
    by_length (inr short) (inr empty) =
        let z : n ≡ 0 = ground arith in
        let bits : e.flags ≡ flag_bits a false false = rw (short, empty) at flags in
        let le : q + 0 ≤ eob = rw (short, empty) at fits in
        rw (short, empty)
          (at_place q [] (omega arith) (
            finish buf eob count n q q e a false false bits
              (λ e2 same.
                parse_length_none buf eob e2
                  (ap (λ k. bit_and k 0x18) (same ∙ bits) ∙ bits_len a false false)
                ∙ ap (λ k. done (record e2 { length = k }, at q)) (sym z))
              (omega arith)))

-- The bytes of the type, and those behind it.
type_bytes : ℕ → ℕ → ℕ → List ℕ
type_bytes t x n = t ∷ tlv_flags x 0 255 n ∷ (if not (x == 0) then x ∷ [] else [])

write_tlv-type_bytes :
    (t x : ℕ) (value : List ℕ)
    → write_tlv t x 0 255 value ≡ type_bytes t x (length value) ++ length_bytes value
unfolding write_tlv type_bytes
write_tlv-type_bytes t x value = refl

-- What the reader knows of a TLV behind its type.
abbrev pub typed_entry : ℕ → ℕ → List ℕ → TlvEntry
typed_entry t x value = record cleared_entry {
  tlv_type = t;
  flags = tlv_flags x 0 255 (length value);
  type_ext = x;
  order = u16 (calc_intorder t x);
}

-- The entry that the reader makes of a TLV written at `p`.
abbrev pub read_entry : ℕ → ℕ → ℕ → ℕ → List ℕ → TlvEntry
read_entry count p t x value =
    finished count (length value) (p + length (write_tlv t x 0 255 value) - length value)
      (typed_entry t x value)

-- What the type leaves to be read.
abbrev BehindType : List ℕ → List ℕ → ℕ → ℕ → ℕ → ℕ → List ℕ → Type 0
BehindType buf rest eob p t x value =
    (q : ℕ) × From buf q (length_bytes value ++ rest)
    × (q + length (length_bytes value) ≡ p + length (write_tlv t x 0 255 value))
    × (parse_type buf eob cleared_entry (at p) ≡ done (typed_entry t x value, at q))

read_type :
    (buf rest : List ℕ) (eob p t x : ℕ) (value : List ℕ)
    → From buf p (write_tlv t x 0 255 value ++ rest)
    → p + length (write_tlv t x 0 255 value) ≤ eob
    → BehindType buf rest eob p t x value
unfolding type_bytes
read_type buf rest eob p t x value f fits = elim (Bool-cases (x == 0)) [
  | inl plain ↦
      let z : x ≡ 0 = ground arith in
      let bytes : write_tlv t x 0 255 value
          ≡ t ∷ tlv_flags x 0 255 (length value) ∷ length_bytes value =
        rw (write_tlv-type_bytes, plain) in
      let g : From buf p (t ∷ tlv_flags x 0 255 (length value) ∷ (length_bytes value ++ rest)) =
        rw bytes at f in
      let size : length (write_tlv t x 0 255 value) ≡ suc (suc (length (length_bytes value))) =
        ap length bytes in
      let flag : bit_and (tlv_flags x 0 255 (length value)) 0x80 ≡ 0 =
        rw tlv_flags-flag_bits
          (bits_none (ltb 0 x) (ltb 255 (length value)) (ltb 0 (length value)) (ground arith)) in
      (
        p + 1 + 1,
        From-next (From-next g),
        omega (arith, size),
        parse_type-From eob cleared_entry g (omega (arith, size)) flag
            ∙ ap (λ k. done (typed k, at (p + 1 + 1))) (sym z),
      )
  | inr ext ↦
      let bytes : write_tlv t x 0 255 value
          ≡ t ∷ tlv_flags x 0 255 (length value) ∷ x ∷ length_bytes value =
        rw (write_tlv-type_bytes, ext) in
      let g : From buf p (t ∷ tlv_flags x 0 255 (length value) ∷ x ∷ (length_bytes value ++ rest)) =
        rw bytes at f in
      let size : length (write_tlv t x 0 255 value)
          ≡ suc (suc (suc (length (length_bytes value)))) =
        ap length bytes in
      let given : ltb 0 x ≡ true = ground arith in
      let flag : (bit_and (tlv_flags x 0 255 (length value)) 0x80 == 0) ≡ false =
        rw (tlv_flags-flag_bits, given)
          (bits_ext true (ltb 255 (length value)) (ltb 0 (length value))) in
      (
        p + 1 + 1 + 1,
        From-next (From-next (From-next g)),
        omega (arith, size),
        parse_type-From_ext eob cleared_entry g (omega (arith, size)) flag,
      )
]
  where
    typed : ℕ → TlvEntry
    typed k = record cleared_entry {
      tlv_type = t;
      flags = tlv_flags x 0 255 (length value);
      type_ext = k;
      order = u16 (calc_intorder t k);
    }

-- A TLV that was written into a stream, with a value of less than 2 ^ 16 bytes, is read back:
-- the reader returns its type, extended type and length, a value that starts behind the header,
-- or none if there are no bytes, and stands behind the TLV.
pub parse_tlv-write_tlv :
    (buf rest : List ℕ) (eob p count t x : ℕ) (value : List ℕ)
    → From buf p (write_tlv t x 0 255 value ++ rest)
    → p + length (write_tlv t x 0 255 value) ≤ eob
    → length value < 2 ^ 16
    → parse_tlv buf eob cleared_entry p count
      ≡ done (read_entry count p t x value, at (p + length (write_tlv t x 0 255 value)))
unfolding parse_tlv
parse_tlv-write_tlv buf rest eob p count t x value f fits small =
    let (q, g, place, typed) = read_type buf rest eob p t x value f fits in
    ap (λ m. m >>= λ r. after_type buf eob count r.0 r.1) typed
    ∙ after_type-From buf rest eob count q (typed_entry t x value) (ltb 0 x) value g
        (omega (arith, place)) small (tlv_flags-flag_bits x (length value))
    ∙ ap
        (λ k. done (finished count (length value) (k - length value) (typed_entry t x value), at k))
        place
