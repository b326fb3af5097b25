-- ===== src/Rfc5444/Reader/Tlv/Bounds.antt =====
-- `_parse_tlv` (src-api/rfc5444/rfc5444_reader.c) stays inside its data stream, and each TLV takes
-- at least two bytes of it.
use oonf_api.Base.{
  ℕ, ◌+◌, ◌*◌, ◌/◌, ◌%◌, ◌≤◌, ◌≡◌, ◌≢◌, sym, some, inl, inr, Bool-cases, ltb, ◌==◌, List, length,
  arith, ap, ◌∙◌, if◌then◌else◌, bit_and,
}
use mathlib.Core.Bool.{false≢true}
use oonf_api.Base.Exec.{Exec, NoFault, InBounds, Ends, Ends-bind, ◌>>=◌}
use oonf_api.Base.Word.{u8, sub8}
use oonf_api.Rfc5444.Reader.Cursor.Bounds.{
  Took, Took-refl, Took-trans, Took-error, get_u8-Ends, get_u16-Ends,
}
use oonf_api.Rfc5444.Reader.Cursor.{Cursor, has_flag, get_u8, get_u16}
use oonf_api.Rfc5444.Reader.Tlv.{
  TlvEntry, parse_type, parse_index, parse_length, check_length, split_value,
}
use oonf_api.Rfc5444.Result.{
  okay, end_of_buffer, bad_tlv_idxflags, bad_tlv_valueflags, bad_tlv_length, is_okay,
  tlv_flag_typeext,
}

-- The cursor of a step's result, at least `n` bytes on.
abbrev pub Goes : ℕ → ℕ → Cursor → TlvEntry × Cursor → Type 0
Goes n eob c r = Took n eob c r.1

module _ (buf : List ℕ) (eob : ℕ) (fits : eob ≤ length buf) where
  -- One read, and the rest of the step.
  read_then :
      (n k : ℕ) (c0 c : Cursor) (f : ℕ × Cursor → Exec (TlvEntry × Cursor))
      → Took n eob c0 c
      → ((r : ℕ × Cursor) → Took (n + 1) eob c0 r.1 → Ends NoFault (Goes k eob c0) (f r))
      → Ends NoFault (Goes k eob c0) (get_u8 buf eob c >>= f)
  read_then n k c0 c f so_far rest =
      Ends-bind NoFault (λ r. Took 1 eob c r.1) (Goes k eob c0) (get_u8 buf eob c) f
        (get_u8-Ends buf eob fits c) (λ r t. rest r (Took-trans so_far t (omega arith)))

  pub parse_type-Ends :
      (e : TlvEntry) (c : Cursor) → Ends NoFault (Goes 2 eob c) (parse_type buf eob e c)
  unfolding parse_type
  parse_type-Ends e c = read_then 0 2 c c _ (Took-refl c) λ t one.
      read_then 1 2 c t.1 _ one λ f two. elim (Bool-cases (has_flag f.0 tlv_flag_typeext)) [
        | inl ext ↦
            rw ext
              (read_then 2 2 c f.1 _ two λ x three. Took-trans three (Took-refl _) (omega arith))
        | inr absent ↦ rw absent two
      ]

  pub parse_index-Ends :
      (n : ℕ) (e : TlvEntry) (c : Cursor) → Ends NoFault (Goes 0 eob c) (parse_index buf eob n e c)
  unfolding parse_index
  parse_index-Ends n e c = elim (Bool-cases (bit_and e.flags 0x60 == 0)) [
    | inl absent ↦ rw absent (Took-refl c)
    | inr given ↦ elim (Bool-cases (bit_and e.flags 0x60 == 0x40)) [
      | inl single ↦
          rw (given, single)
            (read_then 0 0 c c _ (Took-refl c) λ r t. Took-trans t (Took-refl _) (omega arith))
      | inr other ↦ elim (Bool-cases (bit_and e.flags 0x60 == 0x20)) [
        | inl multi ↦
            rw (given, other, multi)
              (read_then 0 0 c c _ (Took-refl c)
                λ r t. read_then 1 0 c r.1 _ t λ q u. Took-trans u (Took-refl _) (omega arith))
        | inr bad ↦ rw (given, other, bad) (Took-error c bad_tlv_idxflags (cc))
      ]
    ]
  ]

  pub parse_length-Ends :
      (e : TlvEntry) (c : Cursor) → Ends NoFault (Goes 0 eob c) (parse_length buf eob e c)
  unfolding parse_length
  parse_length-Ends e c = elim (Bool-cases (bit_and e.flags 0x18 == 0)) [
    | inl absent ↦ rw absent (Took-refl c)
    | inr given ↦ elim (Bool-cases (bit_and e.flags 0x18 == 0x10)) [
      | inl byte ↦
          rw (given, byte)
            (read_then 0 0 c c _ (Took-refl c) λ r t. Took-trans t (Took-refl _) (omega arith))
      | inr other ↦ elim (Bool-cases (bit_and e.flags 0x18 == 0x18)) [
        | inl word ↦
            rw (given, other, word)
              (Ends-bind NoFault (λ r. Took 2 eob c r.1) (Goes 0 eob c) (get_u16 buf eob c) _
                (get_u16-Ends buf eob fits c) (λ r t. Took-trans t (Took-refl _) (omega arith)))
        | inr bad ↦ rw (given, other, bad) (Took-error c bad_tlv_valueflags (cc))
      ]
    ]
  ]

-- After the check either an error stands, or the value lies inside the stream.
pub record Checked (eob : ℕ) (c : Cursor) (r : TlvEntry × Cursor) : Type 0 where
  pub took : Took 0 eob c r.1
  pub at_end : r.1.ptr ≤ eob
  pub room : r.1.result ≡ okay → r.1.ptr + r.0.length ≤ eob

pub check_length-Checked :
    (eob : ℕ) (e : TlvEntry) (c : Cursor) → c.ptr ≤ eob → Checked eob c (check_length eob e c)
unfolding check_length
check_length-Checked eob e c le = elim (Bool-cases (ltb eob (c.ptr + e.length))) [
  | inl long ↦ rw long (record {
    took = record { forward = le; bounded = omega arith; progress = λ h. absurd (end≢okay h) };
    at_end = omega arith;
    room = λ h. absurd (end≢okay h);
  })
  | inr fits ↦ elim (Bool-cases (is_okay c.result)) [
    | inl good ↦
        rw (fits, good)
          (record {
            took = record {
              forward = omega arith;
              bounded = omega arith;
              progress = λ h. (h, omega arith);
            };
            at_end = le;
            room = λ h. ground arith;
          })
    | inr bad ↦
        rw (fits, bad)
          (record {
            took = record {
              forward = le;
              bounded = omega arith;
              progress = λ h. absurd (false≢true (sym bad ∙ ap is_okay h));
            };
            at_end = omega arith;
            room = λ h. absurd (false≢true (sym bad ∙ ap is_okay h));
          })
  ]
]
  where
    end≢okay : end_of_buffer ≡ okay → ⊥
    end≢okay h = cc

-- The bytes that the value of an entry covers: one length, or one for each address.
abbrev pub extent : TlvEntry → ℕ
extent e = if e.multivalue then e.length * u8 (sub8 e.index2 e.index1 + 1) else e.length

-- What a parsed TLV tells: where the next one starts, and that its value lies inside the stream.
pub record Parsed (eob : ℕ) (c : Cursor) (r : TlvEntry × Cursor) : Type 0 where
  pub took : Took 2 eob c r.1
  pub at_end : r.1.ptr ≤ eob
  pub value_in : (v : ℕ) → r.1.result ≡ okay → r.0.value ≡ some v → v + extent r.0 ≤ eob

module _ {eob : ℕ} {c : Cursor} where
  -- A step that stops keeps what the check has shown.
  pub stopped :
      {r : TlvEntry × Cursor}
      → Took 2 eob c r.1
      → r.1.ptr ≤ eob
      → (r.1.result ≢ okay)
      → Parsed eob c r
  stopped t le bad = record { took = t; at_end = le; value_in = λ v good e. absurd (bad good) }

div-mul-le : (x y : ℕ) → x / y * y ≤ x
div-mul-le x y = grind arith

-- The value of `e` starts at `p` and ends at the cursor.
pub split_value-Ends :
    (eob p : ℕ) (e : TlvEntry) (start c : Cursor)
    → e.value ≡ some p
    → c.ptr ≡ p + e.length
    → c.ptr ≤ eob
    → Took 2 eob start c
    → Ends InBounds (Parsed eob start) (split_value e c (u8 (sub8 e.index2 e.index1 + 1)))
unfolding split_value
split_value-Ends eob p e start c ev ep le t = elim (Bool-cases e.multivalue) [
  | inr single ↦
      rw single (record { took = t; at_end = le; value_in = λ v good e'. ground (arith, single) })
  | inl multi ↦ elim (Bool-cases (u8 (sub8 e.index2 e.index1 + 1) == 0)) [
    | inl zero_count ↦ rw (multi, zero_count) tt
    | inr counted ↦ elim (Bool-cases (e.length % u8 (sub8 e.index2 e.index1 + 1) == 0)) [
      | inr uneven ↦
          rw (multi, counted, uneven)
            (record {
              took = record {
                forward = t.forward;
                bounded = t.bounded;
                progress = λ h. absurd (bad_length≢okay h);
              };
              at_end = le;
              value_in = λ v good e'. absurd (bad_length≢okay good);
            })
      | inl even ↦
          rw (multi, counted, even)
            (record {
              took = t;
              at_end = le;
              value_in = λ v good e'.
                  ground (arith, multi, div-mul-le e.length (u8 (sub8 e.index2 e.index1 + 1)));
            })
    ]
  ]
]
  where
    bad_length≢okay : bad_tlv_length ≡ okay → ⊥
    bad_length≢okay h = cc
