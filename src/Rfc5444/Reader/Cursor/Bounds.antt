-- ===== src/Rfc5444/Reader/Cursor/Bounds.antt =====
-- Reads from a data stream stay inside of it and move forward
-- (src-api/rfc5444/rfc5444_reader.c).
use oonf_api.Base.{
  ℕ, ◌+◌, ◌≤◌, ◌<◌, ◌≡◌, ◌≢◌, refl, inl, inr, true, false, Bool-cases, leb, leb→le, le→leb, sym,
  List, max, length, get_elem?, get_elem?-lt, some, arith, ap, ◌∙◌,
}
use mathlib.Core.Bool.{false≢true}
use oonf_api.Base.Exec.{done, NoFault, Ends, Ends-bind}
use oonf_api.Rfc5444.Reader.Cursor.{Cursor, read, get_u8, get_u16}
use oonf_api.Rfc5444.Result.{RfcResult, okay, end_of_buffer, is_okay}

-- From one cursor to a later one, at least `n` bytes on if no error has happened.
pub record Took (n eob : ℕ) (c c' : Cursor) : Type 0 where
  pub forward : c.ptr ≤ c'.ptr
  pub bounded : c'.ptr ≤ max c.ptr eob
  pub progress : c'.result ≡ okay → (c.result ≡ okay) × (c.ptr + n ≤ c'.ptr)

module _ {eob : ℕ} where
  pub Took-refl : (c : Cursor) → Took 0 eob c c
  Took-refl c = record {
    forward = omega arith;
    bounded = omega arith;
    progress = λ h. (h, omega arith);
  }

  pub Took-trans :
      {m n k : ℕ} {a b c : Cursor} → Took m eob a b → Took n eob b c → k ≤ m + n → Took k eob a c
  Took-trans {m} {n} {k} {a} {b} {c} p q le = record {
    forward = omega (arith, p.forward, q.forward);
    bounded = omega (arith, p.bounded, q.bounded);
    progress = λ h.
        let second = q.progress h in
        let first = p.progress second.0 in (first.0, omega (arith, second.1, first.1));
  }

  -- An error that is noted stops the progress.
  pub Took-error : (c : Cursor) (r : RfcResult) → r ≢ okay → Took 0 eob c (record c { result = r })
  Took-error c r ne = record {
    forward = omega arith;
    bounded = omega arith;
    progress = λ h. absurd (ne h);
  }

pub read_lem : (buf : List ℕ) (p : ℕ) {x : ℕ} → get_elem? buf p ≡ some x → read buf p ≡ done x
unfolding read
read_lem buf p e = rw (e, read)

-- The three cases of a read.
module _ (buf : List ℕ) (eob : ℕ) (c : Cursor) where
  pub get_u8_error : is_okay c.result ≡ false → get_u8 buf eob c ≡ done (0, c)
  unfolding get_u8
  get_u8_error bad = rw bad

  pub get_u8_end :
      is_okay c.result ≡ true
      → eob ≤ c.ptr
      → get_u8 buf eob c ≡ done (0, record c { result = end_of_buffer })
  unfolding get_u8
  get_u8_end good le = rw (good, le→leb _ _ le)

  pub get_u8_byte :
      {x : ℕ}
      → is_okay c.result ≡ true
      → c.ptr < eob
      → get_elem? buf c.ptr ≡ some x
      → get_u8 buf eob c ≡ done (x, record c { ptr = c.ptr + 1 })
  unfolding get_u8
  get_u8_byte good lt e =
      let t : leb eob c.ptr ≡ false = ground arith in rw (good, t, read_lem buf c.ptr e)

is_okay-okay : (r : RfcResult) → is_okay r ≡ true → r ≡ okay
is_okay-okay okay h = refl
is_okay-okay _ h = absurd (false≢true h)

module _ (buf : List ℕ) (eob : ℕ) (fits : eob ≤ length buf) where
  -- A byte is read without a fault, and takes one byte.
  pub get_u8-Ends : (c : Cursor) → Ends NoFault (λ r. Took 1 eob c r.1) (get_u8 buf eob c)
  get_u8-Ends c = elim (Bool-cases (is_okay c.result)) [
    | inr bad ↦ rw (get_u8_error buf eob c bad) (record {
      forward = omega arith;
      bounded = omega arith;
      progress = λ h. absurd (false≢true (sym bad ∙ ap is_okay h));
    })
    | inl good ↦ elim (Bool-cases (leb eob c.ptr)) [
      | inl last ↦
          rw (get_u8_end buf eob c good (leb→le _ _ last))
            (record { forward = omega arith; bounded = omega arith; progress = λ h. cc })
      | inr more ↦
          let lt : c.ptr < eob = ground arith in
          let (x, e) = get_elem?-lt buf c.ptr (omega arith) in
          rw (get_u8_byte buf eob c good lt e) (record {
            forward = omega arith;
            bounded = omega arith;
            progress = λ h. (is_okay-okay c.result good, omega arith);
          })
    ]
  ]

  -- A word takes two.
  pub get_u16-Ends : (c : Cursor) → Ends NoFault (λ r. Took 2 eob c r.1) (get_u16 buf eob c)
  unfolding get_u16
  get_u16-Ends c =
      Ends-bind NoFault (λ r. Took 1 eob c r.1) (λ r. Took 2 eob c r.1) (get_u8 buf eob c) _
        (get_u8-Ends c)
        λ r first.
          Ends-bind NoFault (λ q. Took 1 eob r.1 q.1) (λ q. Took 2 eob c q.1) (get_u8 buf eob r.1) _
            (get_u8-Ends r.1) λ q second. Took-trans first second (omega arith)
