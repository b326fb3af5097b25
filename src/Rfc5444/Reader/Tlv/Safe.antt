-- ===== src/Rfc5444/Reader/Tlv/Safe.antt =====
-- `_parse_tlv` (src-api/rfc5444/rfc5444_reader.c) as a whole: where it ends, and the one fault
-- that it can run into.
use mathlib.Core.Bool.{false≢true}
use oonf_api.Base.{
  ℕ, ◌+◌, ◌≤◌, ◌≡◌, refl, sym, some, none, inl, inr, true, false, Bool-cases, ◌==◌, List, length,
  arith, ap, ◌∙◌, if◌then◌else◌,
}
use oonf_api.Base.Exec.{InBounds, Ends, Ends-bind_safe}
use oonf_api.Base.Word.{u8, sub8}
use oonf_api.Rfc5444.Reader.Cursor.Bounds.{Took, Took-trans}
use oonf_api.Rfc5444.Reader.Cursor.{Cursor}
use oonf_api.Rfc5444.Reader.Tlv.Bounds.{
  Goes, parse_type-Ends, parse_index-Ends, parse_length-Ends, check_length-Checked, Parsed,
  split_value-Ends,
}
use oonf_api.Rfc5444.Reader.Tlv.{
  TlvEntry, parse_type, parse_index, parse_length, check_length, parse_value, parse_tlv,
}
use oonf_api.Rfc5444.Result.{RfcResult, okay, is_okay}

is_okay-okay : (r : RfcResult) → is_okay r ≡ true → r ≡ okay
is_okay-okay okay h = refl
is_okay-okay _ h = absurd (false≢true h)

parse_value-Ends :
    (eob : ℕ) (e : TlvEntry) (start c : Cursor)
    → Took 2 eob start c
    → c.ptr ≤ eob
    → (c.result ≡ okay → c.ptr + e.length ≤ eob)
    → Ends InBounds (Parsed eob start) (parse_value e c)
unfolding parse_value
parse_value-Ends eob e start c t le room = elim (Bool-cases (is_okay c.result)) [
  | inr bad ↦ rw bad (record {
    took = t;
    at_end = le;
    value_in = λ v good e'. absurd (false≢true (sym bad ∙ ap is_okay good));
  })
  | inl good ↦
      let fits = room (is_okay-okay c.result good) in
      elim (Bool-cases (e.length == 0)) [
        | inl empty ↦
            rw (good, empty)
              (record { took = t; at_end = le; value_in = λ v g e'. absurd (none≢some v e') })
        | inr filled ↦
            let count = u8 (sub8 e.index2 e.index1 + 1) in
            let e' : TlvEntry = record e {
              value = some c.ptr;
              multivalue = (if count == 1 then false else e.multivalue);
            } in
            let further : Took 2 eob start (record c { ptr = c.ptr + e.length }) = record {
              forward = omega (arith, t.forward);
              bounded = omega (arith, t.bounded);
              progress = λ h. let past = t.progress h in (past.0, omega (arith, past.1));
            } in
            rw (good, filled)
              (split_value-Ends eob c.ptr e' start (record c { ptr = c.ptr + e.length }) refl refl
                fits further)
      ]
]
  where
    none≢some : (v : ℕ) → none ≡ some v → ⊥
    none≢some v h = cc

pub parse_tlv-Ends :
    (buf : List ℕ) (eob : ℕ) (entry : TlvEntry) (ptr addr_count : ℕ)
    → eob ≤ length buf
    → ptr ≤ eob
    → Ends InBounds
        (Parsed eob (record { ptr = ptr; result = okay }))
        (parse_tlv buf eob entry ptr addr_count)
unfolding parse_tlv
parse_tlv-Ends buf eob entry ptr addr_count fits le =
    let start : Cursor = record { ptr = ptr; result = okay } in
    Ends-bind_safe InBounds (Goes 2 eob start) (Parsed eob start) (parse_type buf eob entry start) _
      (parse_type-Ends buf eob fits entry start)
      λ r t.
        Ends-bind_safe InBounds (Goes 0 eob r.1) (Parsed eob start)
          (parse_index buf eob addr_count r.0 r.1) _
          (parse_index-Ends buf eob fits addr_count r.0 r.1)
          λ q u.
            Ends-bind_safe InBounds (Goes 0 eob q.1) (Parsed eob start)
              (parse_length buf eob q.0 q.1) _ (parse_length-Ends buf eob fits q.0 q.1)
              λ p v.
                let two_steps : Took 2 eob start q.1 = Took-trans t u (omega arith) in
                let so_far : Took 2 eob start p.1 = Took-trans two_steps v (omega arith) in
                let check = check_length-Checked eob p.0 p.1 (omega (arith, so_far.bounded)) in
                parse_value-Ends eob (check_length eob p.0 p.1).0 start (check_length eob p.0 p.1).1
                  (Took-trans so_far check.took (omega arith)) check.at_end check.room
