-- ===== src/Rfc5444/Reader/TlvBlock/Safe.antt =====
-- `_parse_tlvblock` (src-api/rfc5444/rfc5444_reader.c): where the pointer stands afterwards, and
-- what becomes of the entries.
use oonf_api.Base.{
  ℕ, suc, ◌+◌, ◌≤◌, ◌≡◌, ◌≢◌, refl, ◌∙◌, Bool-cases, inl, inr, ltb, List, [], length, max, arith,
}
use oonf_api.Base.Exec.{InBounds, Ends, Ends-bind, Ends-bind_safe}
use oonf_api.Rfc5444.Reader.Cursor.Bounds.{Took, get_u16-Ends}
use oonf_api.Rfc5444.Reader.Cursor.{Cursor, get_u16}
use oonf_api.Rfc5444.Reader.Tlv.{cleared_entry}
use oonf_api.Rfc5444.Reader.TlvBlock.Collect.{IsBlock, owned-free_tlvblock}
use oonf_api.Rfc5444.Reader.TlvBlock.{
  Block, free_tlvblock, tlv_loop, cleanup_tlvblock, parse_tlvblock,
}
use oonf_api.Rfc5444.Result.{okay, end_of_buffer, is_okay}
use oonf_api.Rfc5444.Reader.TlvBlock.Bounds.{Looped, tlv_loop-Ends, not_okay, is_okay-okay}

-- What a parsed TLV block tells: where the pointer stands, and what is in the tree.
pub record BlockParsed (eob total ptr : ℕ) (r : Block × Cursor) : Type 0 where
  pub at_end : r.1.ptr ≤ max ptr eob
  pub progress : r.1.result ≡ okay → (ptr + 2 ≤ r.1.ptr) × (r.1.ptr ≤ eob)
  pub failed : r.1.result ≢ okay → (r.1.ptr ≡ eob) × (r.0.tlvs ≡ [])
  pub kept : IsBlock eob total r.0

cleanup_tlvblock-BlockParsed :
    (eob total ptr : ℕ) (r : Block × Cursor)
    → (r.1.result ≡ okay → (ptr + 2 ≤ r.1.ptr) × (r.1.ptr ≤ eob))
    → IsBlock eob total r.0
    → BlockParsed eob total ptr (cleanup_tlvblock eob r)
unfolding cleanup_tlvblock
cleanup_tlvblock-BlockParsed eob total ptr r progress h = elim (Bool-cases (is_okay r.1.result)) [
  | inl good ↦ rw good (record {
    at_end = omega (arith, progress (is_okay-okay r.1.result good));
    progress = progress;
    failed = λ bad. absurd (bad (is_okay-okay r.1.result good));
    kept = h;
  })
  | inr bad ↦ rw bad (record {
    at_end = omega arith;
    progress = λ good. absurd (not_okay bad good);
    failed = λ _. (refl, unfold free_tlvblock in refl);
    kept = record {
      values = unfold free_tlvblock in tt;
      sorted = unfold free_tlvblock in tt;
      memory_kept = owned-free_tlvblock r.0 ∙ h.memory_kept;
    };
  })
]

-- Inside a buffer that holds the whole stream, a TLV block is read without leaving the stream; the
-- only fault is the division by zero of a TLV. Without an error the pointer has moved at least two
-- bytes on and is inside the stream. With an error it is at the end of the stream, and no entry is
-- left. Entries and free memory together stay the same, entries are sorted by their type, and all
-- values lie inside the stream.
pub parse_tlvblock-Ends :
    (buf : List ℕ) (eob addr_count total : ℕ) (b : Block) (ptr : ℕ)
    → eob ≤ length buf
    → IsBlock eob total b
    → Ends InBounds (BlockParsed eob total ptr) (parse_tlvblock buf eob addr_count b ptr)
unfolding parse_tlvblock
parse_tlvblock-Ends buf eob addr_count total b ptr fits h =
    let start : Cursor = record { ptr = ptr; result = okay } in
    Ends-bind_safe InBounds (λ q. Took 2 eob start q.1) (BlockParsed eob total ptr)
      (get_u16 buf eob start) _ (get_u16-Ends buf eob fits start)
      λ q t. elim (Bool-cases (ltb eob (q.1.ptr + q.0))) [
        | inl short ↦ rw short (
            cleanup_tlvblock-BlockParsed eob total ptr
              (b, record { ptr = q.1.ptr; result = end_of_buffer })
              (λ good. absurd (not_okay refl good)) h)
        | inr room ↦
            let within : q.1.ptr + q.0 ≤ eob = ground arith in
            rw room (
              Ends-bind InBounds (Looped eob (q.1.ptr + q.0) total q.1) (BlockParsed eob total ptr)
                (tlv_loop (suc q.0) buf eob (q.1.ptr + q.0) addr_count cleared_entry b q.1) _
                (tlv_loop-Ends buf eob (q.1.ptr + q.0) addr_count total fits (suc q.0) cleared_entry
                  b q.1 (omega arith) (omega arith) h)
                λ r l.
                  cleanup_tlvblock-BlockParsed eob total ptr r
                    (λ good. (started t l good, l.at_end)) l.kept)
      ]
  where
    started :
        {q : Cursor} {r : Block × Cursor} {end : ℕ}
        → Took 2 eob (record { ptr = ptr; result = okay }) q
        → Looped eob end total q r
        → r.1.result ≡ okay
        → ptr + 2 ≤ r.1.ptr
    started t l good = elim (l.progress good) [
      | inl fine ↦ omega (arith, (t.progress fine).1, l.forward)
      | inr two ↦ omega (arith, t.forward)
    ]
