-- ===== src/Rfc5444/TlvWriter/Room.antt =====
-- The room that a TLV writer keeps (src-api/rfc5444/rfc5444_tlv_writer.c).
use oonf_api.Base.{
  ℕ, ◌+◌, ◌-◌, ◌^◌, ◌≤◌, ◌<◌, ◌≡◌, refl, sym, ap, Bool-cases, inl, inr, not, ◌==◌, ltb, List,
  length, ◌++◌, take, drop, arith,
}
use oonf_api.Base.Exec.{Exec, done}
use oonf_api.Base.Word.{sub64}
use oonf_api.Common.Autobuf.Contents.{store_lem}
use oonf_api.Rfc5444.Result.{RfcResult, okay, mtu_too_small}
use oonf_api.Rfc5444.TlvWriter.Size.{length-write_tlv}
use oonf_api.Rfc5444.TlvWriter.{
  TlvWriterData, calc_tlv_size, write_tlv, tlv_writer_add, tlv_writer_allocate, tlv_writer_set,
}

-- The counted bytes fit into the maximum, and this into the buffer.
pub record IsTlvWriter (d : TlvWriterData) : Type 0 where
  pub room : d.header + d.added + d.allocated ≤ d.max
  pub fits : d.max ≤ length d.buffer
  pub set_le : d.set ≤ d.allocated
  pub small : length d.buffer < 2 ^ 64

-- A TLV is put behind the first `n` bytes, where the bytes behind it stay and `counted` is the
-- writer with the new buffer and its counters; or nothing happens because it needs more than `room`.
pub data Put (d : TlvWriterData) (n room : ℕ) (tlv : List ℕ) (counted : List ℕ → TlvWriterData)
    (r : Exec (TlvWriterData × RfcResult)) : Type 0 where
  no_room : r ≡ done (d, mtu_too_small) → room < length tlv → Put d n room tlv counted r
  put :
      (mem : List ℕ)
      → r ≡ done (counted mem, okay)
      → length tlv ≤ room
      → IsTlvWriter (counted mem)
      → take (n + length tlv) mem ≡ take n d.buffer ++ tlv
      → drop (n + length tlv) mem ≡ drop (n + length tlv) d.buffer
      → Put d n room tlv counted r

module _ (d : TlvWriterData) (h : IsTlvWriter d) where
  -- In a well-formed writer, a TLV is added behind the others exactly if there is room for it beside
  -- the allocated bytes: `added` grows by its size, the other counters and the bytes in front of it
  -- and behind it stay, and the writer stays well formed. Otherwise nothing changes.
  pub tlv_writer_add-Put :
      (tlv_type exttype : ℕ) (value : List ℕ)
      → Put d
          (d.header + d.added)
          (d.max - (d.header + d.added + d.allocated))
          (write_tlv tlv_type exttype 0 255 value)
          (λ mem. record d {
            buffer = mem;
            added = d.added + length (write_tlv tlv_type exttype 0 255 value);
          })
          (tlv_writer_add d tlv_type exttype value)
  unfolding tlv_writer_add
  tlv_writer_add-Put tlv_type exttype value =
      let tlv = write_tlv tlv_type exttype 0 255 value in
      let s = calc_tlv_size (not (exttype == 0)) (length value) in
      let size : length tlv ≡ s = length-write_tlv tlv_type exttype value in
      elim (Bool-cases (ltb d.max (d.header + d.added + d.allocated + s))) [
        | inl full ↦ no_room (rw full refl) (ground (arith, h.room))
        | inr enough ↦
            let le : d.header + d.added + d.allocated + s ≤ d.max = ground arith in
            let (mem, stored, m) =
              store_lem d.buffer (d.header + d.added) tlv (omega (arith, h.fits)) in
            put mem (rw (enough, stored, size) refl) (omega arith)
              (record {
                room = omega arith;
                fits = omega (arith, m.same_size, h.fits);
                set_le = h.set_le;
                small = omega (arith, m.same_size, h.small);
              })
              m.filled m.back
      ]

  -- In a well-formed writer, a TLV is set behind the ones set before exactly if enough of the
  -- allocated bytes are left: `set` grows by its size, the other counters and the bytes in front of
  -- it and behind it stay, and the writer stays well formed. Otherwise nothing changes.
  pub tlv_writer_set-Put :
      (tlv_type exttype : ℕ) (value : List ℕ)
      → Put d
          (d.header + d.added + d.set)
          (d.allocated - d.set)
          (write_tlv tlv_type exttype 0 255 value)
          (λ mem. record d {
            buffer = mem;
            set = d.set + length (write_tlv tlv_type exttype 0 255 value);
          })
          (tlv_writer_set d tlv_type exttype value)
  unfolding tlv_writer_set
  tlv_writer_set-Put tlv_type exttype value =
      let tlv = write_tlv tlv_type exttype 0 255 value in
      let s = calc_tlv_size (not (exttype == 0)) (length value) in
      let size : length tlv ≡ s = length-write_tlv tlv_type exttype value in
      let left : sub64 d.allocated d.set ≡ d.allocated - d.set =
        omega (arith, h.set_le, h.room, h.fits, h.small) in
      rw left (elim (Bool-cases (ltb (d.allocated - d.set) s)) [
        | inl full ↦ no_room (rw full refl) (ground arith)
        | inr enough ↦
            let le : s ≤ d.allocated - d.set = ground arith in
            let (mem, stored, m) =
              store_lem d.buffer (d.header + d.added + d.set) tlv
                (omega (arith, h.set_le, h.room, h.fits)) in
            put mem (rw (enough, stored, size) refl) (omega arith)
              (record {
                room = h.room;
                fits = omega (arith, m.same_size, h.fits);
                set_le = omega (arith, h.set_le);
                small = omega (arith, m.same_size, h.small);
              })
              m.filled m.back
      ])

-- Bytes that could be allocated for a TLV are there when it is set.
pub tlv_writer_set-allocate :
    (d : TlvWriterData) (tlv_type exttype : ℕ) (value : List ℕ) (d' : TlvWriterData)
    → IsTlvWriter d
    → tlv_writer_allocate d (not (exttype == 0)) (length value) ≡ (d', okay)
    → IsTlvWriter d'
      × (d'' : TlvWriterData) × (tlv_writer_set d' tlv_type exttype value ≡ done (d'', okay))
unfolding tlv_writer_allocate
tlv_writer_set-allocate d tlv_type exttype value d' h e =
    let s = calc_tlv_size (not (exttype == 0)) (length value) in
    elim (Bool-cases (ltb d.max (d.header + d.added + d.allocated + s))) [
      | inl full ↦ absurd (too_small (ap (λ r. r.1) (rw full at e)))
      | inr enough ↦
          let le : d.header + d.added + d.allocated + s ≤ d.max = ground arith in
          let same : record d { allocated = d.allocated + s } ≡ d' =
            ap (λ r. r.0) (rw enough at e) in
          let ok : IsTlvWriter (record d { allocated = d.allocated + s }) = record {
            room = omega arith;
            fits = h.fits;
            set_le = omega (arith, h.set_le);
            small = h.small;
          } in
          let (d'', set) =
            reserved (record d { allocated = d.allocated + s }) ok (omega (arith, h.set_le)) in
          rw (sym same) (ok, d'', set)
    ]
  where
    too_small : ¬ mtu_too_small ≡ okay
    too_small h = cc

    reserved :
        (d : TlvWriterData)
        → IsTlvWriter d
        → calc_tlv_size (not (exttype == 0)) (length value) ≤ d.allocated - d.set
        → (d'' : TlvWriterData) × (tlv_writer_set d tlv_type exttype value ≡ done (d'', okay))
    reserved d h le = elim (tlv_writer_set-Put d h tlv_type exttype value) [
      | no_room e lt ↦ absurd (omega (arith, length-write_tlv tlv_type exttype value))
      | put mem e room ok front back ↦ (_, e)
    ]
