-- ===== src/Rfc5444/Reader/Verdict.antt =====
-- The results of the parsers in src-api/rfc5444/rfc5444_reader.c are errors or RFC5444_OKAY, never one
-- of the RFC5444_DROP_ constants that callbacks return.
pub mod Addresses
use oonf_api.Base.Exec.{
  Exec, done, fault, div_by_zero, out_of_bounds, AnyFault, Ends, Ends-bind, Ends-map, after, either,
  ◌>>=◌,
}
use oonf_api.Base.{
  ℕ, zero, suc, ◌+◌, ◌-◌, ◌*◌, ◌%◌, ◌/◌, ◌≡◌, refl, Bool, true, false, Bool-cases, inl, inr, not,
  ltb, ◌==◌, if◌then◌else◌, bit_and, bit_or, leb, List, length, Option, none, some, replicate,
}
use oonf_api.Base.Word.{u8, sub8}
use oonf_api.Rfc5444.Reader.AddrBlock.{
  AddrBlock, Step, continue, return, ◌>=>◌, cleared_addrblock, parse_head, parse_tail, parse_mid,
  parse_prefix, finish_addrblock, parse_addrblock, write_addr,
}
use oonf_api.Rfc5444.Reader.Cursor.{Cursor, has_flag, read, read_block, get_u8, get_u16}
use oonf_api.Rfc5444.Reader.Tlv.{
  TlvEntry, cleared_entry, parse_type, parse_index, parse_length, check_length, split_value,
  parse_value, parse_tlv,
}
use oonf_api.Rfc5444.Reader.TlvBlock.{Block, store_tlv, tlv_loop, cleanup_tlvblock, parse_tlvblock}
use oonf_api.Rfc5444.Result.{
  RfcResult, okay, drop_packet, drop_message, drop_msg_but_forward, drop_address, drop_tlv,
  end_of_buffer, is_okay, max_addrlen, addr_flag_head, addr_flag_fulltail, addr_flag_zerotail,
  addr_flag_singleplen, addr_flag_multiplen, tlv_flag_typeext, tlv_flag_single_idx,
  tlv_flag_multi_idx, tlv_flag_value, tlv_flag_extvalue,
}

abbrev pub is_drop : RfcResult → Bool
is_drop drop_packet = true
is_drop drop_message = true
is_drop drop_msg_but_forward = true
is_drop drop_address = true
is_drop drop_tlv = true
is_drop _ = false

-- A cursor with a result that is an error or okay.
abbrev pub Sound : Cursor → Type 0
Sound c = is_drop c.result ≡ false

abbrev pub SoundPair : {A : Type 0} → A × Cursor → Type 0
SoundPair r = Sound r.1

module _ (buf : List ℕ) (eob : ℕ) where
  pub get_u8-Sound : (c : Cursor) → Sound c → Ends AnyFault SoundPair (get_u8 buf eob c)
  unfolding get_u8
  get_u8-Sound c h =
      either SoundPair (not (is_okay c.result)) _ _ (λ bad. h)
        λ good.
          either SoundPair (leb eob c.ptr) _ _ (λ short. refl)
            λ room. after SoundPair (read buf c.ptr) _ λ x. h

  -- What follows a byte that is read.
  pub after_u8 :
      {B : Type 0} (Q : B → Type 0) (c : Cursor) (f : ℕ × Cursor → Exec B)
      → Sound c
      → ((r : ℕ × Cursor) → Sound r.1 → Ends AnyFault Q (f r))
      → Ends AnyFault Q (get_u8 buf eob c >>= f)
  after_u8 Q c f h k = Ends-bind AnyFault SoundPair Q (get_u8 buf eob c) f (get_u8-Sound c h) k

  pub get_u16-Sound : (c : Cursor) → Sound c → Ends AnyFault SoundPair (get_u16 buf eob c)
  unfolding get_u16
  get_u16-Sound c h = after_u8 SoundPair c _ h λ r1 h1. after_u8 SoundPair r1.1 _ h1 λ r2 h2. h2

  after_u16 :
      {B : Type 0} (Q : B → Type 0) (c : Cursor) (f : ℕ × Cursor → Exec B)
      → Sound c
      → ((r : ℕ × Cursor) → Sound r.1 → Ends AnyFault Q (f r))
      → Ends AnyFault Q (get_u16 buf eob c >>= f)
  after_u16 Q c f h k = Ends-bind AnyFault SoundPair Q (get_u16 buf eob c) f (get_u16-Sound c h) k

  parse_type-Sound :
      (e : TlvEntry) (c : Cursor) → Sound c → Ends AnyFault SoundPair (parse_type buf eob e c)
  unfolding parse_type
  parse_type-Sound e c h = after_u8 SoundPair c _ h λ t ht. after_u8 SoundPair t.1 _ ht λ f hf.
      Ends-bind AnyFault SoundPair SoundPair
        (if has_flag f.0 tlv_flag_typeext then get_u8 buf eob f.1 else done (0, f.1)) _
        (either SoundPair (has_flag f.0 tlv_flag_typeext) _ _ (λ ext. get_u8-Sound f.1 hf)
          (λ no. hf))
        λ x hx. hx

  parse_index-Sound :
      (n : ℕ) (e : TlvEntry) (c : Cursor)
      → Sound c
      → Ends AnyFault SoundPair (parse_index buf eob n e c)
  unfolding parse_index
  parse_index-Sound n e c h =
      let masked : ℕ = bit_and e.flags (bit_or tlv_flag_single_idx tlv_flag_multi_idx) in
      either SoundPair (masked == 0) _ _ (λ all. h)
        λ some.
          either SoundPair (masked == tlv_flag_single_idx) _ _
            (λ one. after_u8 SoundPair c _ h λ i hi. hi)
            λ more.
              either SoundPair (masked == tlv_flag_multi_idx) _ _
                (λ two. after_u8 SoundPair c _ h λ i hi. after_u8 SoundPair i.1 _ hi λ j hj. hj)
                λ bad. refl

  parse_length-Sound :
      (e : TlvEntry) (c : Cursor) → Sound c → Ends AnyFault SoundPair (parse_length buf eob e c)
  unfolding parse_length
  parse_length-Sound e c h =
      let masked : ℕ = bit_and e.flags (bit_or tlv_flag_value tlv_flag_extvalue) in
      either SoundPair (masked == 0) _ _ (λ no. h)
        λ some.
          either SoundPair (masked == tlv_flag_value) _ _
            (λ one. after_u8 SoundPair c _ h λ i hi. hi)
            λ more.
              either SoundPair (masked == bit_or tlv_flag_extvalue tlv_flag_value) _ _
                (λ two. after_u16 SoundPair c _ h λ i hi. hi) λ bad. refl

  check_length-Sound : (e : TlvEntry) (c : Cursor) → Sound c → SoundPair (check_length eob e c)
  unfolding check_length
  check_length-Sound e c h = elim (Bool-cases (ltb eob (c.ptr + e.length))) [
    | inl short ↦ rw short refl
    | inr room ↦ rw room h
  ]

  split_value-Sound :
      (e : TlvEntry) (c : Cursor) (count : ℕ)
      → Sound c
      → Ends AnyFault SoundPair (split_value e c count)
  unfolding split_value
  split_value-Sound e c count h =
      either SoundPair (not e.multivalue) _ _ (λ one. h)
        λ many.
          either SoundPair (count == 0) _ _ (λ zero. tt)
            λ some. either SoundPair (not (e.length % count == 0)) _ _ (λ bad. refl) λ good. h

  parse_value-Sound :
      (e : TlvEntry) (c : Cursor) → Sound c → Ends AnyFault SoundPair (parse_value e c)
  unfolding parse_value
  parse_value-Sound e c h =
      either SoundPair (not (is_okay c.result)) _ _ (λ bad. h)
        λ good.
          either SoundPair (e.length == 0) _ _ (λ none. h)
            λ has_value.
              let count = u8 (sub8 e.index2 e.index1 + 1) in
              split_value-Sound
                (record e {
                  value = some c.ptr;
                  multivalue = (if count == 1 then false else e.multivalue);
                })
                (record c { ptr = c.ptr + e.length }) count h

  parse_tlv-Sound :
      (e : TlvEntry) (ptr addr_count : ℕ)
      → Ends AnyFault SoundPair (parse_tlv buf eob e ptr addr_count)
  unfolding parse_tlv
  parse_tlv-Sound e ptr addr_count =
      let start : Cursor = record { ptr = ptr; result = okay } in
      Ends-bind AnyFault SoundPair SoundPair (parse_type buf eob e start) _
        (parse_type-Sound e start refl)
        λ r1 h1.
          Ends-bind AnyFault SoundPair SoundPair (parse_index buf eob addr_count r1.0 r1.1) _
            (parse_index-Sound addr_count r1.0 r1.1 h1)
            λ r2 h2.
              Ends-bind AnyFault SoundPair SoundPair (parse_length buf eob r2.0 r2.1) _
                (parse_length-Sound r2.0 r2.1 h2)
                λ r3 h3.
                  let r4 = check_length eob r3.0 r3.1 in
                  parse_value-Sound r4.0 r4.1 (check_length-Sound r3.0 r3.1 h3)

  tlv_loop-Sound :
      (fuel end n : ℕ) (e : TlvEntry) (b : Block) (c : Cursor)
      → Sound c
      → Ends AnyFault SoundPair (tlv_loop fuel buf eob end n e b c)
  unfolding tlv_loop
  tlv_loop-Sound zero end n e b c h = h
  tlv_loop-Sound (suc fuel) end n e b c h =
      either SoundPair (not (ltb c.ptr end)) _ _ (λ stop. h)
        λ go.
          Ends-bind AnyFault SoundPair SoundPair (parse_tlv buf eob e c.ptr n) _
            (parse_tlv-Sound e c.ptr n)
            λ r hr.
              either SoundPair (not (is_okay r.1.result)) _ _ (λ bad. hr)
                λ good.
                  either SoundPair (b.memory == 0) _ _ (λ full. refl)
                    λ room. tlv_loop-Sound fuel end n r.0 (store_tlv b r.0) r.1 hr

  cleanup_tlvblock-Sound : (r : Block × Cursor) → SoundPair r → SoundPair (cleanup_tlvblock eob r)
  unfolding cleanup_tlvblock
  cleanup_tlvblock-Sound r h = elim (Bool-cases (is_okay r.1.result)) [
    | inl good ↦ rw good h
    | inr bad ↦ rw bad h
  ]

  -- The parser of a TLV block returns an error or okay.
  pub parse_tlvblock-Sound :
      (n : ℕ) (b : Block) (ptr : ℕ) → Ends AnyFault SoundPair (parse_tlvblock buf eob n b ptr)
  unfolding parse_tlvblock
  parse_tlvblock-Sound n b ptr =
      after_u16 SoundPair (record { ptr = ptr; result = okay }) _ refl
        λ q hq.
          Ends-bind AnyFault SoundPair SoundPair
            (if ltb eob (q.1.ptr + q.0)
              then done (b, record (q.1) { result = end_of_buffer })
              else tlv_loop (suc q.0) buf eob (q.1.ptr + q.0) n cleared_entry b q.1)
            _
            (either SoundPair (ltb eob (q.1.ptr + q.0)) _ _ (λ short. refl)
              λ room. tlv_loop-Sound (suc q.0) (q.1.ptr + q.0) n cleared_entry b q.1 hq)
            λ r hr. cleanup_tlvblock-Sound r hr
