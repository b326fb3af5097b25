-- ===== src/Rfc5444/Reader/TlvBlock/Bounds.antt =====
-- The loop of `_parse_tlvblock` (src-api/rfc5444/rfc5444_reader.c) over the TLVs of a block.
use oonf_api.Base.{
  ℕ, zero, suc, ◌+◌, ◌≤◌, ◌<◌, ◌≡◌, ◌≢◌, refl, sym, ap, ◌∙◌, ◌⊎◌, true, false, not, Bool-cases, inl,
  inr, ltb, List, length, if◌then◌else◌, ◌==◌, arith,
}
use mathlib.Core.Bool.{false≢true}
use oonf_api.Base.Exec.{Exec, done, InBounds, Ends, Ends-map, Ends-bind, ◌>>=◌}
use oonf_api.Rfc5444.Reader.Cursor.{Cursor}
use oonf_api.Rfc5444.Reader.Tlv.Bounds.{Parsed}
use oonf_api.Rfc5444.Reader.Tlv.Safe.{parse_tlv-Ends}
use oonf_api.Rfc5444.Reader.Tlv.{TlvEntry, parse_tlv}
use oonf_api.Rfc5444.Reader.TlvBlock.Collect.{IsBlock, store_tlv-IsBlock}
use oonf_api.Rfc5444.Reader.TlvBlock.{Block, store_tlv, tlv_loop}
use oonf_api.Rfc5444.Result.{RfcResult, okay, out_of_memory, is_okay}

-- The loop has ended: with an error, or behind the end of the block.
pub record Looped (eob end total : ℕ) (c : Cursor) (r : Block × Cursor) : Type 0 where
  pub forward : c.ptr ≤ r.1.ptr
  pub at_end : r.1.ptr ≤ eob
  pub reached : r.1.result ≡ okay → end ≤ r.1.ptr
  pub progress : r.1.result ≡ okay → (c.result ≡ okay) ⊎ (c.ptr + 2 ≤ r.1.ptr)
  pub kept : IsBlock eob total r.0

pub is_okay-okay : (r : RfcResult) → is_okay r ≡ true → r ≡ okay
is_okay-okay okay h = refl
is_okay-okay _ h = absurd (false≢true h)

pub not_okay : {r : RfcResult} → is_okay r ≡ false → r ≡ okay → ⊥
not_okay bad h = false≢true (sym bad ∙ ap is_okay h)

module _ (buf : List ℕ) (eob end addr_count total : ℕ) (fits : eob ≤ length buf) where
  tlv_loop_stop :
      (fuel : ℕ) (e : TlvEntry) (b : Block) (c : Cursor)
      → end ≤ c.ptr
      → tlv_loop (suc fuel) buf eob end addr_count e b c ≡ done (b, c)
  unfolding tlv_loop
  tlv_loop_stop fuel e b c le = let stop : ltb c.ptr end ≡ false = ground arith in rw stop

  -- One round, from what the TLV parser has returned.
  after_tlv : ℕ → Block → TlvEntry × Cursor → Exec (Block × Cursor)
  after_tlv fuel b r =
      if not (is_okay r.1.result)
      then done (b, r.1)
      else if b.memory == 0
      then done (b, record { ptr = r.1.ptr; result = out_of_memory })
      else tlv_loop fuel buf eob end addr_count r.0 (store_tlv b r.0) r.1

  tlv_loop_round :
      (fuel : ℕ) (e : TlvEntry) (b : Block) (c : Cursor)
      → c.ptr < end
      → tlv_loop (suc fuel) buf eob end addr_count e b c
        ≡ (parse_tlv buf eob e c.ptr addr_count >>= after_tlv fuel b)
  unfolding tlv_loop after_tlv
  tlv_loop_round fuel e b c lt = let go : ltb c.ptr end ≡ true = ground arith in rw go

  Looped-stop :
      (b : Block) (c : Cursor)
      → c.ptr ≤ eob
      → end ≤ c.ptr
      → IsBlock eob total b
      → Looped eob end total c (b, c)
  Looped-stop b c le stop h = record {
    forward = omega arith;
    at_end = le;
    reached = λ _. stop;
    progress = λ good. inl good;
    kept = h;
  }

  -- A round that returns an error.
  Looped-error :
      (b : Block) (c c1 : Cursor)
      → c.ptr ≤ c1.ptr
      → c1.ptr ≤ eob
      → is_okay c1.result ≡ false
      → IsBlock eob total b
      → Looped eob end total c (b, c1)
  Looped-error b c c1 forward le bad h = record {
    forward = forward;
    at_end = le;
    reached = λ good. absurd (not_okay bad good);
    progress = λ good. absurd (not_okay bad good);
    kept = h;
  }

  -- The rounds behind a TLV of two bytes at least.
  Looped-next :
      (c c1 : Cursor) (r : Block × Cursor)
      → c.ptr + 2 ≤ c1.ptr
      → Looped eob end total c1 r
      → Looped eob end total c r
  Looped-next c c1 r two h = record {
    forward = omega (arith, h.forward);
    at_end = h.at_end;
    reached = h.reached;
    progress = λ good. inr (omega (arith, h.forward));
    kept = h.kept;
  }

  pub tlv_loop-Ends :
      (fuel : ℕ) (e : TlvEntry) (b : Block) (c : Cursor)
      → c.ptr ≤ eob
      → end < c.ptr + fuel
      → IsBlock eob total b
      → Ends InBounds (Looped eob end total c) (tlv_loop fuel buf eob end addr_count e b c)
  unfolding tlv_loop after_tlv
  tlv_loop-Ends zero e b c le enough h = Looped-stop b c le (omega arith) h
  tlv_loop-Ends (suc fuel) e b c le enough h = elim (Bool-cases (ltb c.ptr end)) [
    | inr stop ↦
        let past : end ≤ c.ptr = ground arith in
        rw (tlv_loop_stop fuel e b c past) (Looped-stop b c le past h)
    | inl go ↦
        let start : Cursor = record { ptr = c.ptr; result = okay } in
        rw (tlv_loop_round fuel e b c (ground arith)) (
          Ends-bind InBounds (Parsed eob start) (Looped eob end total c)
            (parse_tlv buf eob e c.ptr addr_count) (after_tlv fuel b)
            (parse_tlv-Ends buf eob e c.ptr addr_count fits le)
            λ r p. elim (Bool-cases (is_okay r.1.result)) [
              | inr bad ↦ rw bad (Looped-error b c r.1 p.took.forward p.at_end bad h)
              | inl good ↦
                  let okay_now = is_okay-okay r.1.result good in
                  let two = (p.took.progress okay_now).1 in
                  elim (Bool-cases (b.memory == 0)) [
                    | inl full ↦
                        rw (good, full)
                          (Looped-error b c (record { ptr = r.1.ptr; result = out_of_memory })
                            p.took.forward p.at_end refl h)
                    | inr room ↦
                        let left : b.memory ≢ 0 = ground arith in
                        let stored =
                          store_tlv-IsBlock b r.0 left (λ v e'. p.value_in v okay_now e') h in
                        rw (good, room)
                          (Ends-map InBounds (Looped eob end total r.1) (Looped eob end total c) _
                            (λ q. Looped-next c r.1 q two)
                            (tlv_loop-Ends fuel r.0 (store_tlv b r.0) r.1 p.at_end (omega arith)
                              stored))
                  ]
            ])
  ]
