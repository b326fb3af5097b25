-- ===== src/Rfc5444/Reader/Parts/Ending.antt =====
-- The loop over the address blocks of a message (src-api/rfc5444/rfc5444_reader.c) ends, and its memory
-- is accounted for.
use oonf_api.Base.Exec.{
  AnyFault, Ends, Ends-bind, Ends-and, Ends-map, Ends-weaken, InBounds, either,
}
use oonf_api.Base.{
  ℕ, Bool, zero, suc, ◌+◌, ◌-◌, ◌≤◌, ◌<◌, ◌≡◌, refl, sym, ap, ◌∙◌, true, false, Bool-cases, inl,
  inr, not, ltb, ◌==◌, List, [], ◌∷◌, ◌++◌, length, Option, none, some, arith,
}
use mathlib.Core.Bool.{false≢true}
use oonf_api.Rfc5444.Reader.AddrBlock.Forward.{Forward, parse_addrblock-Forward}
use oonf_api.Rfc5444.Reader.AddrBlock.{cleared_addrblock, parse_addrblock}
use oonf_api.Rfc5444.Reader.Cursor.{Cursor}
use oonf_api.Rfc5444.Reader.Dispatch.{AddrEntry}
use oonf_api.Rfc5444.Reader.Fuel.{Value}
use oonf_api.Rfc5444.Reader.Parts.{
  Parts, parse_entry, entry_rounds, parse_parts, free_parts, owned_addrs,
}
use oonf_api.Rfc5444.Reader.TlvBlock.Bounds.{is_okay-okay, not_okay}
use oonf_api.Rfc5444.Reader.TlvBlock.Collect.{IsBlock}
use oonf_api.Rfc5444.Reader.TlvBlock.Safe.{BlockParsed, parse_tlvblock-Ends}
use oonf_api.Rfc5444.Reader.TlvBlock.{Block, parse_tlvblock}
use oonf_api.Rfc5444.Reader.Verdict.{is_drop, SoundPair, parse_tlvblock-Sound}
use oonf_api.Rfc5444.Reader.Verdict.Addresses.{Verdict, parse_addrblock-Verdict}
use oonf_api.Rfc5444.Result.{RfcResult, is_okay}

-- What is known of a TLV block that is parsed into an empty tree.
pub record Parsed (end memory ptr : ℕ) (r : Block × Cursor) : Type 0 where
  pub verdict : is_drop r.1.result ≡ false
  pub progress : is_okay r.1.result ≡ true → (ptr + 2 ≤ r.1.ptr) × (r.1.ptr ≤ end)
  pub failed : is_okay r.1.result ≡ false → r.0.memory ≡ memory
  pub kept : r.0.memory + length r.0.tlvs ≡ memory

pub not_both : (b : Bool) → not b ≡ true → b ≡ true → ⊥
not_both true h k = false≢true h
not_both false h k = false≢true k

pub false_of_not : (b : Bool) → not b ≡ true → b ≡ false
false_of_not false h = refl
false_of_not true h = absurd (false≢true h)

pub true_of_not : (b : Bool) → not b ≡ false → b ≡ true
true_of_not true h = refl
true_of_not false h = absurd (false≢true (sym h))

module _ (buf : List ℕ) (end : ℕ) (fits : end ≤ length buf) where
  pub parse_tlvblock-Parsed :
      (n memory ptr : ℕ)
      → Ends AnyFault
          (Parsed end memory ptr)
          (parse_tlvblock buf end n (record { tlvs = []; memory = memory }) ptr)
  parse_tlvblock-Parsed n memory ptr =
      let b : Block = record { tlvs = []; memory = memory } in
      let start : IsBlock end memory b = record {
        values = tt;
        sorted = tt;
        memory_kept = omega arith;
      } in
      Ends-map AnyFault (λ r. BlockParsed end memory ptr r × SoundPair r) (Parsed end memory ptr)
        (parse_tlvblock buf end n b ptr)
        (λ r h. record {
          verdict = h.1;
          progress = λ good. h.0.progress (is_okay-okay r.1.result good);
          failed = λ bad.
              let empty = (h.0.failed (not_okay bad)).1 in
              omega (arith, h.0.kept.memory_kept, ap length empty);
          kept = h.0.kept.memory_kept;
        })
        (Ends-and AnyFault (BlockParsed end memory ptr) SoundPair (parse_tlvblock buf end n b ptr)
          (Ends-weaken InBounds (BlockParsed end memory ptr) (parse_tlvblock buf end n b ptr)
            (parse_tlvblock-Ends buf end n memory b ptr fits start))
          (parse_tlvblock-Sound buf end n b ptr))

  owned_addrs-append :
      (addrs : List AddrEntry) (a : AddrEntry)
      → owned_addrs (addrs ++ (a ∷ [])) ≡ owned_addrs addrs + suc (length a.tlvs)
  unfolding owned_addrs
  owned_addrs-append [] a = omega arith
  owned_addrs-append (x ∷ addrs) a = omega (arith, owned_addrs-append addrs a)

  -- A round of the loop: an error or okay, the same memory in all, and at least two bytes on.
  record Round (m : Parts) (r : RfcResult × Parts) : Type 0 where
    verdict : is_drop r.0 ≡ false
    kept : free_parts r.1 ≡ free_parts m
    progress : is_okay r.0 ≡ true → m.ptr + 2 ≤ r.1.ptr

  parse_entry-Round :
      (addr_len : ℕ) (m : Parts) → Ends AnyFault (Round m) (parse_entry buf end addr_len m)
  unfolding parse_entry free_parts
  parse_entry-Round addr_len m =
      either (Round m) (m.memory == 0) _ _
        (λ full. record { verdict = refl; kept = refl; progress = λ e. absurd (false≢true e) })
        λ room.
          Ends-bind AnyFault (λ r. Forward m.ptr r × Verdict r) (Round m)
            (parse_addrblock buf end addr_len cleared_addrblock m.ptr) _
            (Ends-and AnyFault (Forward m.ptr) Verdict _
              (parse_addrblock-Forward buf end fits addr_len m.ptr)
              (parse_addrblock-Verdict buf end addr_len m.ptr))
            λ r h.
              either (Round m) (not (is_okay r.0)) _ _
                (λ bad. record {
                  verdict = h.1;
                  kept = refl;
                  progress = λ e. absurd (not_both (is_okay r.0) bad e);
                })
                λ good.
                  Ends-bind AnyFault (Parsed end (m.memory - 1) r.2.ptr) (Round m)
                    (parse_tlvblock buf end r.1.num_addr
                      (record { tlvs = []; memory = m.memory - 1 }) r.2.ptr)
                    _ (parse_tlvblock-Parsed r.1.num_addr (m.memory - 1) r.2.ptr)
                    λ t p.
                      either (Round m) (not (is_okay t.1.result)) _ _
                        (λ bad. record {
                          verdict = p.verdict;
                          kept =
                              ground
                                (arith, p.failed (false_of_not (is_okay t.1.result) bad), room);
                          progress = λ e. absurd (not_both (is_okay t.1.result) bad e);
                        })
                        λ fine.
                          let a : AddrEntry = record { block = r.1; tlvs = t.0.tlvs } in
                          record {
                            verdict = refl;
                            kept = ground (arith, p.kept, room, owned_addrs-append m.addrs a);
                            progress = λ e. omega (
                              arith,
                              h.0 (is_okay-okay r.0 (true_of_not (is_okay r.0) good)),
                              (p.progress (true_of_not (is_okay t.1.result) fine)).0,
                            );
                          }

  entry_rounds-Value :
      (addr_len fuel : ℕ) (m : Parts)
      → end - m.ptr < fuel
      → Ends AnyFault
          (Value (λ r. (is_drop r.0 ≡ false) × (free_parts r.1 ≡ free_parts m)))
          (entry_rounds buf end addr_len fuel m)
  unfolding entry_rounds
  entry_rounds-Value addr_len zero m lt = absurd (omega arith)
  entry_rounds-Value addr_len (suc fuel) m lt = elim (Bool-cases (ltb m.ptr end)) [
    | inr stop ↦ rw (stop, entry_rounds) (refl, refl)
    | inl go ↦
        rw (go, entry_rounds)
          (Ends-bind AnyFault (Round m)
            (Value (λ r. (is_drop r.0 ≡ false) × (free_parts r.1 ≡ free_parts m)))
            (parse_entry buf end addr_len m) _ (parse_entry-Round addr_len m)
            λ r h. elim (Bool-cases (is_okay r.0)) [
              | inr bad ↦ rw bad (h.verdict, h.kept)
              | inl good ↦
                  rw (good, sym h.kept)
                    (entry_rounds-Value addr_len fuel r.1 (ground (arith, h.progress good, lt, go)))
            ])
  ]

  -- The parts of a message: within the rounds given to the loop there is a result, an error or okay;
  -- the memory in all is as before; and a message without an error has a TLV block of two bytes.
  pub record PartsEnd (memory ptr : ℕ) (r : RfcResult × Parts) : Type 0 where
    pub verdict : is_drop r.0 ≡ false
    pub kept : free_parts r.1 ≡ memory
    pub room : is_okay r.0 ≡ true → ptr + 2 ≤ end

  pub parse_parts-PartsEnd :
      (addr_len memory ptr : ℕ)
      → Ends AnyFault (Value (PartsEnd memory ptr)) (parse_parts buf end addr_len memory ptr)
  unfolding parse_parts free_parts owned_addrs
  parse_parts-PartsEnd addr_len memory ptr =
      Ends-bind AnyFault (Parsed end memory ptr) (Value (PartsEnd memory ptr))
        (parse_tlvblock buf end 0 (record { tlvs = []; memory = memory }) ptr) _
        (parse_tlvblock-Parsed 0 memory ptr)
        λ t p.
          let m : Parts = record {
            tlvs = t.0.tlvs;
            addrs = [];
            memory = t.0.memory;
            ptr = t.1.ptr;
          } in
          let whole : free_parts m ≡ memory = omega (arith, p.kept) in
          either (Value (PartsEnd memory ptr)) (not (is_okay t.1.result)) _ _
            (λ bad. record {
              verdict = p.verdict;
              kept = whole;
              room = λ e. absurd (not_both (is_okay t.1.result) bad e);
            })
            λ good.
              let step = p.progress (true_of_not (is_okay t.1.result) good) in
              Ends-map AnyFault
                (Value (λ r. (is_drop r.0 ≡ false) × (free_parts r.1 ≡ free_parts m)))
                (Value (PartsEnd memory ptr)) _
                (λ o. lift m o (omega (arith, step.0, step.1)) whole)
                (entry_rounds-Value addr_len (suc end) m (omega arith))
    where
      lift :
          (m : Parts) (o : Option (RfcResult × Parts))
          → ptr + 2 ≤ end
          → free_parts m ≡ memory
          → Value (λ r. (is_drop r.0 ≡ false) × (free_parts r.1 ≡ free_parts m)) o
          → Value (PartsEnd memory ptr) o
      lift m none le whole h = h
      lift m (some r) le whole h = record { verdict = h.0; kept = h.1 ∙ whole; room = λ e. le }
