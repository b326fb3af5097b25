-- ===== src/Rfc5444/Reader/Schedule/Moves.antt =====
-- How a round of the loop of `_schedule_tlvblock` (src-api/rfc5444/rfc5444_reader.c) moves the two
-- places.
use oonf_api.Base.Exec.{AnyFault, Exec, done, fault, Ends, ◌>>=◌}
use oonf_api.Base.Int.{pos, ltb_ℤ}
use oonf_api.Base.{
  ℕ, ◌+◌, ◌≤◌, ◌<◌, ◌≡◌, refl, ◌∙◌, Bool, true, false, Bool-cases, inl, inr, leb, List, length, set,
  length-set, sym, ◌||◌, get_elem?, get_elem?-cases, Option, none, some, arith,
}
use oonf_api.Rfc5444.Reader.Consumer.{ConsumerEntry, compare_tlvtypes}
use oonf_api.Rfc5444.Reader.Linking.{clear_entry, link_tlv, length_fails}
use oonf_api.Rfc5444.Reader.Schedule.{
  Sched, meet_entry, advance_tlv, advance_entry, at_ends, take_match,
}
use oonf_api.Rfc5444.Reader.Tlv.{TlvEntry}
use mathlib.Core.Bool.{false≢true, true≢false}

pub length-clear_entry :
    (entries : List ConsumerEntry) (at : ℕ) → length (clear_entry entries at) ≡ length entries
unfolding clear_entry
length-clear_entry entries at = elim (get_elem?-cases entries at) [
  | inl h ↦ rw (h.0, clear_entry) refl
  | inr h ↦ rw (h.1, clear_entry) (length-set entries at _)
]

module _ {W : Type 0} where
  -- The lists keep their lengths, and the places are not moved back.
  pub record Keeps (s s' : Sched W) : Type 0 where
    pub tlvs : length s'.tlvs ≡ length s.tlvs
    pub entries : length s'.entries ≡ length s.entries
    pub tlv_le : s.tlv_at ≤ s'.tlv_at
    pub entry_le : s.entry_at ≤ s'.entry_at
    pub tlv_in : s.tlv_at ≤ length s.tlvs → s'.tlv_at ≤ length s.tlvs
    pub entry_in : s.entry_at ≤ length s.entries → s'.entry_at ≤ length s.entries

  pub Keeps-trans : (s s1 s2 : Sched W) → Keeps s s1 → Keeps s1 s2 → Keeps s s2
  Keeps-trans s s1 s2 h k = record {
    tlvs = k.tlvs ∙ h.tlvs;
    entries = k.entries ∙ h.entries;
    tlv_le = omega (arith, h.tlv_le, k.tlv_le);
    entry_le = omega (arith, h.entry_le, k.entry_le);
    tlv_in = λ le.
        let le1 : s1.tlv_at ≤ length s1.tlvs = omega (arith, h.tlv_in le, h.tlvs) in
        omega (arith, h.tlvs, k.tlv_in le1);
    entry_in = λ le.
        let le1 : s1.entry_at ≤ length s1.entries = omega (arith, h.entry_in le, h.entries) in
        omega (arith, h.entries, k.entry_in le1);
  }

  pub record Same (s s' : Sched W) : Type 0 where
    pub tlvs : length s'.tlvs ≡ length s.tlvs
    pub entries : length s'.entries ≡ length s.entries
    pub tlv_at : s'.tlv_at ≡ s.tlv_at
    pub entry_at : s'.entry_at ≡ s.entry_at

  pub Same-Keeps : (s s' : Sched W) → Same s s' → Keeps s s'
  Same-Keeps s s' h = record {
    tlvs = h.tlvs;
    entries = h.entries;
    tlv_le = omega (arith, h.tlv_at);
    entry_le = omega (arith, h.entry_at);
    tlv_in = λ le. omega (arith, h.tlv_at);
    entry_in = λ le. omega (arith, h.entry_at);
  }

  pub Same-refl : (s : Sched W) → Same s s
  Same-refl s = record { tlvs = refl; entries = refl; tlv_at = refl; entry_at = refl }

  take_match-Same :
      (buf : List ℕ) (s : Sched W) (failed : Bool) (e : ConsumerEntry) (t : Option TlvEntry)
      → Ends AnyFault (Same s) (take_match buf s failed e t)
  unfolding take_match
  take_match-Same buf s failed e none = record {
    tlvs = refl;
    entries = refl;
    tlv_at = refl;
    entry_at = refl;
  }
  take_match-Same buf s failed e (some t) = linked (link_tlv buf e t s.tlv_at)
    where
      linked :
          (m : Exec ConsumerEntry)
          → Ends AnyFault (Same s) (
              m >>= (λ e'. done (record s {
                constraints_failed = failed || length_fails e t;
                entries = set s.entries s.entry_at e';
              })))
      linked (fault f) = tt
      linked (done e') = record {
        tlvs = refl;
        entries = length-set s.entries s.entry_at e';
        tlv_at = refl;
        entry_at = refl;
      }

  pub meet_entry-Same :
      (buf : List ℕ) (s : Sched W) (matched : Bool)
      → Ends AnyFault (Same s) (meet_entry buf s matched)
  unfolding meet_entry
  meet_entry-Same buf s matched = elim (get_elem?-cases s.entries s.entry_at) [
    | inl h ↦ rw (h.0, meet_entry) (Same-refl s)
    | inr h ↦
        rw (h.1, meet_entry)
          (elim (Bool-cases
            (ltb_ℤ (compare_tlvtypes (get_elem? s.tlvs s.tlv_at) (some h.0)) (pos 0))) [
              | inl q ↦ rw q (Same-refl s)
              | inr q ↦ rw q (take_match-Same buf s _ h.0 _)
            ])
  ]

  -- The move to the next entry.
  entry_moved :
      (s : Sched W) (failed : Bool)
      → s.entry_at < length s.entries
      → Keeps s (record s {
        constraints_failed = failed;
        entry_at = s.entry_at + 1;
        entries = clear_entry s.entries (s.entry_at + 1);
      })
  entry_moved s failed lt = record {
    tlvs = refl;
    entries = length-clear_entry s.entries (s.entry_at + 1);
    tlv_le = omega arith;
    entry_le = omega arith;
    tlv_in = λ le. le;
    entry_in = λ le. omega arith;
  }

  advance_entry-Keeps : (s : Sched W) (matched : Bool) → Keeps s (advance_entry s matched)
  unfolding advance_entry
  advance_entry-Keeps s matched = elim (get_elem?-cases s.entries s.entry_at) [
    | inl h ↦ rw (h.0, advance_entry) (Same-Keeps s s (Same-refl s))
    | inr h ↦
        rw (h.1, advance_entry)
          (elim (Bool-cases
            (ltb_ℤ (pos 0) (compare_tlvtypes (get_elem? s.tlvs s.tlv_at) (some h.0)))) [
              | inl q ↦ rw q (entry_moved s _ h.2)
              | inr q ↦ rw q (Same-Keeps s s (Same-refl s))
            ])
  ]

  -- An entry in front of the TLV is left behind.
  advance_entry_moves :
      (s : Sched W) (matched : Bool) (e : ConsumerEntry)
      → get_elem? s.entries s.entry_at ≡ some e
      → ltb_ℤ (pos 0) (compare_tlvtypes (get_elem? s.tlvs s.tlv_at) (some e)) ≡ true
      → (advance_entry s matched).entry_at ≡ s.entry_at + 1
  unfolding advance_entry
  advance_entry_moves s matched e at gt = rw (at, advance_entry) (rw gt refl)

  -- A round leaves a TLV or an entry behind.
  pub record Progress (s s' : Sched W) : Type 0 where
    pub keeps : Keeps s s'
    pub forward : s.tlv_at + s.entry_at < s'.tlv_at + s'.entry_at

  tlv_moved :
      (s : Sched W) → s.tlv_at < length s.tlvs → Keeps s (record s { tlv_at = s.tlv_at + 1 })
  tlv_moved s lt = record {
    tlvs = refl;
    entries = refl;
    tlv_le = omega arith;
    entry_le = omega arith;
    tlv_in = λ le. omega arith;
    entry_in = λ le. le;
  }

  tlv_then :
      (s : Sched W) (matched : Bool)
      → s.tlv_at < length s.tlvs
      → Progress s (advance_entry (record s { tlv_at = s.tlv_at + 1 }) matched)
  tlv_then s matched lt =
      let moved = tlv_moved s lt in
      let rest = advance_entry-Keeps (record s { tlv_at = s.tlv_at + 1 }) matched in
      record {
        keeps = Keeps-trans s (record s { tlv_at = s.tlv_at + 1 }) _ moved rest;
        forward = omega (arith, rest.tlv_le, rest.entry_le);
      }

  entry_then :
      (s : Sched W) (matched : Bool) (e : ConsumerEntry)
      → get_elem? s.entries s.entry_at ≡ some e
      → ltb_ℤ (pos 0) (compare_tlvtypes (get_elem? s.tlvs s.tlv_at) (some e)) ≡ true
      → Progress s (advance_entry s matched)
  entry_then s matched e at gt =
      let rest = advance_entry-Keeps s matched in
      record {
        keeps = rest;
        forward = omega (arith, rest.tlv_le, advance_entry_moves s matched e at gt);
      }

  pub advance-Progress :
      (s : Sched W) (matched : Bool)
      → at_ends s ≡ false
      → Progress s (advance_entry (advance_tlv s) matched)
  unfolding advance_tlv
  advance-Progress s matched going = elim (get_elem?-cases s.tlvs s.tlv_at) [
    | inl t ↦
        rw (t.0, advance_tlv)
          (elim (get_elem?-cases s.entries s.entry_at) [
            | inl e ↦
                let le1 : leb (length s.entries) s.entry_at ≡ true = ground (arith, e.1) in
                let le2 : leb (length s.tlvs) s.tlv_at ≡ true = ground (arith, t.1) in
                absurd (true≢false (sym (rw le1 le2) ∙ going))
            | inr e ↦ entry_then s matched e.0 e.1 (rw t.0 refl)
          ])
    | inr t ↦
        rw (t.1, advance_tlv)
          (elim (Bool-cases
            (ltb_ℤ (pos 0) (compare_tlvtypes (some t.0) (get_elem? s.entries s.entry_at)))) [
              | inr q ↦ rw q (tlv_then s matched t.2)
              | inl q ↦ rw q (elim (get_elem?-cases s.entries s.entry_at) [
                | inl e ↦ absurd (false≢true (rw e.0 at q))
                | inr e ↦ entry_then s matched e.0 e.1 (rw t.1 (rw e.1 at q))
              ])
            ])
  ]

  pub Same-trans : (s s1 s2 : Sched W) → Same s s1 → Same s1 s2 → Same s s2
  Same-trans s s1 s2 h k = record {
    tlvs = k.tlvs ∙ h.tlvs;
    entries = k.entries ∙ h.entries;
    tlv_at = k.tlv_at ∙ h.tlv_at;
    entry_at = k.entry_at ∙ h.entry_at;
  }

  pub Same-at_ends : (s s1 : Sched W) → Same s s1 → at_ends s ≡ false → at_ends s1 ≡ false
  Same-at_ends s s1 h going = rw (h.tlvs, h.entries, h.tlv_at, h.entry_at) going

  pub Same-Progress : (s s1 s2 : Sched W) → Same s s1 → Progress s1 s2 → Progress s s2
  Same-Progress s s1 s2 h p = record {
    keeps = Keeps-trans s s1 s2 (Same-Keeps s s1 h) p.keeps;
    forward = omega (arith, p.forward, h.tlv_at, h.entry_at);
  }
