-- ===== src/Rfc5444/Reader/Schedule/Uncovered.antt =====
-- A mandatory entry and a TLV of its type for other addresses, in `_schedule_tlvblock`
-- (src-api/rfc5444/rfc5444_reader.c).
use oonf_api.Base.Exec.{AnyFault, Exec, done, fault, Ends, Ends-bind, Ends-and}
use oonf_api.Base.Int.{pos, ltb_ℤ}
use oonf_api.Base.{
  ℕ, zero, suc, ◌+◌, ◌≡◌, refl, ap, ◌∙◌, Bool, true, false, not, Bool-cases, inl, inr, ◌&&◌, ◌||◌,
  List, [], ◌∷◌, length, set, get_elem?, get_elem?-cases, get_elem?-set_self, Option, none, some,
  arith, if◌then◌else◌, ◌<◌,
}
use oonf_api.Rfc5444.Reader.Consumer.{ConsumerEntry, Consumer, Context, compare_tlvtypes}
use oonf_api.Rfc5444.Reader.Linking.{link_tlv, fits, is_index_match, clear_entry}
use oonf_api.Rfc5444.Reader.Schedule.{
  Sched, Turn, next, leave, meet_entry, advance_tlv, advance_entry, advance, call_tlv,
  schedule_turn, schedule_loop, at_ends, take_match, resume, start_sched,
}
use oonf_api.Rfc5444.Reader.Schedule.Linked.{is_zero-ltb_ℤ}
use oonf_api.Rfc5444.Reader.Schedule.Ending.{start_loop-HasEnded}
use oonf_api.Rfc5444.Reader.Fuel.{HasEnded}
use oonf_api.Rfc5444.Reader.Schedule.Turns.{schedule_turn-Ends, AnyTlv}
use oonf_api.Rfc5444.Reader.Tlv.{TlvEntry}

or_true : (a b : Bool) → a ≡ true → (a || b) ≡ true
or_true a b h = rw h refl

or_true_right : (a b : Bool) → b ≡ true → (a || b) ≡ true
or_true_right false b h = h
or_true_right true b h = refl

module _ {W : Type 0} where
  abbrev pub HasFailed : Sched W → Type 0
  HasFailed s = s.constraints_failed ≡ true

  abbrev pub TurnFailed : Turn W → Type 0
  TurnFailed (next s) = HasFailed s
  TurnFailed (leave r s) = Unit

  take_match-HasFailed :
      (buf : List ℕ) (s : Sched W) (failed : Bool) (e : ConsumerEntry) (t : Option TlvEntry)
      → failed ≡ true
      → Ends AnyFault HasFailed (take_match buf s failed e t)
  unfolding take_match
  take_match-HasFailed buf s failed e none h = h
  take_match-HasFailed buf s failed e (some t) h =
      Ends-bind AnyFault (λ e'. Unit) HasFailed (link_tlv buf e t s.tlv_at) _
        (any_run (link_tlv buf e t s.tlv_at)) λ e' u. or_true failed _ h
    where
      any_run : (m : Exec ConsumerEntry) → Ends AnyFault (λ e'. Unit) m
      any_run (done a) = tt
      any_run (fault f) = tt

  meet_entry-HasFailed :
      (buf : List ℕ) (s : Sched W) (matched : Bool)
      → HasFailed s
      → Ends AnyFault HasFailed (meet_entry buf s matched)
  unfolding meet_entry
  meet_entry-HasFailed buf s matched h = elim (get_elem?-cases s.entries s.entry_at) [
    | inl k ↦ rw (k.0, meet_entry) h
    | inr k ↦
        rw (k.1, meet_entry)
          (elim (Bool-cases
            (ltb_ℤ (compare_tlvtypes (get_elem? s.tlvs s.tlv_at) (some k.0)) (pos 0))) [
              | inl q ↦ rw q h
              | inr q ↦ rw q (
                  take_match-HasFailed buf s
                    (s.constraints_failed || (k.0.mandatory && not matched)) k.0
                    (if matched then get_elem? s.tlvs s.tlv_at else none)
                    (or_true s.constraints_failed _ h))
            ])
  ]

  advance_tlv-HasFailed : (s : Sched W) → HasFailed s → HasFailed (advance_tlv s)
  unfolding advance_tlv
  advance_tlv-HasFailed s h = elim (get_elem?-cases s.tlvs s.tlv_at) [
    | inl k ↦ rw (k.0, advance_tlv) h
    | inr k ↦
        rw (k.1, advance_tlv)
          (elim (Bool-cases
            (ltb_ℤ (pos 0) (compare_tlvtypes (some k.0) (get_elem? s.entries s.entry_at)))) [
              | inl q ↦ rw q h
              | inr q ↦ rw q h
            ])
  ]

  advance_entry-HasFailed :
      (s : Sched W) (matched : Bool) → HasFailed s → HasFailed (advance_entry s matched)
  unfolding advance_entry
  advance_entry-HasFailed s matched h = elim (get_elem?-cases s.entries s.entry_at) [
    | inl k ↦ rw (k.0, advance_entry) h
    | inr k ↦
        rw (k.1, advance_entry)
          (elim (Bool-cases
            (ltb_ℤ (pos 0) (compare_tlvtypes (get_elem? s.tlvs s.tlv_at) (some k.0)))) [
              | inl q ↦ rw q (or_true s.constraints_failed _ h)
              | inr q ↦ rw q h
            ])
  ]

  moves-HasFailed :
      (s : Sched W) (matched : Bool)
      → HasFailed s
      → HasFailed (advance_entry (advance_tlv s) matched)
  moves-HasFailed s matched h =
      advance_entry-HasFailed (advance_tlv s) matched (advance_tlv-HasFailed s h)

  -- A failed constraint stays.
  schedule_turn-HasFailed :
      (consumer : Consumer W) (buf : List ℕ) (idx : ℕ) (s : Sched W)
      → HasFailed s
      → Ends AnyFault TurnFailed (schedule_turn consumer buf idx s)
  unfolding advance
  schedule_turn-HasFailed consumer buf idx s h =
      schedule_turn-Ends AnyFault AnyTlv TurnFailed buf idx s (λ t u. tt) (λ t u. tt)
        (λ s1 matched k.
          Ends-bind AnyFault HasFailed TurnFailed (meet_entry buf s1 matched) _
            (meet_entry-HasFailed buf s1 matched (k.failed ∙ h))
            λ s2 h2. moves-HasFailed s2 matched h2)
        (λ r s1. tt) consumer

  abbrev pub LoopFailed : Option (Turn W) → Type 0
  LoopFailed none = Unit
  LoopFailed (some (leave r s)) = Unit
  LoopFailed (some (next s)) = HasFailed s

  resume-LoopFailed :
      (again : Sched W → Exec (Option (Turn W)))
      → ((s : Sched W) → HasFailed s → Ends AnyFault LoopFailed (again s))
      → (t : Turn W) → TurnFailed t
      → Ends AnyFault LoopFailed (resume again t)
  resume-LoopFailed again k (next s) h = k s h
  resume-LoopFailed again k (leave r s) h = tt

  schedule_loop-LoopFailed :
      (fuel : ℕ) (consumer : Consumer W) (buf : List ℕ) (idx : ℕ) (s : Sched W)
      → HasFailed s
      → Ends AnyFault LoopFailed (schedule_loop fuel consumer buf idx s)
  unfolding schedule_loop
  schedule_loop-LoopFailed zero consumer buf idx s h = tt
  schedule_loop-LoopFailed (suc fuel) consumer buf idx s h = elim (Bool-cases (at_ends s)) [
    | inl stop ↦ rw (stop, schedule_loop) h
    | inr going ↦
        rw (going, schedule_loop)
          (Ends-bind AnyFault TurnFailed LoopFailed (schedule_turn consumer buf idx s) _
            (schedule_turn-HasFailed consumer buf idx s h)
            (resume-LoopFailed (schedule_loop fuel consumer buf idx)
              (schedule_loop-LoopFailed fuel consumer buf idx)))
  ]

  -- A TLV of a mandatory entry's type that is not a match.
  meet_entry-mandatory :
      (buf : List ℕ) (s : Sched W) (t : TlvEntry) (e : ConsumerEntry)
      → get_elem? s.tlvs s.tlv_at ≡ some t
      → get_elem? s.entries s.entry_at ≡ some e
      → e.mandatory ≡ true
      → fits t (some e) ≡ true
      → Ends AnyFault HasFailed (meet_entry buf s false)
  unfolding meet_entry take_match
  meet_entry-mandatory buf s t e at_tlv at_entry must fit =
      elim (Bool-cases (ltb_ℤ (compare_tlvtypes (some t) (some e)) (pos 0))) [
        | inl q ↦ absurd (is_zero-ltb_ℤ (compare_tlvtypes (some t) (some e)) fit q)
        | inr q ↦
            rw (at_entry, meet_entry)
              (rw at_tlv
                (rw q (or_true_right s.constraints_failed (e.mandatory && true) (rw must refl))))
      ]

  turn_uncovered :
      (consumer : Consumer W) (buf : List ℕ) (idx : ℕ) (s : Sched W) (t : TlvEntry)
      (e : ConsumerEntry)
      → get_elem? s.tlvs s.tlv_at ≡ some t
      → s.tlv_at < length s.tlvs
      → get_elem? s.entries s.entry_at ≡ some e
      → e.mandatory ≡ true
      → fits t (some e) ≡ true
      → is_index_match t idx ≡ false
      → Ends AnyFault TurnFailed (schedule_turn consumer buf idx s)
  unfolding schedule_turn call_tlv advance
  turn_uncovered consumer buf idx s t e at_tlv lt at_entry must fit other =
      let s1 : Sched W = record s { tlvs = set s.tlvs s.tlv_at t } in
      rw (at_tlv, schedule_turn)
        (rw other (
          Ends-bind AnyFault HasFailed TurnFailed (meet_entry buf s1 false) _
            (meet_entry-mandatory buf s1 t e (get_elem?-set_self s.tlvs s.tlv_at t lt) at_entry must
              fit)
            λ s2 h. moves-HasFailed s2 false h))

  loop_uncovered :
      (fuel : ℕ) (consumer : Consumer W) (buf : List ℕ) (idx : ℕ) (s : Sched W) (t : TlvEntry)
      (e : ConsumerEntry)
      → get_elem? s.tlvs s.tlv_at ≡ some t
      → s.tlv_at < length s.tlvs
      → get_elem? s.entries s.entry_at ≡ some e
      → e.mandatory ≡ true
      → fits t (some e) ≡ true
      → is_index_match t idx ≡ false
      → Ends AnyFault LoopFailed (schedule_loop (suc fuel) consumer buf idx s)
  unfolding schedule_loop
  loop_uncovered fuel consumer buf idx s t e at_tlv lt at_entry must fit other =
      elim (Bool-cases (at_ends s)) [
        | inl stop ↦ absurd (ground (arith, stop, lt))
        | inr going ↦
            rw (going, schedule_loop)
              (Ends-bind AnyFault TurnFailed LoopFailed (schedule_turn consumer buf idx s) _
                (turn_uncovered consumer buf idx s t e at_tlv lt at_entry must fit other)
                (resume-LoopFailed (schedule_loop fuel consumer buf idx)
                  (schedule_loop-LoopFailed fuel consumer buf idx)))
      ]

-- When the first TLV of a block has the type of the first entry of a consumer, the entry is
-- mandatory, and that TLV is not for the address `idx`, the walk does not run out of rounds, and
-- where it comes to the ends of the lists a constraint has failed: also if a later TLV of the same
-- type is for the address.
pub mandatory_uncovered :
    {W : Type 0} (consumer : Consumer W) (buf : List ℕ) (idx : ℕ) (t : TlvEntry)
    (tlvs : List TlvEntry) (e : ConsumerEntry) (entries : List ConsumerEntry) (context : Context)
    (world : W)
    → consumer.entries ≡ e ∷ entries
    → e.mandatory ≡ true
    → fits t (some e) ≡ true
    → is_index_match t idx ≡ false
    → Ends AnyFault
        (λ o. HasEnded o × LoopFailed o)
        (schedule_loop
          (suc (length (t ∷ tlvs) + length consumer.entries))
          consumer
          buf
          idx
          (start_sched consumer (t ∷ tlvs) context world))
unfolding start_sched clear_entry compare_tlvtypes
mandatory_uncovered consumer buf idx t tlvs e entries context world from must fit other =
    let first : get_elem? (clear_entry consumer.entries 0) 0 ≡ some (record e { tlv = [] }) =
      ap (λ l. get_elem? (clear_entry l 0) 0) from in
    Ends-and AnyFault HasEnded LoopFailed _
      (start_loop-HasEnded consumer buf idx (t ∷ tlvs) context world)
      (loop_uncovered (length (t ∷ tlvs) + length consumer.entries) consumer buf idx
        (start_sched consumer (t ∷ tlvs) context world) t (record e { tlv = [] }) refl (omega arith)
        first must fit other)
