-- ===== src/Rfc5444/Reader/Schedule/Constraints.antt =====
-- The constraints of a consumer's entries in `_schedule_tlvblock` (src-api/rfc5444/rfc5444_reader.c):
-- what the loop has found out about the mandatory ones.
use oonf_api.Base.Exec.{AnyFault, Exec, Ends, Ends-bind, Ends-and}
use oonf_api.Base.Int.{pos, ltb_ℤ}
use oonf_api.Base.{
  ℕ, zero, suc, ◌+◌, ◌<◌, ◌≡◌, sym, ap, ◌∙◌, Bool, true, false, not, Bool-cases, inl, inr, ◌&&◌,
  ◌||◌, List, length, get_elem?, some_inj, get_elem?-cases, get_elem?-set_self, Option, none, some,
  arith, if◌then◌else◌, ◌==◌,
}
use oonf_api.Rfc5444.Reader.Consumer.{ConsumerEntry, Consumer, Context, compare_tlvtypes}
use oonf_api.Rfc5444.Reader.Linking.{clear_entry, link_tlv, is_null}
use oonf_api.Rfc5444.Reader.Schedule.{
  Sched, Turn, next, leave, meet_entry, advance_tlv, advance_entry, advance, schedule_turn,
  schedule_loop, at_ends, take_match, resume, start_sched,
}
use oonf_api.Rfc5444.Reader.Schedule.Ending.{start_loop-HasEnded}
use oonf_api.Rfc5444.Reader.Fuel.{HasEnded}
use oonf_api.Rfc5444.Reader.Schedule.Linked.{
  AreLinked, IsLinked, link_tlv-IsLinked, or_false, AreLinked-set, get_elem?-clear_entry, excused,
  has_tlv, has_tlv-fits, fits-ltb,
}
use oonf_api.Rfc5444.Reader.Schedule.Turns.{schedule_turn-Ends, AnyTlv, optional_fits}
use oonf_api.Rfc5444.Reader.Tlv.{TlvEntry}
use mathlib.Core.Bool.{false≢true}

module _ {W : Type 0} where
  -- As long as no constraint has failed, the entries left behind have their TLVs.
  abbrev pub IsSound : Sched W → Type 0
  IsSound s = s.constraints_failed ≡ false → AreLinked s.entries s.entry_at

  -- What is known behind the comparison: with a match the entry has a TLV.
  record Met (matched : Bool) (s : Sched W) : Type 0 where
    sound : IsSound s
    linked : matched ≡ true → IsLinked s.entries s.entry_at

  take_match-Met :
      (buf : List ℕ) (s : Sched W) (failed : Bool) (e : ConsumerEntry) (t : Option TlvEntry)
      (matched : Bool)
      → IsSound s
      → (failed ≡ false → s.constraints_failed ≡ false)
      → (matched ≡ true → has_tlv t ≡ true)
      → s.entry_at < length s.entries
      → Ends AnyFault (Met matched) (take_match buf s failed e t)
  unfolding take_match
  take_match-Met buf s failed e none matched sound keep has lt = record {
    sound = λ h. sound (keep h);
    linked = λ m. absurd (false≢true (has m));
  }
  take_match-Met buf s failed e (some t) matched sound keep has lt =
      Ends-bind AnyFault (λ e'. is_null e'.tlv ≡ false) (Met matched) (link_tlv buf e t s.tlv_at) _
        (link_tlv-IsLinked buf e t s.tlv_at)
        λ e' some_tlv. record {
          sound = λ h. AreLinked-set s.entries s.entry_at e' (sound (keep (or_false failed _ h).0));
          linked = λ m e'' here.
              let same = some_inj (sym (get_elem?-set_self s.entries s.entry_at e' lt) ∙ here) in
              ap (λ e. is_null e.tlv) (sym same) ∙ some_tlv;
        }

  meet_entry-Met :
      (buf : List ℕ) (s : Sched W) (matched : Bool)
      → IsSound s
      → (matched ≡ true
          → optional_fits (get_elem? s.tlvs s.tlv_at) (get_elem? s.entries s.entry_at) ≡ true)
      → Ends AnyFault (Met matched) (meet_entry buf s matched)
  unfolding meet_entry
  meet_entry-Met buf s matched sound fit = elim (get_elem?-cases s.entries s.entry_at) [
    | inl h ↦ rw (h.0, meet_entry) (record { sound = sound; linked = λ m e here. cc })
    | inr h ↦
        let fit' : matched ≡ true → optional_fits (get_elem? s.tlvs s.tlv_at) (some h.0) ≡ true =
          λ m. ap (optional_fits (get_elem? s.tlvs s.tlv_at)) (sym h.1) ∙ fit m in
        rw (h.1, meet_entry)
          (elim (Bool-cases
            (ltb_ℤ (compare_tlvtypes (get_elem? s.tlvs s.tlv_at) (some h.0)) (pos 0))) [
              | inl q ↦ rw q (record {
                sound = sound;
                linked = λ m. absurd (fits-ltb (get_elem? s.tlvs s.tlv_at) h.0 (fit' m) q);
              })
              | inr q ↦ rw q (
                  take_match-Met buf s (s.constraints_failed || (h.0.mandatory && not matched)) h.0
                    (if matched then get_elem? s.tlvs s.tlv_at else none) matched sound
                    (λ f. (or_false s.constraints_failed _ f).0)
                    (λ m. rw m (has_tlv-fits (get_elem? s.tlvs s.tlv_at) (some h.0) (fit' m))) h.2)
            ])
  ]

  advance_tlv-Met : (s : Sched W) (matched : Bool) → Met matched s → Met matched (advance_tlv s)
  unfolding advance_tlv
  advance_tlv-Met s matched h = elim (get_elem?-cases s.tlvs s.tlv_at) [
    | inl k ↦ rw (k.0, advance_tlv) h
    | inr k ↦
        rw (k.1, advance_tlv)
          (elim (Bool-cases
            (ltb_ℤ (pos 0) (compare_tlvtypes (some k.0) (get_elem? s.entries s.entry_at)))) [
              | inl q ↦ rw q h
              | inr q ↦ rw q (record { sound = h.sound; linked = h.linked })
            ])
  ]

  abbrev TurnSound : Turn W → Type 0
  TurnSound (next s) = IsSound s
  TurnSound (leave r s) = Unit

  -- A mandatory entry that is left without a match is a failed constraint.
  left_behind :
      (s : Sched W) (matched : Bool) (e : ConsumerEntry)
      → Met matched s
      → get_elem? s.entries s.entry_at ≡ some e
      → IsSound (record s {
        constraints_failed = s.constraints_failed || (e.mandatory && not matched);
        entry_at = s.entry_at + 1;
        entries = clear_entry s.entries (s.entry_at + 1);
      })
  left_behind s matched e h at passed i e' lt here must =
      let kept = or_false s.constraints_failed _ passed in
      let here' = sym (get_elem?-clear_entry s.entries (s.entry_at + 1) i (omega arith)) ∙ here in
      elim (Bool-cases (i == s.entry_at)) [
        | inr other ↦ h.sound kept.0 i e' (ground arith) here' must
        | inl same ↦
            let here'' = ap (get_elem? s.entries) (sym (ground arith)) ∙ here' in
            let e_eq : e ≡ e' = some_inj (sym at ∙ here'') in
            let e_must : e.mandatory ≡ true = ap (λ e. e.mandatory) e_eq ∙ must in
            h.linked (excused e.mandatory matched kept.1 e_must) e' here''
      ]

  advance_entry-IsSound :
      (s : Sched W) (matched : Bool) → Met matched s → IsSound (advance_entry s matched)
  unfolding advance_entry
  advance_entry-IsSound s matched h = elim (get_elem?-cases s.entries s.entry_at) [
    | inl k ↦ rw (k.0, advance_entry) h.sound
    | inr k ↦
        rw (k.1, advance_entry)
          (elim (Bool-cases
            (ltb_ℤ (pos 0) (compare_tlvtypes (get_elem? s.tlvs s.tlv_at) (some k.0)))) [
              | inl q ↦ rw q (left_behind s matched k.0 h k.1)
              | inr q ↦ rw q h.sound
            ])
  ]

  -- What the comparison needs of a match is known in each round.
  advance-IsSound :
      (buf : List ℕ) (s : Sched W) (matched : Bool)
      → IsSound s
      → (matched ≡ true
          → optional_fits (get_elem? s.tlvs s.tlv_at) (get_elem? s.entries s.entry_at) ≡ true)
      → Ends AnyFault (λ t. TurnSound t) (advance buf s matched)
  unfolding advance
  advance-IsSound buf s matched sound fit =
      Ends-bind AnyFault (Met matched) TurnSound (meet_entry buf s matched) _
        (meet_entry-Met buf s matched sound fit)
        λ s1 met. advance_entry-IsSound (advance_tlv s1) matched (advance_tlv-Met s1 matched met)

  schedule_turn-IsSound :
      (consumer : Consumer W) (buf : List ℕ) (idx : ℕ) (s : Sched W)
      → IsSound s
      → Ends AnyFault TurnSound (schedule_turn consumer buf idx s)
  schedule_turn-IsSound consumer buf idx s sound =
      schedule_turn-Ends AnyFault AnyTlv TurnSound buf idx s (λ t u. tt) (λ t u. tt)
        (λ s1 matched h.
          advance-IsSound buf s1 matched
            (λ f i. rw (h.entries, h.entry_at) (sound (sym h.failed ∙ f) i)) h.fit)
        (λ r s1. tt) consumer

  -- At the end of the lists, without a failed constraint, each mandatory entry has a TLV.
  abbrev pub AllLinked : Option (Turn W) → Type 0
  AllLinked none = Unit
  AllLinked (some (leave r s)) = Unit
  AllLinked (some (next s)) =
      s.constraints_failed ≡ false
      → (i : ℕ) (e : ConsumerEntry) → get_elem? s.entries i ≡ some e
      → e.mandatory ≡ true
      → is_null e.tlv ≡ false

  resume-AllLinked :
      (again : Sched W → Exec (Option (Turn W)))
      → ((s : Sched W) → IsSound s → Ends AnyFault AllLinked (again s))
      → (t : Turn W) → TurnSound t
      → Ends AnyFault AllLinked (resume again t)
  resume-AllLinked again k (next s) h = k s h
  resume-AllLinked again k (leave r s) h = tt

  at_ends-AllLinked : (s : Sched W) → at_ends s ≡ true → IsSound s → AllLinked (some (next s))
  at_ends-AllLinked s stop sound passed i e here must = elim (get_elem?-cases s.entries i) [
    | inl k ↦ absurd cc
    | inr k ↦ sound passed i e (ground (arith, k.2, stop)) here must
  ]

  schedule_loop-AllLinked :
      (fuel : ℕ) (consumer : Consumer W) (buf : List ℕ) (idx : ℕ) (s : Sched W)
      → IsSound s
      → Ends AnyFault AllLinked (schedule_loop fuel consumer buf idx s)
  unfolding schedule_loop
  schedule_loop-AllLinked zero consumer buf idx s sound = tt
  schedule_loop-AllLinked (suc fuel) consumer buf idx s sound = elim (Bool-cases (at_ends s)) [
    | inl stop ↦ rw (stop, schedule_loop) (at_ends-AllLinked s stop sound)
    | inr going ↦
        rw (going, schedule_loop)
          (Ends-bind AnyFault TurnSound AllLinked (schedule_turn consumer buf idx s) _
            (schedule_turn-IsSound consumer buf idx s sound)
            (resume-AllLinked (schedule_loop fuel consumer buf idx)
              (schedule_loop-AllLinked fuel consumer buf idx)))
  ]

-- The walk of the two lists does not run out of rounds; and where it comes to the ends of both
-- without a failed constraint, which is when the consumer's `block_callback` is called, each
-- mandatory entry has a TLV linked to it, whatever the callback of the single TLVs returns.
pub schedule_loop-AllLinked_lem :
    {W : Type 0} (consumer : Consumer W) (buf : List ℕ) (idx : ℕ) (tlvs : List TlvEntry)
    (context : Context) (world : W)
    → Ends AnyFault
        (λ o. HasEnded o × AllLinked o)
        (schedule_loop
          (suc (length tlvs + length consumer.entries))
          consumer
          buf
          idx
          (start_sched consumer tlvs context world))
unfolding start_sched
schedule_loop-AllLinked_lem consumer buf idx tlvs context world =
    let start = start_sched consumer tlvs context world in
    Ends-and AnyFault HasEnded AllLinked _ (start_loop-HasEnded consumer buf idx tlvs context world)
      (schedule_loop-AllLinked (suc (length tlvs + length consumer.entries)) consumer buf idx start
        λ f i e lt. absurd (omega arith))
