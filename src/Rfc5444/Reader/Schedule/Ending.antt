-- ===== src/Rfc5444/Reader/Schedule/Ending.antt =====
-- The loop of `_schedule_tlvblock` (src-api/rfc5444/rfc5444_reader.c) ends.
use oonf_api.Base.Exec.{AnyFault, Exec, Ends, Ends-bind}
use oonf_api.Base.{
  ℕ, zero, suc, ◌+◌, ◌≤◌, ◌<◌, ◌≡◌, ap, Bool, false, Bool-cases, inl, inr, List, length, Option,
  none, some, arith,
}
use oonf_api.Rfc5444.Reader.Fuel.{HasEnded}
use oonf_api.Rfc5444.Reader.Consumer.{Consumer, Context}
use oonf_api.Rfc5444.Reader.Schedule.{
  Sched, Turn, next, leave, meet_entry, advance, schedule_turn, schedule_loop, at_ends, resume,
  finish_block, schedule_tlvblock, start_sched,
}
use oonf_api.Rfc5444.Reader.Tlv.{TlvEntry}
use oonf_api.Rfc5444.Reader.Schedule.Turns.{Before, schedule_turn-Ends, AnyTlv}
use oonf_api.Rfc5444.Reader.Schedule.Moves.{
  length-clear_entry, Same, Same-trans, Same-at_ends, Same-Progress, meet_entry-Same, Progress,
  advance-Progress,
}

module _ {W : Type 0} where
  -- What a round leaves, if it goes on.
  abbrev pub TurnFrom : Sched W → Turn W → Type 0
  TurnFrom s (next s') = Progress s s'
  TurnFrom s (leave r s') = Unit

  advance-TurnFrom :
      (buf : List ℕ) (s s1 : Sched W) (matched : Bool)
      → Same s s1
      → at_ends s ≡ false
      → Ends AnyFault (TurnFrom s) (advance buf s1 matched)
  unfolding advance
  advance-TurnFrom buf s s1 matched h going =
      Ends-bind AnyFault (Same s1) (TurnFrom s) (meet_entry buf s1 matched) _
        (meet_entry-Same buf s1 matched)
        λ s2 k.
          let same = Same-trans s s1 s2 h k in
          Same-Progress s s2 _ same (advance-Progress s2 matched (Same-at_ends s s2 same going))

  Before-Same :
      (idx : ℕ) (s s1 : Sched W) (matched : Bool) → Before AnyTlv idx s s1 matched → Same s s1
  Before-Same idx s s1 matched h = record {
    tlvs = h.tlvs;
    entries = ap length h.entries;
    tlv_at = h.tlv_at;
    entry_at = h.entry_at;
  }

  schedule_turn-TurnFrom :
      (consumer : Consumer W) (buf : List ℕ) (idx : ℕ) (s : Sched W)
      → at_ends s ≡ false
      → Ends AnyFault (TurnFrom s) (schedule_turn consumer buf idx s)
  schedule_turn-TurnFrom consumer buf idx s going =
      schedule_turn-Ends AnyFault AnyTlv (TurnFrom s) buf idx s (λ t u. tt) (λ t u. tt)
        (λ s1 matched h. advance-TurnFrom buf s s1 matched (Before-Same idx s s1 matched h) going)
        (λ r s1. tt) consumer

  resume-HasEnded :
      (s : Sched W) (again : Sched W → Exec (Option (Turn W)))
      → ((s' : Sched W) → Progress s s' → Ends AnyFault HasEnded (again s'))
      → (t : Turn W) → TurnFrom s t
      → Ends AnyFault HasEnded (resume again t)
  resume-HasEnded s again k (next s') h = k s' h
  resume-HasEnded s again k (leave r s') h = tt

  schedule_loop-HasEnded :
      (fuel : ℕ) (consumer : Consumer W) (buf : List ℕ) (idx : ℕ) (s : Sched W)
      → s.tlv_at ≤ length s.tlvs
      → s.entry_at ≤ length s.entries
      → length s.tlvs + length s.entries < fuel + (s.tlv_at + s.entry_at)
      → Ends AnyFault HasEnded (schedule_loop fuel consumer buf idx s)
  unfolding schedule_loop
  schedule_loop-HasEnded zero consumer buf idx s t_in e_in enough = absurd (omega arith)
  schedule_loop-HasEnded (suc fuel) consumer buf idx s t_in e_in enough =
      elim (Bool-cases (at_ends s)) [
        | inl stop ↦ rw (stop, schedule_loop) tt
        | inr going ↦
            rw (going, schedule_loop)
              (Ends-bind AnyFault (TurnFrom s) HasEnded (schedule_turn consumer buf idx s) _
                (schedule_turn-TurnFrom consumer buf idx s going)
                (resume-HasEnded s _ λ s' h.
                  schedule_loop-HasEnded fuel consumer buf idx s'
                    (omega (arith, h.keeps.tlv_in t_in, h.keeps.tlvs))
                    (omega (arith, h.keeps.entry_in e_in, h.keeps.entries))
                    (omega (arith, h.forward, h.keeps.tlvs, h.keeps.entries))))
      ]

finish_block-HasEnded :
    {W : Type 0} (consumer : Consumer W) (idx : ℕ) (t : Option (Turn W))
    → HasEnded t
    → HasEnded (finish_block consumer idx t)
unfolding finish_block
finish_block-HasEnded consumer idx none h = h
finish_block-HasEnded consumer idx (some (leave r s)) h = tt
finish_block-HasEnded consumer idx (some (next s)) h = tt

pub start_loop-HasEnded :
    {W : Type 0} (consumer : Consumer W) (buf : List ℕ) (idx : ℕ) (tlvs : List TlvEntry)
    (context : Context) (world : W)
    → Ends AnyFault HasEnded (
        schedule_loop
          (suc (length tlvs + length consumer.entries))
          consumer
          buf
          idx
          (start_sched consumer tlvs context world))
unfolding start_sched
start_loop-HasEnded consumer buf idx tlvs context world =
    let kept = length-clear_entry consumer.entries 0 in
    schedule_loop-HasEnded (suc (length tlvs + length consumer.entries)) consumer buf idx
      (start_sched consumer tlvs context world) (omega arith) (omega arith) (omega (arith, kept))

-- For all callbacks, all TLVs of a block and all entries of a consumer, the two lists are walked
-- to their ends, or a callback's result ends the walk, or the code leaves an object, within as many
-- rounds as the lists have elements.
pub schedule_tlvblock-HasEnded :
    {W : Type 0} (consumer : Consumer W) (buf : List ℕ) (idx : ℕ) (tlvs : List TlvEntry)
    (context : Context) (world : W)
    → Ends AnyFault HasEnded (schedule_tlvblock consumer buf idx tlvs context world)
unfolding schedule_tlvblock
schedule_tlvblock-HasEnded consumer buf idx tlvs context world =
    Ends-bind AnyFault HasEnded HasEnded
      (schedule_loop (suc (length tlvs + length consumer.entries)) consumer buf idx
        (start_sched consumer tlvs context world))
      _ (start_loop-HasEnded consumer buf idx tlvs context world)
      (finish_block-HasEnded consumer idx)
