-- ===== src/Rfc5444/Reader/Schedule.antt =====
-- `_schedule_tlvblock` (src-api/rfc5444/rfc5444_reader.c): a consumer's entries and the TLVs of a
-- block, both in order, are walked side by side. The pointers `tlv` and `cons_entry` are places in
-- the two lists, behind the end for NULL.
pub mod Moves
pub mod Turns
pub mod Ending
pub mod Linked
pub mod Constraints
pub mod Uncovered
pub mod Values
pub mod Safe
use oonf_api.Base.Exec.{Exec, done, fault, out_of_bounds, ◌>>=◌}
use oonf_api.Base.Int.{ℤ, pos, negsuc, ltb_ℤ}
use oonf_api.Base.{
  ℕ, zero, suc, ◌+◌, ◌-◌, ◌*◌, Bool, true, false, not, ◌&&◌, ◌||◌, ◌==◌, ltb, leb, if◌then◌else◌,
  List, [], ◌∷◌, ◌++◌, length, get_elem?, set, Option, none, some,
}
use oonf_api.Common.Autobuf.{store}
use oonf_api.Common.SortedTree.{is_zero}
use oonf_api.Rfc5444.Reader.Consumer.{
  Context, ConsumerEntry, Reply, Consumer, compare_tlvtypes, set_addr_bitarray, test_addrbitarray,
}
use oonf_api.Rfc5444.Reader.Cursor.{read_block}
use oonf_api.Rfc5444.Reader.Linking.{
  is_index_match, select_value, length_fails, copy_first, is_null, link_tlv, clear_entry,
  drop_tlv_at, drop_linked, set_drops, drop_tlvs, clear_drops, cleanup_entries, fits,
}
use oonf_api.Rfc5444.Reader.Tlv.{TlvEntry}
use oonf_api.Rfc5444.Result.{RfcResult, okay, drop_tlv, is_okay}

abbrev pub is_drop_tlv : RfcResult → Bool
is_drop_tlv drop_tlv = true
is_drop_tlv _ = false

pub record Sched (W : Type 0) : Type 0 where
  pub tlv_at : ℕ
  pub entry_at : ℕ
  pub constraints_failed : Bool
  pub tlvs : List TlvEntry
  pub entries : List ConsumerEntry
  pub context : Context
  pub world : W

-- A round goes on, or jumps to the end with a result.
pub data Turn (W : Type 0) : Type 0 where
  next : Sched W → Turn W
  leave : RfcResult → Sched W → Turn W

module _ {W : Type 0} where
  unfoldable pub note : Reply W → Sched W → Sched W
  note reply s = record s {
    world = reply.world;
    context = record (s.context) { do_not_forward = s.context.do_not_forward || reply.prevent };
  }

  -- The part for a match: the TLV that fits to the entry, or none.
  unfoldable pub take_match :
      List ℕ → Sched W → Bool → ConsumerEntry → Option TlvEntry → Exec (Sched W)
  unfolding length_fails link_tlv
  take_match buf s failed e none = done (record s { constraints_failed = failed })
  take_match buf s failed e (some t) = link_tlv buf e t s.tlv_at >>= (λ e'. done (record s {
    constraints_failed = failed || length_fails e t;
    entries = set s.entries s.entry_at e';
  }))

  -- The part for `_compare_tlvtypes(tlv, cons_entry) >= 0`.
  unfoldable pub meet_entry : List ℕ → Sched W → Bool → Exec (Sched W)
  unfolding compare_tlvtypes take_match
  meet_entry buf s matched = elim (get_elem? s.entries s.entry_at) [
    | none ↦ done s
    | some e ↦
        if ltb_ℤ (compare_tlvtypes (get_elem? s.tlvs s.tlv_at) (some e)) (pos 0)
        then done s
        else take_match buf s (s.constraints_failed || (e.mandatory && not matched)) e
            (if matched then get_elem? s.tlvs s.tlv_at else none)
  ]

  -- The next TLV, if this one is not behind the entry.
  unfoldable pub advance_tlv : Sched W → Sched W
  unfolding compare_tlvtypes
  advance_tlv s = elim (get_elem? s.tlvs s.tlv_at) [
    | none ↦ s
    | some t ↦
        if ltb_ℤ (pos 0) (compare_tlvtypes (some t) (get_elem? s.entries s.entry_at))
        then s
        else record s { tlv_at = s.tlv_at + 1 }
  ]

  -- The next entry, if this one is behind the entry that the TLV belongs to.
  unfoldable pub advance_entry : Sched W → Bool → Sched W
  unfolding compare_tlvtypes clear_entry
  advance_entry s matched = elim (get_elem? s.entries s.entry_at) [
    | none ↦ s
    | some e ↦
        if ltb_ℤ (pos 0) (compare_tlvtypes (get_elem? s.tlvs s.tlv_at) (some e))
        then record s {
          constraints_failed = s.constraints_failed || (e.mandatory && not matched);
          entry_at = s.entry_at + 1;
          entries = clear_entry s.entries (s.entry_at + 1);
        }
        else s
  ]

  unfoldable pub advance : List ℕ → Sched W → Bool → Exec (Turn W)
  unfolding meet_entry advance_tlv advance_entry
  advance buf s matched = do
    s1 ← meet_entry buf s matched
    done (next (advance_entry (advance_tlv s1) matched))

  -- The part for the callback of each TLV, with its reply.
  unfoldable pub take_reply : List ℕ → ℕ → TlvEntry → Sched W → Bool → Reply W → Exec (Turn W)
  unfolding drop_tlv_at advance note
  take_reply buf idx t s matched reply =
      let s1 = note reply s in
      if is_drop_tlv reply.result
      then advance buf (record s1 { tlvs = set s1.tlvs s1.tlv_at (drop_tlv_at t idx) }) false
      else if is_okay reply.result
      then advance buf s1 matched
      else done (leave reply.result s1)

  unfoldable pub call_tlv :
      Option (TlvEntry → Context → W → Reply W)
      → List ℕ
      → ℕ
      → TlvEntry
      → Sched W
      → Bool
      → Exec (Turn W)
  unfolding take_reply advance
  call_tlv none buf idx t s matched = advance buf s matched
  call_tlv (some callback) buf idx t s matched =
      take_reply buf idx t s matched (callback t s.context s.world)

  -- A round of the loop for the address `idx`.
  unfoldable pub schedule_turn : Consumer W → List ℕ → ℕ → Sched W → Exec (Turn W)
  unfolding is_index_match select_value compare_tlvtypes advance call_tlv
  schedule_turn consumer buf idx s = elim (get_elem? s.tlvs s.tlv_at) [
    | none ↦ advance buf s false
    | some t ↦
        let index_match = is_index_match t idx in
        let t1 = if index_match then select_value t idx else t in
        call_tlv (if index_match then consumer.tlv_callback else none) buf idx t1
          (record s { tlvs = set s.tlvs s.tlv_at t1 })
          (index_match && fits t (get_elem? s.entries s.entry_at))
  ]

  abbrev pub at_ends : Sched W → Bool
  at_ends s = leb (length s.entries) s.entry_at && leb (length s.tlvs) s.tlv_at

  -- The next round, or the jump to the end.
  abbrev pub resume : (Sched W → Exec (Option (Turn W))) → Turn W → Exec (Option (Turn W))
  resume again (next s) = again s
  resume again (leave r s) = done (some (leave r s))

  -- The loop on fuel, no state when the fuel is used up.
  unfoldable pub schedule_loop : ℕ → Consumer W → List ℕ → ℕ → Sched W → Exec (Option (Turn W))
  unfolding schedule_turn
  schedule_loop zero consumer buf idx s = done none
  schedule_loop (suc fuel) consumer buf idx s = elim (at_ends s) [
    | true ↦ done (some (next s))
    | false ↦ schedule_turn consumer buf idx s >>= resume (schedule_loop fuel consumer buf idx)
  ]

  -- The call of the consumer for the whole block.
  unfoldable pub call_block : Consumer W → ℕ → Sched W → RfcResult × Sched W
  unfolding note set_drops drop_tlvs clear_drops
  call_block consumer idx s =
      elim (if s.constraints_failed
        then consumer.block_callback_failed_constraints
        else consumer.block_callback) [
          | none ↦ (okay, s)
          | some callback ↦
              let reply = callback s.context s.entries s.world in
              let s1 = note reply (record s { entries = set_drops s.entries reply.drops }) in
              if is_drop_tlv reply.result
              then (
                okay,
                record s1 {
                  tlvs = drop_tlvs idx s1.tlvs s1.entries;
                  entries = clear_drops s1.entries;
                },
              )
              else (reply.result, s1)
        ]

  -- Where the loop starts.
  unfoldable pub start_sched : Consumer W → List TlvEntry → Context → W → Sched W
  unfolding clear_entry
  start_sched consumer tlvs context world = record {
    tlv_at = 0;
    entry_at = 0;
    constraints_failed = false;
    tlvs = tlvs;
    entries = clear_entry consumer.entries 0;
    context = context;
    world = world;
  }

  -- The end of the function, behind the loop; a jump leads to the clean-up of the entries.
  unfoldable pub finish_block : Consumer W → ℕ → Option (Turn W) → Option (RfcResult × Sched W)
  unfolding call_block cleanup_entries
  finish_block consumer idx none = none
  finish_block consumer idx (some (leave r s)) =
      some (r, record s { entries = cleanup_entries s.entries })
  finish_block consumer idx (some (next s)) =
      let (r, s1) = call_block consumer idx s in
      some (r, record s1 { entries = cleanup_entries s1.entries })

  unfoldable pub schedule_tlvblock :
      Consumer W → List ℕ → ℕ → List TlvEntry → Context → W → Exec (Option (RfcResult × Sched W))
  unfolding start_sched schedule_loop finish_block
  schedule_tlvblock consumer buf idx tlvs context world =
      schedule_loop (suc (length tlvs + length consumer.entries)) consumer buf idx
        (start_sched consumer tlvs context world)
      >>= (λ t. done (finish_block consumer idx t))
