-- ===== src/Rfc5444/Reader/Schedule/Safe.antt =====
-- `_schedule_tlvblock` (src-api/rfc5444/rfc5444_reader.c) stays inside the packet and inside the buffers
-- of the consumer's entries.
use oonf_api.Base.Exec.{Exec, NoFault, Ends, Ends-bind, Ends-safe}
use oonf_api.Base.Int.{pos, ltb_ℤ}
use oonf_api.Base.{
  ℕ, subst, zero, suc, ◌+◌, ◌≡◌, refl, sym, ◌∙◌, Bool, true, false, not, Bool-cases, inl, inr, ◌&&◌,
  ◌||◌, if◌then◌else◌, List, length, Every, Every-set, some_inj, get_elem?, get_elem?-cases, Option,
  none, some,
}
use oonf_api.Rfc5444.Reader.Consumer.{ConsumerEntry, Consumer, Context, compare_tlvtypes}
use oonf_api.Rfc5444.Reader.Linking.{link_tlv}
use oonf_api.Rfc5444.Reader.Fuel.{HasEnded}
use oonf_api.Rfc5444.Reader.Schedule.Ending.{schedule_tlvblock-HasEnded}
use oonf_api.Rfc5444.Reader.Schedule.Values.{
  IsReadable, HasValue, IsRoomy, select_value-IsReadable, select_value-HasValue,
  drop_tlv_at-IsReadable, clear_entry-IsRoomy, link_tlv-IsRoomy,
}
use oonf_api.Rfc5444.Reader.Schedule.Turns.{schedule_turn-Ends}
use oonf_api.Rfc5444.Reader.Schedule.{
  Sched, Turn, next, leave, take_match, meet_entry, advance_tlv, advance_entry, advance,
  schedule_turn, schedule_loop, resume, at_ends, start_sched, schedule_tlvblock,
}
use oonf_api.Rfc5444.Reader.Tlv.{TlvEntry}

module _ (buf : List ℕ) {W : Type 0} where
  -- All values lie in the packet, and all copies have room.
  abbrev pub IsSafe : Sched W → Type 0
  IsSafe s = Every (IsReadable (length buf)) s.tlvs × Every IsRoomy s.entries

  take_match-IsSafe :
      (s : Sched W) (failed : Bool) (e : ConsumerEntry) (t : Option TlvEntry)
      → IsSafe s
      → IsRoomy e
      → ((t' : TlvEntry) → t ≡ some t' → HasValue (length buf) t')
      → Ends NoFault IsSafe (take_match buf s failed e t)
  unfolding take_match
  take_match-IsSafe s failed e none safe roomy value = safe
  take_match-IsSafe s failed e (some t) safe roomy value =
      Ends-bind NoFault IsRoomy IsSafe (link_tlv buf e t s.tlv_at) _
        (link_tlv-IsRoomy buf e t s.tlv_at roomy (value t refl))
        λ e' h. (safe.0, Every-set IsRoomy s.entries s.entry_at e' h safe.1)

  meet_entry-IsSafe :
      (s : Sched W) (matched : Bool)
      → IsSafe s
      → (matched ≡ true
          → (t : TlvEntry) → get_elem? s.tlvs s.tlv_at ≡ some t
          → HasValue (length buf) t)
      → Ends NoFault IsSafe (meet_entry buf s matched)
  unfolding meet_entry
  meet_entry-IsSafe s matched safe value = elim (get_elem?-cases s.entries s.entry_at) [
    | inl h ↦ rw (h.0, meet_entry) safe
    | inr h ↦
        rw (h.1, meet_entry)
          (elim (Bool-cases
            (ltb_ℤ (compare_tlvtypes (get_elem? s.tlvs s.tlv_at) (some h.0)) (pos 0))) [
              | inl q ↦ rw q safe
              | inr q ↦ rw q (
                  take_match-IsSafe s (s.constraints_failed || (h.0.mandatory && not matched)) h.0
                    (if matched then get_elem? s.tlvs s.tlv_at else none) safe
                    (safe.1 s.entry_at h.0 h.1) (if_matched matched value))
            ])
  ]
    where
      if_matched :
          (m : Bool)
          → (m ≡ true
              → (t : TlvEntry) → get_elem? s.tlvs s.tlv_at ≡ some t
              → HasValue (length buf) t)
          → (t : TlvEntry) → (if m then get_elem? s.tlvs s.tlv_at else none) ≡ some t
          → HasValue (length buf) t
      if_matched true v t e = v refl t e
      if_matched false v t e = absurd cc

  advance_tlv-IsSafe : (s : Sched W) → IsSafe s → IsSafe (advance_tlv s)
  unfolding advance_tlv
  advance_tlv-IsSafe s h = elim (get_elem?-cases s.tlvs s.tlv_at) [
    | inl k ↦ rw (k.0, advance_tlv) h
    | inr k ↦
        rw (k.1, advance_tlv)
          (elim (Bool-cases
            (ltb_ℤ (pos 0) (compare_tlvtypes (some k.0) (get_elem? s.entries s.entry_at)))) [
              | inl q ↦ rw q h
              | inr q ↦ rw q h
            ])
  ]

  advance_entry-IsSafe :
      (s : Sched W) (matched : Bool) → IsSafe s → IsSafe (advance_entry s matched)
  unfolding advance_entry
  advance_entry-IsSafe s matched h = elim (get_elem?-cases s.entries s.entry_at) [
    | inl k ↦ rw (k.0, advance_entry) h
    | inr k ↦
        rw (k.1, advance_entry)
          (elim (Bool-cases
            (ltb_ℤ (pos 0) (compare_tlvtypes (get_elem? s.tlvs s.tlv_at) (some k.0)))) [
              | inl q ↦ rw q (h.0, clear_entry-IsRoomy s.entries (s.entry_at + 1) h.1)
              | inr q ↦ rw q h
            ])
  ]

  abbrev TurnSafe : Turn W → Type 0
  TurnSafe (next s) = IsSafe s
  TurnSafe (leave r s) = Unit

  pub schedule_turn-TurnSafe :
      (consumer : Consumer W) (idx : ℕ) (s : Sched W)
      → IsSafe s
      → Ends NoFault TurnSafe (schedule_turn consumer buf idx s)
  unfolding advance
  schedule_turn-TurnSafe consumer idx s safe =
      schedule_turn-Ends NoFault (IsReadable (length buf)) TurnSafe buf idx s
        (select_value-IsReadable (length buf) idx) (drop_tlv_at-IsReadable (length buf) idx)
        (λ s1 matched h.
          Ends-bind NoFault IsSafe TurnSafe (meet_entry buf s1 matched) _
            (meet_entry-IsSafe s1 matched
              (h.stay safe.0, subst (Every IsRoomy) (sym h.entries) safe.1)
              (λ m t at.
                let (t0, covers, at0, at1) = h.chosen m in
                subst (HasValue (length buf)) (some_inj (sym at1 ∙ at))
                  (select_value-HasValue (length buf) idx t0 covers (safe.0 s.tlv_at t0 at0))))
            λ s2 h2. advance_entry-IsSafe (advance_tlv s2) matched (advance_tlv-IsSafe s2 h2))
        (λ r s1. tt) consumer

  resume-NoFault :
      (again : Sched W → Exec (Option (Turn W)))
      → ((s : Sched W) → IsSafe s → Ends NoFault (λ o. Unit) (again s))
      → (t : Turn W) → TurnSafe t
      → Ends NoFault (λ o. Unit) (resume again t)
  resume-NoFault again k (next s) h = k s h
  resume-NoFault again k (leave r s) h = tt

  schedule_loop-NoFault :
      (fuel : ℕ) (consumer : Consumer W) (idx : ℕ) (s : Sched W)
      → IsSafe s
      → Ends NoFault (λ o. Unit) (schedule_loop fuel consumer buf idx s)
  unfolding schedule_loop
  schedule_loop-NoFault zero consumer idx s safe = tt
  schedule_loop-NoFault (suc fuel) consumer idx s safe = elim (Bool-cases (at_ends s)) [
    | inl stop ↦ rw (stop, schedule_loop) tt
    | inr going ↦
        rw (going, schedule_loop)
          (Ends-bind NoFault TurnSafe (λ o. Unit) (schedule_turn consumer buf idx s) _
            (schedule_turn-TurnSafe consumer idx s safe)
            (resume-NoFault (schedule_loop fuel consumer buf idx)
              (schedule_loop-NoFault fuel consumer idx)))
  ]

-- When the values of all TLVs lie in the packet, and each entry with a buffer for a copy has room for
-- its maximum length, the walk of a TLV block reads and writes nothing outside of them, for all
-- callbacks, and returns within its rounds.
pub schedule_tlvblock-NoFault :
    {W : Type 0} (consumer : Consumer W) (buf : List ℕ) (idx : ℕ) (tlvs : List TlvEntry)
    (context : Context) (world : W)
    → Every (IsReadable (length buf)) tlvs
    → Every IsRoomy consumer.entries
    → Ends NoFault HasEnded (schedule_tlvblock consumer buf idx tlvs context world)
unfolding schedule_tlvblock start_sched
schedule_tlvblock-NoFault consumer buf idx tlvs context world readable roomy =
    let fuel = suc (length tlvs + length consumer.entries) in
    let start = start_sched consumer tlvs context world in
    Ends-safe (λ o. Unit) HasEnded (schedule_tlvblock consumer buf idx tlvs context world)
      (Ends-bind NoFault (λ o. Unit) (λ o. Unit) (schedule_loop fuel consumer buf idx start) _
        (schedule_loop-NoFault buf fuel consumer idx start
          (readable, clear_entry-IsRoomy consumer.entries 0 roomy))
        λ o u. tt)
      (schedule_tlvblock-HasEnded consumer buf idx tlvs context world)
