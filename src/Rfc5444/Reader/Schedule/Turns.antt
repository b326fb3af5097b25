-- ===== src/Rfc5444/Reader/Schedule/Turns.antt =====
-- What a round of the loop of `_schedule_tlvblock` (src-api/rfc5444/rfc5444_reader.c) does, in front of
-- the comparison of the two places.
use oonf_api.Base.Exec.{Fault, Ends}
use oonf_api.Base.{
  ℕ, ◌≡◌, refl, ap, ◌∙◌, Bool, true, false, Bool-cases, inl, inr, ◌&&◌, and_both, if◌then◌else◌,
  List, length, get_elem?, set, length-set, Every, Every-set, get_elem?-set_self, get_elem?-cases,
  Option, none, some,
}
use oonf_api.Rfc5444.Reader.Consumer.{Context, ConsumerEntry, Consumer, Reply, compare_tlvtypes}
use oonf_api.Rfc5444.Reader.Linking.{fits, drop_tlv_at, is_index_match, select_value}
use oonf_api.Rfc5444.Reader.Schedule.{
  Sched, Turn, leave, note, advance, take_reply, call_tlv, schedule_turn, is_drop_tlv,
}
use oonf_api.Rfc5444.Reader.Tlv.{TlvEntry}
use oonf_api.Rfc5444.Result.{RfcResult, is_okay}
use mathlib.Core.Bool.{false≢true}

-- Nothing is asked of the TLVs.
abbrev pub AnyTlv : TlvEntry → Type 0
AnyTlv t = Unit

abbrev pub optional_fits : Option TlvEntry → Option ConsumerEntry → Bool
optional_fits none e = false
optional_fits (some t) e = fits t e

fits-select_value :
    (t : TlvEntry) (idx : ℕ) (e : Option ConsumerEntry) (b : Bool)
    → (b && fits t e) ≡ true
    → fits (if b then select_value t idx else t) e ≡ true
unfolding select_value compare_tlvtypes
fits-select_value t idx e false h = absurd (false≢true h)
fits-select_value t idx none true h = absurd (false≢true h)
fits-select_value t idx (some e) true h = elim (Bool-cases t.multivalue) [
  | inl q ↦ rw q h
  | inr q ↦ rw q h
]

if_true : (b : Bool) (x y : TlvEntry) → b ≡ true → (if b then x else y) ≡ x
if_true true x y h = refl
if_true false x y h = absurd (false≢true h)

module _ {W : Type 0} where
  -- The places, the entries and the flag are the same, and a match is one.
  pub record Before (P : TlvEntry → Type 0) (idx : ℕ) (s s1 : Sched W) (matched : Bool)
      : Type 0 where
    pub tlv_at : s1.tlv_at ≡ s.tlv_at
    pub entry_at : s1.entry_at ≡ s.entry_at
    pub failed : s1.constraints_failed ≡ s.constraints_failed
    pub entries : s1.entries ≡ s.entries
    pub stay : Every P s.tlvs → Every P s1.tlvs
    pub chosen :
        matched ≡ true
        → (t : TlvEntry) × (is_index_match t idx ≡ true)
          × (get_elem? s.tlvs s.tlv_at ≡ some t)
          × (get_elem? s1.tlvs s1.tlv_at ≡ some (select_value t idx))
    pub tlvs : length s1.tlvs ≡ length s.tlvs
    pub fit :
        matched ≡ true
        → optional_fits (get_elem? s1.tlvs s1.tlv_at) (get_elem? s1.entries s1.entry_at) ≡ true

  module _ (F : Fault → Type 0) (P : TlvEntry → Type 0) (Q : Turn W → Type 0) (buf : List ℕ)
      (idx : ℕ) (s : Sched W) (on_select : (t : TlvEntry) → P t → P (select_value t idx))
      (on_drop : (t : TlvEntry) → P t → P (drop_tlv_at t idx))
      (on_advance : (s1 : Sched W) (matched : Bool)
        → Before P idx s s1 matched
        → Ends F Q (advance buf s1 matched))
      (on_leave : (r : RfcResult) (s1 : Sched W) → Q (leave r s1)) where
    take_reply-Ends :
        (t : TlvEntry) (s1 : Sched W) (matched : Bool) (reply : Reply W)
        → (Every P s.tlvs → P t)
        → Before P idx s s1 matched
        → Ends F Q (take_reply buf idx t s1 matched reply)
    unfolding take_reply note
    take_reply-Ends t s1 matched reply pt h = elim (Bool-cases (is_drop_tlv reply.result)) [
      | inl dropped ↦ rw dropped (
          on_advance (record (note reply s1) { tlvs = set s1.tlvs s1.tlv_at (drop_tlv_at t idx) })
            false
            (record {
              tlv_at = h.tlv_at;
              entry_at = h.entry_at;
              failed = h.failed;
              entries = h.entries;
              stay = λ ev. Every-set P s1.tlvs s1.tlv_at _ (on_drop t (pt ev)) (h.stay ev);
              chosen = λ e. absurd (false≢true e);
              tlvs = length-set s1.tlvs s1.tlv_at _ ∙ h.tlvs;
              fit = λ e. absurd (false≢true e);
            }))
      | inr kept ↦ rw kept (elim (Bool-cases (is_okay reply.result)) [
        | inl good ↦ rw good (
            on_advance (note reply s1) matched (record {
              tlv_at = h.tlv_at;
              entry_at = h.entry_at;
              failed = h.failed;
              entries = h.entries;
              stay = h.stay;
              chosen = h.chosen;
              tlvs = h.tlvs;
              fit = h.fit;
            }))
        | inr bad ↦ rw bad (on_leave reply.result (note reply s1))
      ])
    ]

    call_tlv-Ends :
        (callback : Option (TlvEntry → Context → W → Reply W)) (t : TlvEntry) (s1 : Sched W)
        (matched : Bool)
        → (Every P s.tlvs → P t)
        → Before P idx s s1 matched
        → Ends F Q (call_tlv callback buf idx t s1 matched)
    unfolding call_tlv
    call_tlv-Ends none t s1 matched pt h = on_advance s1 matched h
    call_tlv-Ends (some callback) t s1 matched pt h =
        take_reply-Ends t s1 matched (callback t s1.context s1.world) pt h

    selected_lem : (b : Bool) (t : TlvEntry) → P t → P (if b then select_value t idx else t)
    selected_lem true t h = on_select t h
    selected_lem false t h = h

    -- A round either goes on from a state as before, or leaves the loop.
    pub schedule_turn-Ends : (consumer : Consumer W) → Ends F Q (schedule_turn consumer buf idx s)
    unfolding schedule_turn
    schedule_turn-Ends consumer = elim (get_elem?-cases s.tlvs s.tlv_at) [
      | inl h ↦
          rw (h.0, schedule_turn)
            (on_advance s false (record {
              tlv_at = refl;
              entry_at = refl;
              failed = refl;
              entries = refl;
              stay = λ ev. ev;
              chosen = λ e. absurd (false≢true e);
              tlvs = refl;
              fit = λ e. absurd (false≢true e);
            }))
      | inr h ↦
          let index_match = is_index_match h.0 idx in
          let t1 = if index_match then select_value h.0 idx else h.0 in
          let e = get_elem? s.entries s.entry_at in
          let pt : Every P s.tlvs → P t1 =
            λ ev. selected_lem index_match h.0 (ev s.tlv_at h.0 h.1) in
          rw (h.1, schedule_turn)
            (call_tlv-Ends (if index_match then consumer.tlv_callback else none) t1
              (record s { tlvs = set s.tlvs s.tlv_at t1 }) (index_match && fits h.0 e) pt
              (record {
                tlv_at = refl;
                entry_at = refl;
                failed = refl;
                entries = refl;
                stay = λ ev. Every-set P s.tlvs s.tlv_at t1 (pt ev) ev;
                chosen = λ m.
                    let matches = (and_both index_match (fits h.0 e) m).0 in
                    (
                      h.0,
                      matches,
                      h.1,
                      get_elem?-set_self s.tlvs s.tlv_at t1 h.2
                          ∙ ap some (if_true index_match (select_value h.0 idx) h.0 matches),
                    );
                tlvs = length-set s.tlvs s.tlv_at t1;
                fit = λ m.
                    ap (λ o. optional_fits o e) (get_elem?-set_self s.tlvs s.tlv_at t1 h.2)
                    ∙ fits-select_value h.0 idx e index_match m;
              }))
    ]
