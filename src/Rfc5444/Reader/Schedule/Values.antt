-- ===== src/Rfc5444/Reader/Schedule/Values.antt =====
-- The values of TLVs and the buffers for their copies, in `_schedule_tlvblock`
-- (src-api/rfc5444/rfc5444_reader.c).
use oonf_api.Base.Exec.{done, NoFault, Ends, Ends-bind}
use oonf_api.Base.{
  ℕ, ◌+◌, ◌-◌, ◌*◌, ◌≤◌, ◌≡◌, ◌≢◌, refl, sym, ap, ◌∙◌, true, false, not, Bool-cases, inl, inr, ◌&&◌,
  and_both, ltb, leb, if◌then◌else◌, List, [], length, length-append, length-take, length-drop,
  take, drop, Every, Every-set, some_inj, get_elem?-cases, Option, none, some, arith,
}
use mathlib.Core.Bool.{false≢true}
use oonf_api.Common.Autobuf.{store}
use oonf_api.Rfc5444.Reader.Consumer.{ConsumerEntry, test_addrbitarray}
use oonf_api.Rfc5444.Reader.Cursor.{read_block}
use oonf_api.Rfc5444.Reader.Linking.{
  is_index_match, select_value, drop_tlv_at, copy_first, link_tlv, is_null, clear_entry,
}
use oonf_api.Rfc5444.Reader.Tlv.{TlvEntry}

-- The value of a TLV lies inside a packet of some size: the value itself, or one for each address of its
-- range.
pub record IsReadable (size : ℕ) (t : TlvEntry) : Type 0 where
  pub one :
      t.multivalue ≡ false
      → t.length ≢ 0
      → (v : ℕ) × (t.single_value ≡ some v) × (v + t.length ≤ size)
  pub many :
      t.multivalue ≡ true
      → t.length ≢ 0
      → (v : ℕ) × (t.value ≡ some v)
        × ((k : ℕ) → t.index1 + k ≤ t.index2 → v + k * t.length + t.length ≤ size)

-- The value that is used for the present address.
abbrev pub HasValue : ℕ → TlvEntry → Type 0
HasValue size t = t.length ≢ 0 → (v : ℕ) × (t.single_value ≡ some v) × (v + t.length ≤ size)

-- The buffer for copies of the value holds the maximum length.
abbrev pub IsRoomy : ConsumerEntry → Type 0
IsRoomy e = (target : List ℕ) → e.copy_value ≡ some target → e.max_length ≤ length target

pub select_value-IsReadable :
    (size idx : ℕ) (t : TlvEntry) → IsReadable size t → IsReadable size (select_value t idx)
unfolding select_value
select_value-IsReadable size idx t h = elim (Bool-cases t.multivalue) [
  | inr q ↦ rw q (record { one = λ e. h.one q; many = λ e. absurd (false≢true e) })
  | inl q ↦ rw q (record { one = λ e. absurd (false≢true (sym e)); many = λ e. h.many q })
]

index_match_range :
    (t : TlvEntry) (idx : ℕ) → is_index_match t idx ≡ true → (t.index1 ≤ idx) × (idx ≤ t.index2)
unfolding is_index_match
index_match_range t idx covers =
    let both =
      and_both (not (test_addrbitarray t.int_drop_tlv idx)) (leb t.index1 idx && leb idx t.index2)
        covers in
    let range = and_both (leb t.index1 idx) (leb idx t.index2) both.1 in
    (ground (arith, range.0), ground (arith, range.1))

pub select_value-HasValue :
    (size idx : ℕ) (t : TlvEntry)
    → is_index_match t idx ≡ true
    → IsReadable size t
    → HasValue size (select_value t idx)
unfolding select_value is_index_match
select_value-HasValue size idx t covers h = elim (Bool-cases t.multivalue) [
  | inr q ↦ rw q (h.one q)
  | inl q ↦ rw q λ some_length.
      let (v, at, within) = h.many q some_length in
      let in_range = index_match_range t idx covers in
      (
        v + (idx - t.index1) * t.length,
        rw at refl,
        within (idx - t.index1) (ground (arith, in_range.0, in_range.1)),
      )
]

pub drop_tlv_at-IsReadable :
    (size idx : ℕ) (t : TlvEntry) → IsReadable size t → IsReadable size (drop_tlv_at t idx)
unfolding drop_tlv_at
drop_tlv_at-IsReadable size idx t h = record { one = h.one; many = h.many }

pub clear_entry-IsRoomy :
    (entries : List ConsumerEntry) (at : ℕ)
    → Every IsRoomy entries
    → Every IsRoomy (clear_entry entries at)
unfolding clear_entry
clear_entry-IsRoomy entries at h = elim (get_elem?-cases entries at) [
  | inl k ↦ rw (k.0, clear_entry) h
  | inr k ↦
      rw (k.1, clear_entry)
        (Every-set IsRoomy entries at (record (k.0) { tlv = [] }) (h at k.0 k.1) h)
]

module _ (buf : List ℕ) where
  read_block_lem : (v n : ℕ) → v + n ≤ length buf → read_block buf v n ≡ done (take n (drop v buf))
  unfolding read_block
  read_block_lem v n le =
      let inside : leb (v + n) (length buf) ≡ true = ground arith in rw inside refl

  store_lem :
      (target bytes : List ℕ)
      → length bytes ≤ length target
      → Ends NoFault (λ t. length t ≡ length target) (store target 0 bytes)
  unfolding store
  store_lem target bytes le =
      let inside : leb (0 + length bytes) (length target) ≡ true = ground arith in
      rw inside (
        omega (
          arith,
          length-append bytes (drop (0 + length bytes) target),
          length-drop (0 + length bytes) target,
          le,
        ))

  least_lem : (a b : ℕ) → ((if ltb a b then a else b) ≤ a) × ((if ltb a b then a else b) ≤ b)
  least_lem a b = ground arith

  -- The copy stays inside both buffers, and the target keeps its size.
  copy_first-IsRoomy :
      (e : ConsumerEntry) (t : TlvEntry)
      → IsRoomy e
      → HasValue (length buf) t
      → Ends NoFault
          (λ c. (target : List ℕ) → c ≡ some target → e.max_length ≤ length target)
          (copy_first buf e t)
  unfolding copy_first
  copy_first-IsRoomy e t roomy value = by_target e.copy_value refl
    where
      by_target :
          (o : Option (List ℕ))
          → e.copy_value ≡ o
          → Ends NoFault
              (λ c. (target : List ℕ) → c ≡ some target → e.max_length ≤ length target)
              (copy_first buf e t)
      by_target none q = rw (q, copy_first) (λ target e'. absurd cc)
      by_target (some target) q = elim (Bool-cases (ltb 0 t.length)) [
        | inr empty ↦ rw (q, copy_first) (rw empty λ target' e'. roomy target' (q ∙ e'))
        | inl full ↦
            let (v, at, within) = value (ground arith) in
            let n = if ltb t.length e.max_length then t.length else e.max_length in
            let (le1, le2) = least_lem t.length e.max_length in
            let bytes = take n (drop v buf) in
            let enough : length bytes ≤ length target =
              omega (arith, length-take n (drop v buf), le2, roomy target q) in
            let read = read_block_lem v n (omega (arith, le1, within)) in
            rw (q, copy_first)
              (rw full (
                rw at (
                  rw read (
                    Ends-bind NoFault (λ t. length t ≡ length target)
                      (λ c. (target' : List ℕ) → c ≡ some target' → e.max_length ≤ length target')
                      (store target 0 bytes) _ (store_lem target bytes enough)
                      λ t' same target' e'.
                        omega (arith, roomy target q, same, ap length (some_inj e'))))))
      ]

  pub link_tlv-IsRoomy :
      (e : ConsumerEntry) (t : TlvEntry) (at : ℕ)
      → IsRoomy e
      → HasValue (length buf) t
      → Ends NoFault IsRoomy (link_tlv buf e t at)
  unfolding link_tlv
  link_tlv-IsRoomy e t at roomy value = elim (Bool-cases (is_null e.tlv)) [
    | inl q ↦ rw q (
        Ends-bind NoFault (λ c. (target : List ℕ) → c ≡ some target → e.max_length ≤ length target)
          IsRoomy (copy_first buf e t) _ (copy_first-IsRoomy e t roomy value) λ c h. h)
    | inr q ↦ rw q roomy
  ]
