-- ===== src/Rfc5444/Reader/Linking.antt =====
-- What `_schedule_tlvblock` (src-api/rfc5444/rfc5444_reader.c) does with a single TLV and a single entry
-- of a consumer: the test of the address, the value for it, the link to the entry, and drops.
use oonf_api.Base.Exec.{Exec, done, fault, out_of_bounds, ◌>>=◌}
use oonf_api.Base.{
  ℕ, ◌+◌, ◌-◌, ◌*◌, Bool, true, false, not, ◌&&◌, ◌||◌, ltb, leb, if◌then◌else◌, List, [], ◌∷◌,
  ◌++◌, get_elem?, set, Option, none, some,
}
use oonf_api.Common.Autobuf.{store}
use oonf_api.Common.SortedTree.{is_zero}
use oonf_api.Rfc5444.Reader.Consumer.{
  ConsumerEntry, compare_tlvtypes, set_addr_bitarray, test_addrbitarray,
}
use oonf_api.Rfc5444.Reader.Cursor.{read_block}
use oonf_api.Rfc5444.Reader.Tlv.{TlvEntry}

unfoldable pub is_index_match : TlvEntry → ℕ → Bool
unfolding test_addrbitarray
is_index_match tlv idx =
    not (test_addrbitarray tlv.int_drop_tlv idx) && (leb tlv.index1 idx && leb idx tlv.index2)

-- The value for one address, of a TLV with a value for each.
unfoldable pub select_value : TlvEntry → ℕ → TlvEntry
select_value tlv idx =
    if tlv.multivalue
    then record tlv {
      single_value = elim tlv.value [
        | none ↦ none
        | some v ↦ some (v + (idx - tlv.index1) * tlv.length)
      ];
    }
    else tlv

unfoldable pub length_fails : ConsumerEntry → TlvEntry → Bool
length_fails e tlv = e.match_length && (ltb tlv.length e.min_length || ltb e.max_length tlv.length)

-- The value is copied for the first TLV of an entry.
unfoldable pub copy_first : List ℕ → ConsumerEntry → TlvEntry → Exec (Option (List ℕ))
unfolding read_block store
copy_first buf e tlv = elim e.copy_value [
  | none ↦ done none
  | some target ↦ if not (ltb 0 tlv.length) then done (some target) else elim tlv.single_value [
    | none ↦ fault out_of_bounds
    | some v ↦
        read_block buf v (if ltb tlv.length e.max_length then tlv.length else e.max_length)
        >>= (λ bytes. store target 0 bytes >>= (λ t. done (some t)))
  ]
]

abbrev pub is_null : {A : Type 0} → List A → Bool
is_null [] = true
is_null (x ∷ xs) = false

-- A TLV that fits to an entry is the entry's first one, or stands at the end of its list.
unfoldable pub link_tlv : List ℕ → ConsumerEntry → TlvEntry → ℕ → Exec ConsumerEntry
unfolding copy_first
link_tlv buf e tlv at =
    if is_null e.tlv
    then (do copied ← copy_first buf e tlv; done (record e { tlv = at ∷ []; copy_value = copied }))
    else done (record e { tlv = e.tlv ++ (at ∷ []) })

-- `cons_entry->tlv = NULL` for the entry at a place.
unfoldable pub clear_entry : List ConsumerEntry → ℕ → List ConsumerEntry
clear_entry entries at = elim (get_elem? entries at) [
  | none ↦ entries
  | some e ↦ set entries at (record e { tlv = [] })
]

-- `_set_addr_bitarray(&tlv->int_drop_tlv, idx)`
unfoldable pub drop_tlv_at : TlvEntry → ℕ → TlvEntry
unfolding set_addr_bitarray
drop_tlv_at t idx = record t { int_drop_tlv = set_addr_bitarray t.int_drop_tlv idx }

unfoldable pub drop_linked : ℕ → List TlvEntry → ℕ → List TlvEntry
unfolding drop_tlv_at
drop_linked idx tlvs at = elim (get_elem? tlvs at) [
  | none ↦ tlvs
  | some t ↦ set tlvs at (drop_tlv_at t idx)
]

-- The flags that the callback of the block has set.
unfoldable pub set_drops : List ConsumerEntry → List Bool → List ConsumerEntry
set_drops [] drops = []
set_drops (e ∷ entries) [] = e ∷ entries
set_drops (e ∷ entries) (d ∷ drops) = record e { drop = e.drop || d } ∷ set_drops entries drops

-- The drop of the TLVs of all entries with the flag: the first TLV of each.
unfoldable pub drop_tlvs : ℕ → List TlvEntry → List ConsumerEntry → List TlvEntry
unfolding drop_linked
drop_tlvs idx tlvs [] = tlvs
drop_tlvs idx tlvs (e ∷ entries) = elim e.tlv [
  | [] ↦ drop_tlvs idx tlvs entries
  | at ∷ more ↦
      if e.drop then drop_tlvs idx (drop_linked idx tlvs at) entries else drop_tlvs idx tlvs entries
]

unfoldable pub clear_drops : List ConsumerEntry → List ConsumerEntry
clear_drops [] = []
clear_drops (e ∷ entries) =
    (if is_null e.tlv then e else record e { drop = false }) ∷ clear_drops entries

-- The part under `DEBUG_CLEANUP` at the end of `_schedule_tlvblock`.
unfoldable pub cleanup_entries : List ConsumerEntry → List ConsumerEntry
cleanup_entries [] = []
cleanup_entries (e ∷ entries) = record e { tlv = []; drop = false } ∷ cleanup_entries entries

abbrev pub fits : TlvEntry → Option ConsumerEntry → Bool
fits t none = false
fits t (some e) = is_zero (compare_tlvtypes (some t) (some e))
