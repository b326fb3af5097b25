-- ===== src/DuplicateSet.antt =====
-- The duplicate set (src-api/subsystems/oonf_duplicate_set.c): for each originator and message
-- type, the newest sequence number and a history of 32 bits behind it.
pub mod Place
pub mod Window
pub mod Verdict
pub mod History
pub mod Reset
pub mod Invariant
use oonf_api.Base.{
  ℕ, ◌+◌, ◌*◌, ◌^◌, Bool, true, false, not, ◌||◌, List, [], ◌∷◌, Option, none, some, bit_and,
  bit_or, ltb, ◌==◌, if◌then◌else◌, leb,
}
use mathlib.Core.List.{foldl}
use oonf_api.Base.Int.{ℤ, pos, negsuc, pos_part, neg_part, sub_ℕ, ltb_ℤ}
use oonf_api.Base.Word.{u16, u32}
use oonf_api.Common.Netaddr.{Netaddr, avl_comp_netaddr}
use oonf_api.Common.SortedTree.{is_zero, avl_find, avl_insert}
use oonf_api.Rfc5444.Seqno.{seqno_difference}

pub data DupResult : Type 0 where
  too_old duplicate current_number new newest first : DupResult

abbrev pub maximum_too_old : ℕ
maximum_too_old = 8

pub record DupKey : Type 0 where
  pub originator : Netaddr
  pub msg_type : ℕ

-- `vtime` is the validity time that the entry's timer was last started with.
pub record Entry : Type 0 where
  pub key : DupKey
  pub history : ℕ
  pub current : ℕ
  pub too_old_count : ℕ
  pub vtime : ℕ

-- The part of `_test` for a number far behind the current one.
unfoldable pub test_too_old : Entry → ℕ → Entry × DupResult
test_too_old e seqno =
    let count = u16 (e.too_old_count + 1) in
    if ltb maximum_too_old count
    then (record e { history = 1; too_old_count = 0; current = seqno }, newest)
    else (record e { too_old_count = count }, too_old)

-- The part for a number inside the history, `back` behind the current one.
unfoldable pub test_history : Entry → ℕ → Bool → Entry × DupResult
test_history e back add =
    let bitmask = u32 (2 ^ back) in
    if not (bit_and e.history bitmask == 0)
    then (e, duplicate)
    else (if add then record e { history = bit_or e.history bitmask } else e, new)

-- The part for a number `diff` ahead of the current one.
unfoldable pub test_ahead : Entry → ℕ → ℕ → Bool → Entry × DupResult
test_ahead e seqno diff add =
    if add
    then (
      record e {
        current = seqno;
        history = if leb 32 diff then 1 else bit_or (u32 (e.history * 2 ^ diff)) 1;
      },
      newest,
    )
    else (e, newest)

-- `_test`; the second parameter `set` of the source is `add` here.
unfoldable pub test_entry : Entry → ℕ → Bool → Entry × DupResult
unfolding test_too_old test_history test_ahead
test_entry e seqno add =
    if seqno == e.current
    then (e, current_number)
    else let diff = seqno_difference seqno e.current in
      if ltb_ℤ diff (negsuc 30)
      then test_too_old e seqno
      else let counted = record e { too_old_count = 0 } in
        if not (ltb_ℤ (pos 0) diff)
        then test_history counted (neg_part diff) add
        else test_ahead counted seqno (pos_part diff) add

unfoldable pub cmp_dupkey : DupKey → DupKey → ℤ
cmp_dupkey k1 k2 =
    if not (k1.msg_type == k2.msg_type)
    then sub_ℕ k1.msg_type k2.msg_type
    else avl_comp_netaddr k1.originator k2.originator

unfoldable pub duplicate_is_new : DupResult → Bool
duplicate_is_new new = true
duplicate_is_new newest = true
duplicate_is_new first = true
duplicate_is_new _ = false

-- The entries of a set, in the order of its tree.
abbrev pub DupSet : Type 0
DupSet = List Entry

-- A change of the entry that the tree holds under its key.
unfoldable pub update : DupSet → Entry → DupSet
update [] e = []
update (x ∷ xs) e = if is_zero (cmp_dupkey e.key x.key) then e ∷ xs else x ∷ update xs e

-- Where the entry is found or not, and whether memory for a new one can be had.
unfoldable pub add_to : Option Entry → DupSet → Bool → DupKey → ℕ → ℕ → DupSet × DupResult
unfolding test_entry update avl_insert
add_to none set memory key seqno vtime = if not memory then (set, too_old) else (
  avl_insert cmp_dupkey (λ e. e.key) set
      (record { key = key; history = 1; current = seqno; too_old_count = 0; vtime = vtime }),
  first,
)
add_to (some entry) set memory key seqno vtime =
    let (tested, result) = test_entry entry seqno true in
    (
      update set (if duplicate_is_new result then record tested { vtime = vtime } else tested),
      result,
    )

-- `oonf_duplicate_entry_add`; `memory` tells whether `oonf_class_malloc` succeeds.
unfoldable pub duplicate_entry_add : DupSet → Bool → ℕ → Netaddr → ℕ → ℕ → DupSet × DupResult
unfolding add_to
duplicate_entry_add set memory msg_type originator seqno vtime =
    let key : DupKey = record { originator = originator; msg_type = msg_type } in
    add_to (avl_find cmp_dupkey (λ e. e.key) set key) set memory key seqno vtime

-- `oonf_duplicate_test`.
unfoldable pub duplicate_test : DupSet → ℕ → Netaddr → ℕ → DupSet × DupResult
unfolding test_entry update
duplicate_test set msg_type originator seqno =
    let key : DupKey = record { originator = originator; msg_type = msg_type } in
    elim (avl_find cmp_dupkey (λ e. e.key) set key) [
      | none ↦ (set, first)
      | some entry ↦
          let (tested, result) = test_entry entry seqno false in (update set tested, result)
    ]

-- `_cb_vtime`: the entry leaves the tree when its timer fires.
unfoldable pub cb_vtime : DupSet → DupKey → DupSet
cb_vtime [] key = []
cb_vtime (x ∷ xs) key = if is_zero (cmp_dupkey key x.key) then xs else x ∷ cb_vtime xs key

-- `oonf_duplicate_set_remove`: the callback on each entry in turn.
unfoldable pub duplicate_set_remove : DupSet → DupSet
unfolding cb_vtime
duplicate_set_remove set = foldl (λ rest e. cb_vtime rest e.key) set set
