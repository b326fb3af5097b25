-- ===== src/Tests/Duplicates.antt =====
-- The theorems on the duplicate set (src-api/subsystems/oonf_duplicate_set.c) at inputs.
use oonf_api.Base.{ℕ, ◌≡◌, ◌≢◌, refl, ◌↔◌, inl, true, false, List, replicate, arith}
use oonf_api.DuplicateSet.History.{Moves, test_entry-Moves}
use oonf_api.DuplicateSet.Invariant.{test_entry-IsWindow, test_entry_twice}
use oonf_api.DuplicateSet.Reset.{add_all, IsOld, AllOld, add_all-reset}
use oonf_api.DuplicateSet.Verdict.{test_entry-IsKnown_iff}
use oonf_api.DuplicateSet.Window.{Seen, IsWindow, IsKnown}
use oonf_api.DuplicateSet.{too_old, newest, Entry, test_entry}
use oonf_api.Rfc5444.Seqno.{seqno_difference}

-- The numbers 100 and 98 have been seen.
abbrev entry : Entry
entry = record {
  key = record {
    originator = record { addr = replicate 16 0; addr_type = 2; prefix_len = 32 };
    msg_type = 1;
  };
  history = 5;
  current = 100;
  too_old_count = 0;
  vtime = 1000;
}

entry-IsWindow : IsWindow entry
entry-IsWindow = omega arith

test_entry-IsKnown_iff_example : IsKnown (test_entry entry 98 true).1 ↔ Seen entry 98
test_entry-IsKnown_iff_example = test_entry-IsKnown_iff entry 98 true entry-IsWindow (omega arith)

test_entry-Moves_example : Moves entry 99 (test_entry entry 99 true).0
test_entry-Moves_example =
    test_entry-Moves entry 99 entry-IsWindow (omega arith) (inl (omega arith))

test_entry-IsWindow_example : IsWindow (test_entry entry 103 true).0
test_entry-IsWindow_example = test_entry-IsWindow entry 103 true entry-IsWindow (omega arith)

taken : (test_entry entry 103 true).1 ≢ too_old
unfolding test_entry seqno_difference
taken = ground arith

test_entry_twice_example : IsKnown (test_entry (test_entry entry 103 true).0 103 false).1
test_entry_twice_example = test_entry_twice entry 103 false entry-IsWindow (omega arith) taken

sixty-IsOld : IsOld entry 60
unfolding seqno_difference
sixty-IsOld = omega arith

abbrev eight_old : List ℕ
eight_old = replicate 8 60

eight_old-AllOld : AllOld entry eight_old
unfolding seqno_difference
eight_old-AllOld = omega arith

add_all-reset_example :
    (add_all entry eight_old ≡ record entry { too_old_count = 8 })
    × (test_entry (add_all entry eight_old) 60 true
        ≡ (record entry { history = 1; too_old_count = 0; current = 60 }, newest))
add_all-reset_example = add_all-reset entry eight_old 60 refl refl eight_old-AllOld sixty-IsOld
