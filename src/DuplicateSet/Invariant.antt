-- ===== src/DuplicateSet/Invariant.antt =====
-- `_test` (src-api/subsystems/oonf_duplicate_set.c) keeps an entry well formed, and one added
-- number is known afterwards.
use oonf_api.Base.{
  ℕ, ◌+◌, ◌-◌, ◌%◌, ◌^◌, ◌<◌, ◌≡◌, ◌≢◌, refl, inl, inr, Bool, true, false, Bool-cases, bit_or, ltb,
  ◌==◌, if◌then◌else◌, arith, ap, ◌∙◌,
}
use oonf_api.Base.Bits.{nth_bit}
use oonf_api.Base.Word.{u16, u32}
use oonf_api.DuplicateSet.{too_old, Entry, test_too_old, test_history, test_ahead, test_entry}
use oonf_api.DuplicateSet.History.{test_entry-Moves, ahead_bit}
use oonf_api.DuplicateSet.Place.{counted, Place, same, far, behind, ahead, place}
use oonf_api.DuplicateSet.Verdict.{test_entry-IsKnown_iff}
use oonf_api.DuplicateSet.Window.{
  Seen, IsWindow, IsKnown, marked, test_history_known, test_history_new,
}

IsWindow-counted : {e : Entry} → IsWindow e → IsWindow (counted e)
IsWindow-counted w = record {
  current_lt = w.current_lt;
  current_seen = w.current_seen;
  count_le = omega arith;
}

too_old_IsWindow : (e : Entry) (s : ℕ) → IsWindow e → s < 2 ^ 16 → IsWindow (test_too_old e s).0
unfolding test_too_old
too_old_IsWindow e s w hs = elim (Bool-cases (ltb 8 (u16 (e.too_old_count + 1)))) [
  | inl reset ↦ rw reset (record { current_lt = hs; current_seen = refl; count_le = omega arith })
  | inr counts ↦
      rw counts (record {
        current_lt = w.current_lt;
        current_seen = w.current_seen;
        count_le = ground arith;
      })
]

history_IsWindow :
    (e : Entry) (b : ℕ) (add : Bool) → b < 32 → IsWindow e → IsWindow (test_history e b add).0
history_IsWindow e b add lt w = elim (Bool-cases (nth_bit b e.history == 1)) [
  | inl set ↦ rw (test_history_known e b add lt (ground arith)) w
  | inr clear ↦ rw (test_history_new e b add lt (ground arith)) (by_add add)
]
  where
    by_add :
        (add : Bool)
        → IsWindow (if add then record e { history = bit_or e.history (u32 (2 ^ b)) } else e)
    by_add true = record {
      current_lt = w.current_lt;
      current_seen = ground (arith, marked e.history b 0 lt, w.current_seen);
      count_le = w.count_le;
    }
    by_add false = w

ahead_IsWindow :
    (e : Entry) (s d : ℕ) (add : Bool) → s < 2 ^ 16 → IsWindow e → IsWindow (test_ahead e s d add).0
unfolding test_ahead
ahead_IsWindow e s d false hs w = w
ahead_IsWindow e s d true hs w = record {
  current_lt = hs;
  current_seen = ahead_bit e s hs w.current_lt d 0 (omega arith);
  count_le = w.count_le;
}

-- Every call, to test or to add, leaves a well-formed entry well formed.
pub test_entry-IsWindow :
    (e : Entry) (s : ℕ) (add : Bool) → IsWindow e → s < 2 ^ 16 → IsWindow (test_entry e s add).0
test_entry-IsWindow e s add w hs = by_place (place e s hs w.current_lt)
  where
    by_place : Place e s → IsWindow (test_entry e s add).0
    by_place (same h eq) = rw (eq add) w
    by_place (far ne le up eq) = rw (eq add) (too_old_IsWindow e s w hs)
    by_place (behind b eb lo lt eq) =
        rw (eq add) (history_IsWindow (counted e) b add lt (IsWindow-counted w))
    by_place (ahead d ed lo hi eq) =
        rw (eq add) (ahead_IsWindow (counted e) s d add hs (IsWindow-counted w))

too_old_known :
    (e : Entry) (s : ℕ) → s < 2 ^ 16 → (test_too_old e s).1 ≢ too_old → Seen (test_too_old e s).0 s
unfolding test_too_old
too_old_known e s hs ne = elim (Bool-cases (ltb 8 (u16 (e.too_old_count + 1)))) [
  | inl reset ↦
      let z : (s + 2 ^ 16 - s) % 2 ^ 16 ≡ 0 = omega arith in rw reset (rw z (omega arith, refl))
  | inr counts ↦ absurd (ne (rw counts refl))
]

ahead_known :
    (e : Entry) (s d : ℕ)
    → s < 2 ^ 16
    → e.current < 2 ^ 16
    → Seen (test_ahead (counted e) s d true).0 s
unfolding test_ahead
ahead_known e s d hs hc =
    let z : (s + 2 ^ 16 - s) % 2 ^ 16 ≡ 0 = omega arith in
    rw z (omega arith, ahead_bit e s hs hc d 0 (omega arith))

-- A number that was added and not refused as too old is answered as a duplicate or as the current
-- one by the next call, so no message is taken twice in a row.
pub test_entry_twice :
    (e : Entry) (s : ℕ) (add : Bool)
    → IsWindow e
    → s < 2 ^ 16
    → (test_entry e s true).1 ≢ too_old
    → IsKnown (test_entry (test_entry e s true).0 s add).1
test_entry_twice e s add w hs taken =
    (test_entry-IsKnown_iff (test_entry e s true).0 s add (test_entry-IsWindow e s true w hs) hs).1
      (by_place (place e s hs w.current_lt))
  where
    by_place : Place e s → Seen (test_entry e s true).0 s
    by_place (same h eq) =
        (test_entry-Moves e s w hs (inl (omega (arith, w.current_lt))) s hs).1 (inl refl)
    by_place (far ne le up eq) =
        rw (eq true) (too_old_known e s hs (λ h. taken (ap (λ r. r.1) (eq true) ∙ h)))
    by_place (behind b eb lo lt eq) =
        (test_entry-Moves e s w hs (inl (omega arith)) s hs).1 (inl refl)
    by_place (ahead d ed lo hi eq) = rw (eq true) (ahead_known e s d hs w.current_lt)
