-- ===== src/DuplicateSet/History.antt =====
-- How the window of an entry moves when a number is added (`_test` of
-- src-api/subsystems/oonf_duplicate_set.c).
use oonf_api.Base.{
  ℕ, ◌+◌, ◌-◌, ◌*◌, ◌%◌, ◌^◌, ◌≤◌, ◌<◌, ◌≡◌, ◌≢◌, ◌↔◌, refl, sym, ◌⊎◌, inl, inr, true, false,
  Bool-cases, bit_or, ltb, leb, ◌==◌, if◌then◌else◌, ap, ap₂, ◌∙◌, arith,
}
use oonf_api.Base.Bits.{nth_bit, nth_bit-pow}
use oonf_api.Base.Word.{u32}
use oonf_api.DuplicateSet.{Entry, test_history, test_ahead, test_entry}
use oonf_api.DuplicateSet.Place.{back_of, counted, Place, same, far, behind, ahead, place}
use oonf_api.DuplicateSet.Window.{
  Seen, IsWindow, test_history_known, test_history_new, marked, shifted,
}

abbrev added : Entry → ℕ → Entry
added e s = (test_entry e s true).0

-- The window of `e'` holds `s`, and of the numbers of `e` those that it still reaches.
abbrev pub Moves : Entry → ℕ → Entry → Type 0
Moves e s e' = (x : ℕ) → x < 2 ^ 16 → Seen e' x ↔ ((x ≡ s) ⊎ (Seen e x × (back_of e' x < 32)))

Seen-eq :
    (e e' : Entry) (x : ℕ)
    → e'.current ≡ e.current
    → e'.history ≡ e.history
    → (back_of e' x ≡ back_of e x)
      × (nth_bit (back_of e' x) e'.history ≡ nth_bit (back_of e x) e.history)
Seen-eq e e' x ec eh =
    let eb : back_of e' x ≡ back_of e x = ap (λ c. (c + 2 ^ 16 - x) % 2 ^ 16) ec in
    (eb, ap₂ nth_bit eb eh)

-- A number that the window holds already leaves it where it is.
Moves-same :
    (e e' : Entry) (s : ℕ)
    → Seen e s
    → e'.current ≡ e.current
    → e'.history ≡ e.history
    → Moves e s e'
Moves-same e e' s seen ec eh x hx =
    let at_x = Seen-eq e e' x ec eh in
    (
      (λ h. inr ((omega arith, sym at_x.1 ∙ h.1), h.0)),
      (λ h. elim h [
        | inl eq ↦
            let at_s = Seen-eq e e' s ec eh in
            let there : Seen e' s = (omega arith, at_s.1 ∙ seen.1) in rw eq there
        | inr (there, lt) ↦ (lt, at_x.1 ∙ there.1)
      ]),
    )

module _ (e : Entry) (s : ℕ) (hs : s < 2 ^ 16) (hc : e.current < 2 ^ 16) where
  -- A number inside the window gets its bit.
  Moves-behind :
      (b : ℕ)
      → b ≡ back_of e s
      → b < 32
      → Moves e s (record e { history = bit_or e.history (u32 (2 ^ b)); too_old_count = 0 })
  Moves-behind b eb lt x hx =
      let k = back_of e x in
      let bit : nth_bit k (bit_or e.history (u32 (2 ^ b)))
          ≡ (if k == b then 1 else nth_bit k e.history) =
        marked e.history b k lt in
      elim (Bool-cases (k == b)) [
        | inl eq ↦
            let here : x ≡ s = ground arith in ((λ h. inl here), (λ h. (ground arith, bit ∙ rw eq)))
        | inr ne ↦
            let other : x ≢ s = ground arith in
            let kept : nth_bit k (bit_or e.history (u32 (2 ^ b))) ≡ nth_bit k e.history =
              bit ∙ rw ne in
            (
              (λ h. inr ((h.0, sym kept ∙ h.1), h.0)),
              (λ h. elim h [
                | inl eq ↦ absurd (other eq)
                | inr (there, near) ↦ (near, kept ∙ there.1)
              ]),
            )
      ]

  abbrev pub ahead_history : ℕ → ℕ
  ahead_history d = if leb 32 d then 1 else bit_or (u32 (e.history * 2 ^ d)) 1

  pub ahead_bit :
      (d k : ℕ)
      → k < 32
      → nth_bit k (ahead_history d)
        ≡ (if k == 0 then 1 else (if ltb k d then 0 else nth_bit (k - d) e.history))
  ahead_bit d k lt = elim (Bool-cases (leb 32 d)) [
    | inl all ↦ rw all (nth_bit-pow k 0 ∙ ground arith)
    | inr some ↦ rw some (shifted e.history d k lt)
  ]

  -- A number ahead of the window becomes its end.
  Moves-ahead :
      (d : ℕ)
      → d ≡ (s + 2 ^ 16 - e.current) % 2 ^ 16
      → 1 ≤ d
      → d ≤ 2 ^ 15
      → Moves e s (record e { current = s; history = ahead_history d; too_old_count = 0 })
  Moves-ahead d ed lo hi x hx = (forward, backward)
    where
      k : ℕ
      k = (s + 2 ^ 16 - x) % 2 ^ 16

      bit_first : k < 32 → k ≡ 0 → nth_bit k (ahead_history d) ≡ 1
      bit_first lt z = ahead_bit d k lt ∙ ground arith

      bit_gap : k < 32 → k ≢ 0 → k < d → nth_bit k (ahead_history d) ≡ 0
      bit_gap lt nz gap = ahead_bit d k lt ∙ ground arith

      bit_old : k < 32 → d ≤ k → nth_bit k (ahead_history d) ≡ nth_bit (back_of e x) e.history
      bit_old lt ge =
          let back : k - d ≡ back_of e x = omega arith in
          let t : (k == 0) ≡ false = ground arith in
          let u : ltb k d ≡ false = ground arith in
          ahead_bit d k lt ∙ rw (t, u) (ap (λ b. nth_bit b e.history) back)

      forward : (k < 32) × (nth_bit k (ahead_history d) ≡ 1) → (x ≡ s) ⊎ (Seen e x × (k < 32))
      forward (lt, h) = elim (Bool-cases (k == 0)) [
        | inl z ↦ inl (ground arith)
        | inr nz ↦
            let off : k ≢ 0 = ground arith in
            elim (Bool-cases (ltb k d)) [
              | inl gap ↦ absurd (omega (arith, h, bit_gap lt off (ground arith)))
              | inr old ↦
                  let ge : d ≤ k = ground arith in
                  let near : back_of e x < 32 = omega arith in
                  inr ((near, sym (bit_old lt ge) ∙ h), lt)
            ]
      ]

      backward : (x ≡ s) ⊎ (Seen e x × (k < 32)) → (k < 32) × (nth_bit k (ahead_history d) ≡ 1)
      backward (inl eq) = (omega arith, bit_first (omega arith) (omega arith))
      backward (inr (seen, lt)) = elim (Bool-cases (ltb k d)) [
        | inl gap ↦ absurd (ground arith)
        | inr old ↦ (lt, bit_old lt (ground arith) ∙ seen.1)
      ]

behind-Moves :
    (e : Entry) (s b : ℕ)
    → IsWindow e
    → s < 2 ^ 16
    → b ≡ back_of e s
    → b < 32
    → Moves e s (test_history (counted e) b true).0
behind-Moves e s b w hs eb lt = elim (Bool-cases (nth_bit b e.history == 1)) [
  | inl set ↦
      let bit : nth_bit b e.history ≡ 1 = ground arith in
      let seen : Seen e s = (omega arith, rw (← eb) bit) in
      let kept = test_history_known (counted e) b true lt bit in
      rw kept (Moves-same e (counted e) s seen refl refl)
  | inr clear ↦
      let bit : nth_bit b e.history ≢ 1 = ground arith in
      rw (test_history_new (counted e) b true lt bit) (Moves-behind e s hs w.current_lt b eb lt)
]

ahead-Moves :
    (e : Entry) (s d : ℕ)
    → s < 2 ^ 16
    → e.current < 2 ^ 16
    → d ≡ (s + 2 ^ 16 - e.current) % 2 ^ 16
    → 1 ≤ d
    → d ≤ 2 ^ 15
    → Moves e s (test_ahead (counted e) s d true).0
unfolding test_ahead
ahead-Moves e s d hs hc ed lo hi = Moves-ahead e s hs hc d ed lo hi

-- Adding a number that is not more than 31 behind the current one moves the window: afterwards it
-- holds that number, and of the numbers that it held those that it still reaches, and no others.
pub test_entry-Moves :
    (e : Entry) (s : ℕ)
    → IsWindow e
    → s < 2 ^ 16
    → (back_of e s < 32) ⊎ ((s + 2 ^ 16 - e.current) % 2 ^ 16 < 2 ^ 15)
    → Moves e s (test_entry e s true).0
test_entry-Moves e s w hs near = by_place (place e s hs w.current_lt)
  where
    by_place : Place e s → Moves e s (test_entry e s true).0
    by_place (same h eq) =
        let z : back_of e s ≡ 0 = omega (arith, w.current_lt) in
        rw (eq true) (Moves-same e e s (omega arith, rw z w.current_seen) refl refl)
    by_place (far ne le up eq) = absurd (omega (arith, w.current_lt))
    by_place (behind b eb lo lt eq) = rw (eq true) (behind-Moves e s b w hs eb lt)
    by_place (ahead d ed lo hi eq) = rw (eq true) (ahead-Moves e s d hs w.current_lt ed lo hi)
