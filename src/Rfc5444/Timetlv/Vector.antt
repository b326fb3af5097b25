-- ===== src/Rfc5444/Timetlv/Vector.antt =====
-- The hop-count vector of a time TLV (src-api/rfc5444/rfc5444.c) against a table of pairs.
use oonf_api.Base.{
  ℕ, zero, suc, ◌+◌, ◌-◌, ◌*◌, ◌%◌, ◌≤◌, ◌<◌, ◌≡◌, refl, ap, ◌∙◌, Bool, true, false, leb, ltb, ◌==◌,
  if◌then◌else◌, List, [], ◌∷◌, ◌++◌, length, length-append, get_elem?-append, bit_and, arith,
}
use mathlib.Core.List.{append_assoc}
use oonf_api.Base.Bits.{bit_and-pow}
use oonf_api.Base.Exec.{done}
use oonf_api.Rfc5444.Timetlv.{vector_at, find_time, timetlv_get_from_vector}

-- A vector: times with the hop count up to which each holds, and the time of all further hops.
pub record TimeTable : Type 0 where
  pub ranges : List (ℕ × ℕ)
  pub last : ℕ

abbrev pub flatten : List (ℕ × ℕ) → ℕ → List ℕ
flatten [] last = last ∷ []
flatten ((time, hops) ∷ rs) last = time ∷ hops ∷ flatten rs last

abbrev pub to_vector : TimeTable → List ℕ
to_vector t = flatten t.ranges t.last

-- The time of the first range that reaches the hop count.
abbrev pub range_time : List (ℕ × ℕ) → ℕ → ℕ → ℕ
range_time [] last h = last
range_time ((time, hops) ∷ rs) last h = if leb h hops then time else range_time rs last h

pub time_at : TimeTable → ℕ → ℕ
time_at t h = range_time t.ranges t.last h

length-flatten : (rs : List (ℕ × ℕ)) (last : ℕ) → length (flatten rs last) ≡ 2 * length rs + 1
length-flatten [] last = refl
length-flatten ((t, h) ∷ rs) last = omega (arith, length-flatten rs last)

vector_at-append :
    (pre : List ℕ) (x : ℕ) (post : List ℕ) (i : ℕ)
    → i ≡ length pre
    → vector_at (pre ++ (x ∷ post)) i ≡ done x
unfolding vector_at
vector_at-append pre x post i e = rw (get_elem?-append pre x post i e, vector_at)

-- One round of the loop, at the position `i` in front of a limit.
module _ (fuel : ℕ) (v : List ℕ) (len h i time limit : ℕ) where
  find_time_round :
      i < len
      → vector_at v (i - 1) ≡ done time
      → vector_at v i ≡ done limit
      → find_time (suc fuel) v len h i
        ≡ (if leb h limit then done time else find_time fuel v len h (i + 2))
  unfolding find_time
  find_time_round lt e1 e2 = let go : ltb i len ≡ true = ground arith in rw (go, e2, e1)

  find_time_stop :
      len ≤ i → vector_at v (i - 1) ≡ done time → find_time (suc fuel) v len h i ≡ done time
  unfolding find_time
  find_time_stop le e = let stop : ltb i len ≡ false = ground arith in rw (stop, e)

if-done : (b : Bool) (x y : ℕ) → (if b then done x else done y) ≡ done (if b then x else y)
if-done true x y = refl
if-done false x y = refl

-- The loop behind a prefix that it has passed.
find_time-flatten :
    (rs : List (ℕ × ℕ)) (last h : ℕ) (pre : List ℕ) (fuel i : ℕ)
    → length rs < fuel
    → i ≡ length pre + 1
    → find_time fuel (pre ++ flatten rs last) (i + 2 * length rs) h i ≡ done (range_time rs last h)
find_time-flatten rs last h pre zero i lt e = absurd (omega arith)
find_time-flatten [] last h pre (suc fuel) i lt e =
    find_time_stop fuel (pre ++ (last ∷ [])) (i + 0) h i last 0 (omega arith)
      (vector_at-append pre last [] (i - 1) (omega arith))
find_time-flatten ((t, k) ∷ rs) last h pre (suc fuel) i lt e =
    let v = pre ++ (t ∷ k ∷ flatten rs last) in
    let passed : (pre ++ (t ∷ k ∷ [])) ++ flatten rs last ≡ v =
      append_assoc pre (t ∷ k ∷ []) (flatten rs last) in
    let split : (pre ++ (t ∷ [])) ++ (k ∷ flatten rs last) ≡ v =
      append_assoc pre (t ∷ []) (k ∷ flatten rs last) in
    let here : vector_at v (i - 1) ≡ done t =
      vector_at-append pre t (k ∷ flatten rs last) (i - 1) (omega arith) in
    let limit : vector_at v i ≡ done k = rw split at (
      vector_at-append (pre ++ (t ∷ [])) k (flatten rs last) i
        (omega (arith, length-append pre (t ∷ [])))) in
    let next : find_time fuel v (i + 2 + 2 * length rs) h (i + 2) ≡ done (range_time rs last h) =
      rw passed at (
        find_time-flatten rs last h (pre ++ (t ∷ k ∷ [])) fuel (i + 2) (omega arith)
          (omega (arith, length-append pre (t ∷ k ∷ [])))) in
    let len : i + 2 * suc (length rs) ≡ i + 2 + 2 * length rs = omega arith in
    rw len (
      find_time_round fuel v (i + 2 + 2 * length rs) h i t k (omega arith) here limit
      ∙ ap (λ r. if leb h k then done t else r) next
      ∙ if-done (leb h k) t (range_time rs last h))

-- On the vector of a table the lookup reads nothing outside of the vector, and returns the time
-- of the first range that reaches the hop count, or else the last time.
pub timetlv_get_from_vector-time_at :
    (t : TimeTable) (h : ℕ)
    → timetlv_get_from_vector (to_vector t) (length (to_vector t)) h ≡ done (time_at t h)
unfolding timetlv_get_from_vector time_at
timetlv_get_from_vector-time_at t h =
    let len : length (to_vector t) ≡ 2 * length t.ranges + 1 = length-flatten t.ranges t.last in
    let odd : (bit_and (2 * length t.ranges + 1) 1 == 0) ≡ false =
      ground (arith, bit_and-pow 0 (2 * length t.ranges + 1)) in
    let start : 2 * length t.ranges + 1 ≡ 1 + 2 * length t.ranges = omega arith in
    rw (len, odd, start)
      (find_time-flatten t.ranges t.last h [] (1 + 2 * length t.ranges) 1 (omega arith) refl)

-- A vector of even length stands for no table, and gives the infinite time.
pub timetlv_get_from_vector_even :
    (v : List ℕ) (len h : ℕ) → len % 2 ≡ 0 → timetlv_get_from_vector v len h ≡ done 255
unfolding timetlv_get_from_vector
timetlv_get_from_vector_even v len h e =
    let even : (bit_and len 1 == 0) ≡ true = ground (arith, bit_and-pow 0 len) in rw even
