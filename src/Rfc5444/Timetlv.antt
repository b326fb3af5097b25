-- ===== src/Rfc5444/Timetlv.antt =====
-- Time values of RFC 5497 (src-api/rfc5444/rfc5444.c): a code `8 * b + a` stands for
-- (1000 + 125 * a) * 2 ^ b / 1024 milliseconds.
pub mod Loops
pub mod Values
pub mod LeastCode
pub mod Seconds
pub mod Subseconds
pub mod Rounding
pub mod Vector
use oonf_api.Base.{
  ℕ, zero, suc, ◌+◌, ◌*◌, ◌/◌, ◌%◌, ◌^◌, ◌-◌, Bool, ltb, leb, ◌==◌, if◌then◌else◌, List, get_elem?,
  Option, none, some, bit_and,
}
use oonf_api.Base.Exec.{Exec, done, fault, out_of_bounds, ◌>>=◌}
use oonf_api.Base.Word.{u8, u32, u64, sub32, sub64}

abbrev pub timetlv_max : ℕ
timetlv_max = 0xdac0_0000

abbrev pub timetlv_min : ℕ
timetlv_min = 0x0000_0001

-- The loop variables `b` and `decoded` of the encoder.
pub record Scaled : Type 0 where
  pub b : ℕ
  pub decoded : ℕ

-- `while (decoded > 1875)`, halving and rounding up.
unfoldable pub halve_up : ℕ → ℕ → ℕ → Scaled
halve_up zero b d = record { b = b; decoded = d }
halve_up (suc fuel) b d =
    let rest = halve_up fuel (u32 (b + 1)) (u64 (d + 1) / 2) in
    if ltb 1875 d then rest else record { b = b; decoded = d }

-- `while (decoded < 1000)`, doubling.
unfoldable pub double_up : ℕ → ℕ → ℕ → Scaled
double_up zero b d = record { b = b; decoded = d }
double_up (suc fuel) b d =
    let rest = double_up fuel (sub32 b 1) (u64 (d * 2)) in
    if ltb d 1000 then rest else record { b = b; decoded = d }

-- The code of a mantissa and an exponent.
unfoldable pub pack_time : Scaled → ℕ
pack_time s = u8 (u32 (u32 (u64 (sub64 s.decoded 1000 + 124) / 125) + u32 (s.b * 2 ^ 3)))

-- Each loop gets a round for each bit of its 64-bit variable.
unfoldable pub timetlv_encode : ℕ → ℕ
unfolding halve_up double_up pack_time
timetlv_encode decoded =
    if ltb decoded timetlv_min
    then 0
    else if ltb timetlv_max decoded
    then 255
    else if leb 1000 decoded
    then pack_time (halve_up 64 10 decoded)
    else pack_time (double_up 64 10 decoded)

unfoldable pub timetlv_decode : ℕ → ℕ
timetlv_decode encoded =
    if encoded == 0
    then 0
    else if encoded == 255
    then 2 ^ 64 - 1
    else let a = bit_and encoded 0x07 in
      let b = encoded / 2 ^ 3 in
      if leb b 10 then (1000 + 125 * a) / 2 ^ (10 - b) else u64 ((1000 + 125 * a) * 2 ^ (b - 10))

-- A byte of the vector; a read behind its end is undefined.
unfoldable pub vector_at : List ℕ → ℕ → Exec ℕ
vector_at vector i = elim (get_elem? vector i) [ none ↦ fault out_of_bounds | some x ↦ done x ]

-- `for (i=1; i<vector_length; i+=2)` with `left` rounds at most, and the read behind it.
unfoldable pub find_time : ℕ → List ℕ → ℕ → ℕ → ℕ → Exec ℕ
unfolding vector_at
find_time zero vector len hopcount i = vector_at vector (i - 1)
find_time (suc left) vector len hopcount i =
    let rest = find_time left vector len hopcount (i + 2) in
    if ltb i len
    then (do
      limit ← vector_at vector i
      if leb hopcount limit then vector_at vector (i - 1) else rest)
    else vector_at vector (i - 1)

unfoldable pub timetlv_get_from_vector : List ℕ → ℕ → ℕ → Exec ℕ
unfolding find_time
timetlv_get_from_vector vector len hopcount =
    if bit_and len 1 == 0 then done 255 else find_time len vector len hopcount 1
