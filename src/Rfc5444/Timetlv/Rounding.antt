-- ===== src/Rfc5444/Timetlv/Rounding.antt =====
-- The time code of RFC 5497 is the least one that does not shorten the time
-- (src-api/rfc5444/rfc5444.c).
use oonf_api.Base.{
  ℕ, ◌+◌, ◌-◌, ◌≤◌, ◌<◌, ◌≡◌, refl, inl, inr, Bool-cases, true, false, ltb, leb, leb→le, ◌==◌,
  ==_iff, arith,
}
use oonf_api.Base.Range.{passes, passes-lt}
use oonf_api.Rfc5444.Timetlv.{timetlv_encode, timetlv_decode}
use oonf_api.Rfc5444.Timetlv.{timetlv_max}
use oonf_api.Rfc5444.Timetlv.Loops.{halve_up-Halved, double_up-Doubled}
use oonf_api.Rfc5444.Timetlv.LeastCode.{IsLeastCode}
use oonf_api.Rfc5444.Timetlv.Seconds.{high_lem}
use oonf_api.Rfc5444.Timetlv.Subseconds.{low_lem}

-- For every time from the least to the greatest that has a code, the encoder returns the least
-- code whose decoded time is not shorter, and never the code 255 of an infinite time.
pub timetlv_encode-IsLeastCode :
    (t : ℕ) → 1 ≤ t → t ≤ timetlv_max → IsLeastCode t (timetlv_encode t)
unfolding timetlv_encode
timetlv_encode-IsLeastCode t lo hi =
    let e0 : ltb t 1 ≡ false = ground arith in
    let e1 : ltb timetlv_max t ≡ false = ground arith in
    elim (Bool-cases (leb 1000 t)) [
      | inl long ↦
          rw (e0, e1, long)
            (high_lem (halve_up-Halved 64 10 t (omega arith) (omega arith) (omega arith))
              (leb→le _ _ long) hi)
      | inr short ↦
          let below : t < 1000 = ground arith in
          rw (e0, e1, short)
            (low_lem (double_up-Doubled 64 10 t (omega arith) (omega arith) (omega arith)) lo below)
    ]

round_trip_table : passes (λ e. timetlv_encode (timetlv_decode (e + 80)) == e + 80) 176 ≡ true
unfolding passes timetlv_decode timetlv_encode
round_trip_table = refl

-- Every code from 80, the code of one second, up to 255 is encoded again to itself.
pub timetlv_encode-timetlv_decode :
    (e : ℕ) → 80 ≤ e → e < 256 → timetlv_encode (timetlv_decode e) ≡ e
timetlv_encode-timetlv_decode e lo hi =
    let found = (==_iff _ _).0 (passes-lt _ 176 (e - 80) (omega arith) round_trip_table) in
    let back : e - 80 + 80 ≡ e = omega arith in rw back at found
