-- ===== src/Tests/Conversions.antt =====
-- The theorems on times, metrics and sequence numbers (src-api/rfc5444/rfc5444.c) at inputs.
use oonf_api.Base.Int.{pos}
use oonf_api.Base.{◌≡◌, refl, [], ◌∷◌, length, arith}
use oonf_api.Base.Exec.{done}
use oonf_api.Rfc5444.Metric.Rounding
use oonf_api.Rfc5444.Metric.Rounding.{metric_encode-IsLeastCode, metric_encode-metric_decode}
use oonf_api.Rfc5444.Metric.{metric_encode, metric_decode}
use oonf_api.Rfc5444.Seqno.{seqno_difference}
use oonf_api.Rfc5444.Timetlv.LeastCode
use oonf_api.Rfc5444.Timetlv.Rounding.{timetlv_encode-IsLeastCode, timetlv_encode-timetlv_decode}
use oonf_api.Rfc5444.Timetlv.Vector.{TimeTable, to_vector, time_at, timetlv_get_from_vector-time_at}
use oonf_api.Rfc5444.Timetlv.{timetlv_encode, timetlv_decode, timetlv_get_from_vector}

two_seconds : timetlv_encode 2000 ≡ 88
unfolding timetlv_encode
two_seconds = refl

metric_of_one : metric_encode 1 ≡ 0
unfolding metric_encode
metric_of_one = refl

rolled_over : seqno_difference 3 65534 ≡ pos 5
unfolding seqno_difference
rolled_over = refl

timetlv_encode-IsLeastCode_example : LeastCode.IsLeastCode 5000 (timetlv_encode 5000)
timetlv_encode-IsLeastCode_example = timetlv_encode-IsLeastCode 5000 (omega arith) (omega arith)

timetlv_encode-timetlv_decode_example : timetlv_encode (timetlv_decode 100) ≡ 100
timetlv_encode-timetlv_decode_example =
    timetlv_encode-timetlv_decode 100 (omega arith) (omega arith)

metric_encode-IsLeastCode_example : Rounding.IsLeastCode 1000 (metric_encode 1000)
metric_encode-IsLeastCode_example = metric_encode-IsLeastCode 1000 (omega arith) (omega arith)

metric_encode-metric_decode_example : metric_encode (metric_decode 0x123) ≡ 0x123
metric_encode-metric_decode_example = metric_encode-metric_decode 0x123 (omega arith)

abbrev table : TimeTable
table = record { ranges = (60, 2) ∷ (70, 5) ∷ []; last = 80 }

timetlv_get_from_vector-time_at_example :
    timetlv_get_from_vector (to_vector table) (length (to_vector table)) 4 ≡ done (time_at table 4)
timetlv_get_from_vector-time_at_example = timetlv_get_from_vector-time_at table 4
