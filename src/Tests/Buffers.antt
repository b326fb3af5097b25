-- ===== src/Tests/Buffers.antt =====
-- The theorems on growing buffers (src-api/common/autobuf.c) at inputs.
use oonf_api.Base.Exec.{done}
use oonf_api.Base.Int.{pos}
use oonf_api.Base.{◌≡◌, refl, true, false, [], ◌∷◌, ◌++◌, drop, replicate, arith}
use oonf_api.Common.Autobuf.Append.{
  Adds, abuf_puts-Adds, abuf_memcpy-Adds, abuf_memcpy_prepend-Adds,
}
use oonf_api.Common.Autobuf.Contents.{contents, IsAutobuf, IsPage}
use oonf_api.Common.Autobuf.Pull.{abuf_pull-drop}
use oonf_api.Common.Autobuf.{Autobuf, abuf_puts, abuf_memcpy, abuf_memcpy_prepend, abuf_pull}

eight-IsPage : IsPage 8 3
eight-IsPage = record { power = refl; exponent = omega arith }

abbrev buffer : Autobuf
buffer = record { len = 2; total = 8; buf = 5 ∷ 6 ∷ replicate 6 0; error = false }

buffer-IsAutobuf : IsAutobuf buffer
buffer-IsAutobuf = omega arith

abuf_puts-Adds_example :
    Adds true buffer 5
      (contents buffer ++ (65 ∷ 66 ∷ []))
      (pos 2)
      (abuf_puts 8 true buffer (65 ∷ 66 ∷ []))
abuf_puts-Adds_example =
    abuf_puts-Adds true buffer eight-IsPage buffer-IsAutobuf (65 ∷ 66 ∷ []) (omega arith)

abuf_memcpy-Adds_example :
    Adds true buffer 4
      (contents buffer ++ (65 ∷ 66 ∷ []))
      (pos 0)
      (abuf_memcpy 8 true buffer (65 ∷ 66 ∷ []))
abuf_memcpy-Adds_example =
    abuf_memcpy-Adds true buffer eight-IsPage buffer-IsAutobuf (65 ∷ 66 ∷ []) (omega arith)
      (omega arith)

abuf_memcpy_prepend-Adds_example :
    Adds true buffer 4
      ((65 ∷ 66 ∷ []) ++ contents buffer)
      (pos 0)
      (abuf_memcpy_prepend 8 true buffer (65 ∷ 66 ∷ []))
abuf_memcpy_prepend-Adds_example =
    abuf_memcpy_prepend-Adds true buffer eight-IsPage buffer-IsAutobuf (65 ∷ 66 ∷ []) (omega arith)
      (omega arith)

abuf_pull-drop_example :
    (b : Autobuf) × (abuf_pull 8 true buffer 1 ≡ done b) × (contents b ≡ drop 1 (contents buffer))
abuf_pull-drop_example = abuf_pull-drop 8 true buffer 1 buffer-IsAutobuf (omega arith)
