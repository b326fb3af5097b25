-- ===== src/Rfc5444/Reader/Cursor.antt =====
-- Reading bytes and words from a data stream (src-api/rfc5444/rfc5444_reader.c).
pub mod Bounds
pub mod From
use oonf_api.Base.{
  ℕ, ◌+◌, ◌*◌, ◌%◌, ◌^◌, ◌≤◌, ◌<◌, ◌≡◌, refl, ◌⊎◌, inl, inr, Bool, true, false, not, Bool-cases,
  bit_and, ◌==◌, leb, if◌then◌else◌, List, length, get_elem?, get_elem?-lt, take, drop, Option,
  none, some, arith, ap, ◌∙◌,
}
use oonf_api.Base.Exec.{Exec, done, fault, out_of_bounds, ◌>>=◌}
use oonf_api.Base.Word.{u16}
use oonf_api.Rfc5444.Result.{RfcResult, okay, end_of_buffer, is_okay}

-- `**ptr`.
unfoldable pub read : List ℕ → ℕ → Exec ℕ
read buf p = elim (get_elem? buf p) [ none ↦ fault out_of_bounds | some x ↦ done x ]

-- The bytes that `memcpy` reads.
unfoldable pub read_block : List ℕ → ℕ → ℕ → Exec (List ℕ)
read_block buf p n =
    if leb (p + n) (length buf) then done (take n (drop p buf)) else fault out_of_bounds

-- The data stream pointer `*ptr`, and the result variable of the function that reads.
pub record Cursor : Type 0 where
  pub ptr : ℕ
  pub result : RfcResult

abbrev pub has_flag : ℕ → ℕ → Bool
has_flag flags mask = not (bit_and flags mask == 0)

-- `_rfc5444_get_u8`
unfoldable pub get_u8 : List ℕ → ℕ → Cursor → Exec (ℕ × Cursor)
unfolding read
get_u8 buf end c =
    if not (is_okay c.result)
    then done (0, c)
    else if leb end c.ptr
    then done (0, record c { result = end_of_buffer })
    else (do x ← read buf c.ptr; done (x, record c { ptr = c.ptr + 1 }))

-- `_rfc5444_get_u16`
unfoldable pub get_u16 : List ℕ → ℕ → Cursor → Exec (ℕ × Cursor)
unfolding get_u8
get_u16 buf end c = do
  (hi, c1) ← get_u8 buf end c
  (lo, c2) ← get_u8 buf end c1
  done (u16 (u16 (hi * 2 ^ 8) + lo), c2)
