-- ===== src/Common/Autobuf.antt =====
-- Growing byte buffers (src-api/common/autobuf.c). The page size and the success of each
-- allocation are arguments; `vsnprintf` and `strftime` enter through the text that they render.
pub mod Grow
pub mod Contents
pub mod Append
pub mod Pull
use oonf_api.Base.{
  ℕ, zero, suc, ◌+◌, ◌-◌, ◌*◌, ◌/◌, ◌%◌, ◌^◌, Bool, true, false, not, ◌||◌, bit_and, ◌==◌, ltb, leb,
  min, if◌then◌else◌, List, [], ◌∷◌, ◌++◌, length, take, drop, replicate, Option, none, some,
}
use oonf_api.Base.Exec.{Exec, done, fault, out_of_bounds, ◌>>=◌}
use oonf_api.Base.Int.{ℤ, pos, negsuc, int32}

-- `buf` is the allocated memory, empty for a null pointer.
pub record Autobuf : Type 0 where
  pub len : ℕ
  pub total : ℕ
  pub buf : List ℕ
  pub error : Bool

-- A call returns the buffer and the value of the C function.
abbrev pub Returned : Type 0
Returned = Exec (Autobuf × ℤ)

-- Bytes stored from an offset on.
unfoldable pub store : List ℕ → ℕ → List ℕ → Exec (List ℕ)
store mem at bytes =
    if leb (at + length bytes) (length mem)
    then done (take at mem ++ (bytes ++ drop (at + length bytes) mem))
    else fault out_of_bounds

-- Bytes loaded from an offset on.
unfoldable pub load : List ℕ → ℕ → ℕ → Exec (List ℕ)
load mem at n =
    if leb (at + n) (length mem) then done (take n (drop at mem)) else fault out_of_bounds

-- `ROUND_UP_TO_POWER_OF_2` on a 64-bit `size_t`: the complement of `x` is `2 ^ 64 - 1 - x`.
unfoldable pub round_up : ℕ → ℕ → ℕ
round_up val pow2 = bit_and ((val + pow2 - 1) % 2 ^ 64) (2 ^ 64 - 1 - (pow2 - 1))

-- `realloc` to a size, with the old bytes at its start; new bytes are cleared by the caller.
unfoldable pub resize : List ℕ → ℕ → List ℕ
resize mem n = take n mem ++ replicate (n - length mem) 0

unfoldable pub is_negative : ℤ → Bool
is_negative (pos n) = false
is_negative (negsuc n) = true

module _ (page : ℕ) where
  unfoldable pub abuf_init : Bool → Autobuf → Autobuf × ℤ
  abuf_init memory b =
      if memory
      then (record { len = 0; total = page; buf = replicate page 0; error = false }, pos 0)
      else (record b { len = 0; buf = []; error = true }, negsuc 0)

  -- `_autobuf_enlarge`; `memory` tells whether `realloc` succeeds.
  unfoldable pub autobuf_enlarge : Bool → Autobuf → ℕ → Autobuf × ℤ
  unfolding round_up resize
  autobuf_enlarge memory b new_size =
      let n = new_size + 1 in
      if not (ltb b.total n)
      then (b, pos 0)
      else if not memory
      then (record b { error = true }, negsuc 0)
      else let size = round_up (n + 1) page in
        (record b { buf = resize b.buf size; total = size }, pos 0)

  -- The bytes of `s` and a terminating zero, as `strcpy` stores them. The length of `s` is returned
  -- as an `int`.
  unfoldable pub abuf_puts : Bool → Autobuf → List ℕ → Returned
  unfolding autobuf_enlarge store is_negative
  abuf_puts memory b s =
      let (b1, rc) = autobuf_enlarge memory b (b.len + length s + 1) in
      if is_negative rc then done (b1, negsuc 0) else (do
        mem ← store b1.buf b1.len (s ++ (0 ∷ []))
        done (record b1 { buf = mem; len = b1.len + length s }, int32 (length s)))

  unfoldable pub abuf_memcpy : Bool → Autobuf → List ℕ → Returned
  unfolding autobuf_enlarge store is_negative
  abuf_memcpy memory b p =
      if length p == 0
      then done (b, pos 0)
      else let (b1, rc) = autobuf_enlarge memory b (b.len + length p) in
        if is_negative rc then done (b1, negsuc 0) else (do
          mem ← store b1.buf b1.len p
          mem ← store mem (b1.len + length p) (0 ∷ [])
          done (record b1 { buf = mem; len = b1.len + length p }, pos 0))

  unfoldable pub abuf_memcpy_prepend : Bool → Autobuf → List ℕ → Returned
  unfolding autobuf_enlarge store load is_negative
  abuf_memcpy_prepend memory b p =
      if length p == 0
      then done (b, pos 0)
      else let (b1, rc) = autobuf_enlarge memory b (b.len + length p) in
        if is_negative rc then done (b1, negsuc 0) else (do
          old ← load b1.buf 0 b1.len
          mem ← store b1.buf (length p) old
          mem ← store mem 0 p
          mem ← store mem (b1.len + length p) (0 ∷ [])
          done (record b1 { buf = mem; len = b1.len + length p }, pos 0))

  -- The part of `abuf_pull` that gives memory back.
  unfoldable pub shrink : Bool → Autobuf → Autobuf
  unfolding resize
  shrink memory b =
      if ltb b.total (b.len + page)
      then b
      else let total = b.total - page in
        let newsize = if ltb total page then page else total in
        if memory
        then record b { buf = resize b.buf newsize; total = newsize }
        else record b { total = total }

  -- `abuf_pull`; `memory` tells whether the `realloc` to the smaller size succeeds.
  unfoldable pub abuf_pull : Bool → Autobuf → ℕ → Exec Autobuf
  unfolding load store shrink
  abuf_pull memory b n = if n == 0 then done b else if ltb b.len n then fault out_of_bounds else (do
    rest ← load b.buf n (b.len - n)
    mem ← store b.buf 0 rest
    done (shrink memory (record b { buf = mem; len = b.len - n })))

-- `abuf_free`
unfoldable pub abuf_free : Autobuf → Autobuf
abuf_free b = record { len = 0; total = 0; buf = []; error = false }
