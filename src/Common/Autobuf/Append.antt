-- ===== src/Common/Autobuf/Append.antt =====
-- Adding bytes at the end or at the start of a buffer (src-api/common/autobuf.c).
use mathlib.Core.List.{append_assoc}
use oonf_api.Base.{
  ℕ, ◌+◌, ◌^◌, ◌≤◌, ◌<◌, ◌≡◌, ◌≢◌, ◌⊎◌, refl, sym, ap, ◌∙◌, Bool, true, false, ◌==◌, if◌then◌else◌,
  List, [], ◌∷◌, length, take, ◌++◌, get_elem?, some, length-append, length-take, take-append-drop,
  take-take, take-drop, drop-append, drop, ap₂, arith,
}
use oonf_api.Base.Exec.{Exec, done, ◌>>=◌}
use oonf_api.Base.Int.{ℤ, pos, negsuc, int32}
use oonf_api.Common.Autobuf.Contents.{
  contents, IsAutobuf, IsTerminated, Stored, store_lem, load_lem, filled_buffer, Enlarged, failed,
  enlarged, IsPage, autobuf_enlarge-Enlarged,
}
use oonf_api.Common.Autobuf.{
  Autobuf, store, load, autobuf_enlarge, is_negative, abuf_puts, abuf_memcpy, abuf_memcpy_prepend,
}

-- What a call that adds bytes returns when it needs `n` bytes and one more: if these do not fit and
-- no memory is left, an error that leaves all but the error flag as it was; if they fit or there is
-- memory, a well-formed buffer with the new contents, ended by a zero byte, and the old error flag.
pub data Adds (memory : Bool) (b : Autobuf) (n : ℕ) (result : List ℕ) (value : ℤ)
    (r : Exec (Autobuf × ℤ)) : Type 0 where
  out_of_memory :
      memory ≡ false
      → b.total ≤ n
      → r ≡ done (record b { error = true }, negsuc 0)
      → Adds memory b n result value r
  added :
      (memory ≡ true) ⊎ (n < b.total)
      → (b' : Autobuf) → r ≡ done (b', value)
      → IsAutobuf b'
      → contents b' ≡ result
      → b'.error ≡ b.error
      → IsTerminated b'
      → Adds memory b n result value r

-- The old bytes, moved up, lie behind the new ones.
moved :
    (q old buf mem1 mem2 : List ℕ) (n : ℕ)
    → length old ≡ n
    → length q ≤ length buf
    → Stored buf (length q) old mem1
    → Stored mem1 0 q mem2
    → take (n + length q) mem2 ≡ q ++ old
moved q old buf mem1 mem2 n len room m1 m2 =
    let split : take (length q) mem2 ++ drop (length q) (take (length q + n) mem2)
        ≡ take (length q + n) mem2 =
      ap (λ t. t ++ drop (length q) (take (length q + n) mem2))
        (sym (take-take (length q) (length q + n) mem2 (omega arith)))
      ∙ take-append-drop (length q) (take (length q + n) mem2) in
    let at_0 : 0 + length q ≡ length q = omega arith in
    let first : take (length q) mem2 ≡ q = ap (λ k. take k mem2) (sym at_0) ∙ m2.filled in
    let behind : drop (length q) mem2 ≡ drop (length q) mem1 =
      ap (λ k. drop k mem2) (sym at_0) ∙ m2.back ∙ ap (λ k. drop k mem1) at_0 in
    let rest : drop (length q) (take (length q + n) mem2) ≡ old =
      sym (take-drop n (length q) mem2)
      ∙ ap (take n) behind
      ∙ take-drop n (length q) mem1
      ∙ ap (λ k. drop (length q) (take (length q + k) mem1)) (sym len)
      ∙ ap (drop (length q)) m1.filled
      ∙ drop-append (take (length q) buf) old (length q)
          (omega (arith, length-take (length q) buf)) in
    (let e : n + length q ≡ length q + n = omega arith in ap (λ k. take k mem2) e)
    ∙ sym split
    ∙ ap₂ ◌++◌ first rest

module _ {page k : ℕ} (memory : Bool) (b : Autobuf) (p : IsPage page k) (h : IsAutobuf b) where
  len_contents : (b1 : Autobuf) → IsAutobuf b1 → length (contents b1) ≡ b1.len
  len_contents b1 h1 = omega (arith, length-take b1.len b1.buf, h1.size, h1.len_le)

  -- In a well-formed buffer, with a page that is a power of two and sizes below 2 ^ 64: a string is
  -- appended with its terminator, its length is returned as an `int` of 32 bits, and the result is
  -- well formed; no byte outside of the memory is touched. The call fails exactly if the string and
  -- two bytes more do not fit and no memory can be had, and changes only the error flag then.
  pub abuf_puts-Adds :
      (s : List ℕ)
      → b.len + length s + 3 + page ≤ 2 ^ 64
      → Adds memory b
          (b.len + length s + 1)
          (contents b ++ s)
          (int32 (length s))
          (abuf_puts page memory b s)
  unfolding abuf_puts
  abuf_puts-Adds s fits =
      by_enlarged
        (autobuf_enlarge-Enlarged memory b (b.len + length s + 1) p h (omega arith) (omega arith))
    where
      by_enlarged :
          Enlarged memory b
            (b.len + length s + 1)
            (autobuf_enlarge page memory b (b.len + length s + 1))
          → Adds memory b
              (b.len + length s + 1)
              (contents b ++ s)
              (int32 (length s))
              (abuf_puts page memory b s)
      by_enlarged (failed none_left small e) = out_of_memory none_left small (rw e)
      by_enlarged (enlarged why rc h1 len flag same room) =
          let b1 = (autobuf_enlarge page memory b (b.len + length s + 1)).0 in
          let long : length (s ++ (0 ∷ [])) ≡ length s + 1 = length-append s (0 ∷ []) in
          let (mem, stored, m) =
            store_lem b1.buf b1.len (s ++ (0 ∷ [])) (omega (arith, long, len, h1.size)) in
          let whole : take (b1.len + length s + 1) mem ≡ (contents b1 ++ s) ++ (0 ∷ []) =
            (let e : b1.len + length s + 1 ≡ b1.len + length (s ++ (0 ∷ [])) =
                omega (arith, long) in
              ap (λ n. take n mem) e)
            ∙ m.filled
            ∙ sym (append_assoc (contents b1) s (0 ∷ [])) in
          let size : length (contents b1 ++ s) ≡ b1.len + length s =
            length-append (contents b1) s ∙ ap (λ n. n + length s) (len_contents b1 h1) in
          let final =
            filled_buffer b1 mem (b1.len + length s) (contents b1 ++ s) (m.same_size ∙ h1.size)
              (omega (arith, len)) size whole in
          added why (record b1 { buf = mem; len = b1.len + length s }) (rw rc (rw stored refl))
            final.0 (final.1 ∙ ap (λ c. c ++ s) same) flag final.2

  -- The end of both copies: the bytes `ys` stand at the start, and get their terminator.
  terminate :
      (b1 : Autobuf) (mem : List ℕ) (n : ℕ) (ys : List ℕ)
      → length mem ≡ b1.total
      → n < b1.total
      → take n mem ≡ ys
      → (mem' : List ℕ) × (store mem n (0 ∷ []) ≡ done mem')
        × IsAutobuf (record b1 { buf = mem'; len = n })
        × (take n mem' ≡ ys)
        × (get_elem? mem' n ≡ some 0)
  terminate b1 mem n ys same lt front =
      let (mem', stored, m) = store_lem mem n (0 ∷ []) (omega arith) in
      let size : length ys ≡ n = ap length (sym front) ∙ omega (arith, length-take n mem) in
      let final =
        filled_buffer b1 mem' n ys (m.same_size ∙ same) (omega arith) size
          (m.filled ∙ ap (λ c. c ++ (0 ∷ [])) front) in
      (mem', stored, final.0, final.1, final.2)

  -- Both copies, from the enlarged buffer on.
  copied :
      (n : ℕ) (f : Autobuf → Exec (Autobuf × ℤ)) (result : List ℕ)
      → b.len + n + 2 + page ≤ 2 ^ 64
      → ((memory ≡ true) ⊎ (b.len + n < b.total)
          → (b1 : Autobuf) → IsAutobuf b1
          → b1.len ≡ b.len
          → b1.error ≡ b.error
          → contents b1 ≡ contents b
          → b.len + n < b1.total
          → Adds memory b (b.len + n) result (pos 0) (f b1))
      → Adds memory b (b.len + n) result (pos 0) (
          if is_negative (autobuf_enlarge page memory b (b.len + n)).1
          then done ((autobuf_enlarge page memory b (b.len + n)).0, negsuc 0)
          else f (autobuf_enlarge page memory b (b.len + n)).0)
  unfolding is_negative
  copied n f result fits go =
      elim (autobuf_enlarge-Enlarged memory b (b.len + n) p h (omega arith) (omega arith)) [
        | failed none_left small e ↦ rw e (out_of_memory none_left small refl)
        | enlarged why rc h1 len flag same room ↦ rw rc (go why _ h1 len flag same room)
      ]

  -- In a well-formed buffer, with a page that is a power of two and sizes below 2 ^ 64: a block of
  -- bytes that is not empty is appended and ended by a zero byte, 0 is returned, and the result is
  -- well formed; no byte outside of the memory is touched. The call fails exactly if the block and
  -- one byte more do not fit and no memory can be had, and changes only the error flag then.
  pub abuf_memcpy-Adds :
      (q : List ℕ)
      → length q ≢ 0
      → b.len + length q + 2 + page ≤ 2 ^ 64
      → Adds memory b (b.len + length q) (contents b ++ q) (pos 0) (abuf_memcpy page memory b q)
  unfolding abuf_memcpy
  abuf_memcpy-Adds q ne fits =
      let some : (length q == 0) ≡ false = ground arith in
      let f : Autobuf → Exec (Autobuf × ℤ) = λ b1. (do
        mem ← store b1.buf b1.len q
        mem ← store mem (b1.len + length q) (0 ∷ [])
        done (record b1 { buf = mem; len = b1.len + length q }, pos 0)) in
      rw some (
        copied (length q) f (contents b ++ q) fits λ why b1 h1 len flag same room.
          let (mem, s1, m1) = store_lem b1.buf b1.len q (omega (arith, h1.size)) in
          let (mem', s2, ok, held, ended) =
            terminate b1 mem (b1.len + length q) (contents b1 ++ q) (m1.same_size ∙ h1.size)
              (omega arith) m1.filled in
          added why (record b1 { buf = mem'; len = b1.len + length q }) (rw (s1, s2) refl) ok
            (held ∙ ap (λ c. c ++ q) same) flag ended)

  -- In a well-formed buffer, with a page that is a power of two and sizes below 2 ^ 64: a block of
  -- bytes that is not empty is put in front of the contents, these are ended by a zero byte, 0 is
  -- returned, and the result is well formed; no byte outside of the memory is touched. The call
  -- fails exactly if the block and one byte more do not fit and no memory can be had, and changes
  -- only the error flag then.
  pub abuf_memcpy_prepend-Adds :
      (q : List ℕ)
      → length q ≢ 0
      → b.len + length q + 2 + page ≤ 2 ^ 64
      → Adds memory b
          (b.len + length q)
          (q ++ contents b)
          (pos 0)
          (abuf_memcpy_prepend page memory b q)
  unfolding abuf_memcpy_prepend
  abuf_memcpy_prepend-Adds q ne fits =
      let some : (length q == 0) ≡ false = ground arith in
      let f : Autobuf → Exec (Autobuf × ℤ) = λ b1. (do
        old ← load b1.buf 0 b1.len
        mem ← store b1.buf (length q) old
        mem ← store mem 0 q
        mem ← store mem (b1.len + length q) (0 ∷ [])
        done (record b1 { buf = mem; len = b1.len + length q }, pos 0)) in
      rw some (
        copied (length q) f (q ++ contents b) fits λ why b1 h1 len flag same room.
          let s0 = load_lem b1.buf 0 b1.len (omega (arith, h1.size, h1.len_le)) in
          let old : length (contents b1) ≡ b1.len = len_contents b1 h1 in
          let (mem1, s1, m1) =
            store_lem b1.buf (length q) (contents b1) (omega (arith, old, h1.size)) in
          let (mem2, s2, m2) = store_lem mem1 0 q (omega (arith, m1.same_size, h1.size)) in
          let front : take (b1.len + length q) mem2 ≡ q ++ contents b1 =
            moved q (contents b1) b1.buf mem1 mem2 b1.len old (omega (arith, h1.size)) m1 m2 in
          let (mem3, s3, ok, held, ended) =
            terminate b1 mem2 (b1.len + length q) (q ++ contents b1)
              (m2.same_size ∙ m1.same_size ∙ h1.size) (omega arith) front in
          added why (record b1 { buf = mem3; len = b1.len + length q }) (rw (s0, s1, s2, s3) refl)
            ok (held ∙ ap (λ c. q ++ c) same) flag ended)
