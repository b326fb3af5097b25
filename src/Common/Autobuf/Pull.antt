-- ===== src/Common/Autobuf/Pull.antt =====
-- Taking bytes from the front of a buffer (src-api/common/autobuf.c).
use oonf_api.Base.{
  ℕ, ◌+◌, ◌-◌, ◌≤◌, ◌≡◌, refl, sym, ap, ◌∙◌, Bool, false, Bool-cases, inl, inr, ltb, ◌==◌,
  if◌then◌else◌, length, take, ◌++◌, drop, arith, length-take, length-drop, take-take, take-drop,
  replicate, take-append-le,
}
use oonf_api.Base.Exec.{done}
use oonf_api.Common.Autobuf.Contents.{contents, IsAutobuf, store_lem, load_lem}
use oonf_api.Common.Autobuf.{Autobuf, resize, shrink, abuf_pull}

-- Giving memory back leaves the contents.
contents-shrink :
    (page : ℕ) (memory : Bool) (b : Autobuf)
    → b.len ≤ length b.buf
    → contents (shrink page memory b) ≡ contents b
unfolding shrink resize
contents-shrink page memory b le = elim (Bool-cases (ltb b.total (b.len + page))) [
  | inl kept ↦ rw kept refl
  | inr small ↦ elim (Bool-cases memory) [
    | inl given ↦
        let n = if ltb (b.total - page) page then page else b.total - page in
        let room : b.len ≤ n = ground arith in rw (small, given) (kept_front n room)
    | inr fails ↦ rw (small, fails) refl
  ]
]
  where
    kept_front :
        (n : ℕ)
        → b.len ≤ n
        → take b.len (take n b.buf ++ replicate (n - length b.buf) 0) ≡ take b.len b.buf
    kept_front n room =
        take-append-le b.len (take n b.buf) (replicate (n - length b.buf) 0)
          (omega (arith, length-take n b.buf, le, room))
        ∙ take-take b.len n b.buf room

-- The bytes behind the pulled ones are left.
pub abuf_pull-drop :
    (page : ℕ) (memory : Bool) (b : Autobuf) (n : ℕ)
    → IsAutobuf b
    → n ≤ b.len
    → (b' : Autobuf) × (abuf_pull page memory b n ≡ done b') × (contents b' ≡ drop n (contents b))
unfolding abuf_pull
abuf_pull-drop page memory b n h le = elim (Bool-cases (n == 0)) [
  | inl zero_bytes ↦
      let none_pulled : n ≡ 0 = ground arith in
      (b, rw zero_bytes refl, ap (λ k. drop k (contents b)) (sym none_pulled))
  | inr some_bytes ↦
      let within : ltb b.len n ≡ false = ground arith in
      let s1 = load_lem b.buf n (b.len - n) (omega (arith, h.size, h.len_le)) in
      let rest = take (b.len - n) (drop n b.buf) in
      let size : length rest ≡ b.len - n =
        omega
          (arith, length-take (b.len - n) (drop n b.buf), length-drop n b.buf, h.size, h.len_le) in
      let (mem, s2, m) = store_lem b.buf 0 rest (omega (arith, size, h.size, h.len_le)) in
      let b1 = record b { buf = mem; len = b.len - n } in
      let sum : 0 + length rest ≡ b.len - n = omega (arith, size) in
      (
        shrink page memory b1,
        rw (some_bytes, within, s1, s2) refl,
        contents-shrink page memory b1 (omega (arith, m.same_size, h.size, h.len_le))
            ∙ ap (λ k. take k mem) (sym sum)
            ∙ m.filled
            ∙ take-drop (b.len - n) n b.buf
            ∙ (let whole : n + (b.len - n) ≡ b.len = omega arith in
                ap (λ k. drop n (take k b.buf)) whole),
      )
]
