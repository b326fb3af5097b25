-- ===== src/Common/Autobuf/Contents.antt =====
-- A growing buffer (src-api/common/autobuf.c) as the sequence of the bytes that it holds.
use mathlib.Core.List.{append_assoc}
use oonf_api.Base.{
  ℕ, zero, suc, ◌+◌, ◌-◌, ◌^◌, ◌≤◌, ◌<◌, ◌≡◌, refl, sym, ap, ◌∙◌, Bool, true, false, Bool-cases,
  inl, inr, ◌⊎◌, ltb, List, [], ◌∷◌, length, take, drop, replicate, ◌++◌, get_elem?, some,
  length-append, length-take, length-drop, length-replicate, take_all, take-append, drop-append,
  take-append-le, take-append-ge, take-take, leb, le→leb, arith,
}
use oonf_api.Base.Exec.{done}
use oonf_api.Base.Int.{ℤ, pos, negsuc}
use oonf_api.Common.Autobuf.Grow.{round_up_lem}
use oonf_api.Common.Autobuf.{Autobuf, store, load, round_up, resize, autobuf_enlarge}

abbrev pub contents : Autobuf → List ℕ
contents b = take b.len b.buf

-- The allocated memory has the size that is noted, and the length does not exceed it.
pub record IsAutobuf (b : Autobuf) : Type 0 where
  pub size : length b.buf ≡ b.total
  pub len_le : b.len ≤ b.total

-- The byte behind the contents is zero, so that they can be read as a string.
abbrev pub IsTerminated : Autobuf → Type 0
IsTerminated b = get_elem? b.buf b.len ≡ some 0

-- What a store leaves: the bytes in front of it, the stored ones, and the size.
pub record Stored (mem : List ℕ) (at : ℕ) (bytes : List ℕ) (mem' : List ℕ) : Type 0 where
  pub same_size : length mem' ≡ length mem
  pub front : (n : ℕ) → n ≤ at → take n mem' ≡ take n mem
  pub filled : take (at + length bytes) mem' ≡ take at mem ++ bytes
  pub back : drop (at + length bytes) mem' ≡ drop (at + length bytes) mem

pub store_lem :
    (mem : List ℕ) (at : ℕ) (bytes : List ℕ)
    → at + length bytes ≤ length mem
    → (mem' : List ℕ) × (store mem at bytes ≡ done mem') × Stored mem at bytes mem'
unfolding store
store_lem mem at bytes fits =
    let room : leb (at + length bytes) (length mem) ≡ true = le→leb _ _ fits in
    let behind = drop (at + length bytes) mem in
    let len : length (take at mem) ≡ at = omega (arith, length-take at mem) in
    (
      take at mem ++ (bytes ++ behind),
      rw room,
      record {
        same_size = omega (
          arith,
          length-append (take at mem) (bytes ++ behind),
          length-append bytes behind,
          length-drop (at + length bytes) mem,
          len,
        );
        front = λ n le.
            take-append-le n (take at mem) (bytes ++ behind) (omega (arith, len))
            ∙ take-take n at mem le;
        filled =
            take-append-ge (at + length bytes) (length bytes) (take at mem) (bytes ++ behind)
              (omega (arith, len))
            ∙ ap (◌++◌ (take at mem)) (take-append bytes behind (length bytes) refl);
        back =
            ap (drop (at + length bytes)) (sym (append_assoc (take at mem) bytes behind))
            ∙ drop-append (take at mem ++ bytes) behind (at + length bytes)
                (omega (arith, length-append (take at mem) bytes, len));
      },
    )

pub load_lem :
    (mem : List ℕ) (at n : ℕ) → at + n ≤ length mem → load mem at n ≡ done (take n (drop at mem))
unfolding load
load_lem mem at n fits = rw (le→leb _ _ fits)

-- A stored terminator is read back at its place.
pub get_elem?-of_take :
    (n : ℕ) (x : ℕ) (xs ys : List ℕ)
    → length ys ≡ n
    → take (n + 1) xs ≡ ys ++ (x ∷ [])
    → get_elem? xs n ≡ some x
get_elem?-of_take n x xs ys len e = by_front n xs ys len (rw (suc_is n) at e)
  where
    suc_is : (n : ℕ) → n + 1 ≡ suc n
    suc_is n = omega arith

    by_front :
        (n : ℕ) (xs ys : List ℕ)
        → length ys ≡ n
        → take (suc n) xs ≡ ys ++ (x ∷ [])
        → get_elem? xs n ≡ some x
    by_front zero [] [] l e = ground arith
    by_front zero (z ∷ zs) [] l e = ground arith
    by_front (suc n) [] [] l e = absurd (omega arith)
    by_front (suc n) (z ∷ zs) [] l e = absurd (omega arith)
    by_front zero xs (y ∷ ys) l e = absurd (omega arith)
    by_front (suc n) [] (y ∷ ys) l e = ground arith
    by_front (suc n) (z ∷ zs) (y ∷ ys) l e = by_front n zs ys (omega arith) (ap (drop 1) e)

-- Either `n` bytes and one more do not fit and no memory is left, and only the error is noted; or
-- they fit or there is memory, the contents and the error flag are as before, and there is room for them.
pub data Enlarged (memory : Bool) (b : Autobuf) (n : ℕ) (r : Autobuf × ℤ) : Type 0 where
  failed :
      memory ≡ false
      → b.total ≤ n
      → r ≡ (record b { error = true }, negsuc 0)
      → Enlarged memory b n r
  enlarged :
      (memory ≡ true) ⊎ (n < b.total)
      → r.1 ≡ pos 0
      → IsAutobuf r.0
      → r.0.len ≡ b.len
      → r.0.error ≡ b.error
      → contents r.0 ≡ contents b
      → n < r.0.total
      → Enlarged memory b n r

-- The page is a power of two, and the sizes stay far from the end of `size_t`.
pub record IsPage (page k : ℕ) : Type 0 where
  pub power : page ≡ 2 ^ k
  pub exponent : k ≤ 63

pub autobuf_enlarge-Enlarged :
    {page k : ℕ} (memory : Bool) (b : Autobuf) (n : ℕ)
    → IsPage page k
    → IsAutobuf b
    → b.len ≤ n
    → n + 2 + page ≤ 2 ^ 64
    → Enlarged memory b n (autobuf_enlarge page memory b n)
unfolding autobuf_enlarge
autobuf_enlarge-Enlarged {page} {k} memory b n p h le fits =
    elim (Bool-cases (ltb b.total (n + 1))) [
      | inr enough ↦ rw enough (enlarged (inr (ground arith)) refl h refl refl refl (ground arith))
      | inl small ↦ elim (Bool-cases memory) [
        | inr none_left ↦ rw (small, none_left) (failed refl (ground arith) refl)
        | inl given ↦
            let short : b.total < n + 1 = ground arith in
            let lem =
              round_up_lem (n + 1 + 1) k (omega (arith, p.exponent)) (omega (arith, p.power)) in
            let up : n + 1 + 1 ≤ round_up (n + 1 + 1) page = rw p.power lem.0 in
            rw (small, given)
              (enlarged (inl refl) refl
                (record {
                  size = resized (round_up (n + 1 + 1) page) (omega arith);
                  len_le = omega (arith, h.len_le);
                })
                refl refl (kept (round_up (n + 1 + 1) page) (omega arith)) (omega arith))
      ]
    ]
  where
    grown : (size : ℕ) → b.total ≤ size → take size b.buf ≡ b.buf
    grown size ge = take_all size b.buf (omega (arith, h.size))

    resized : (size : ℕ) → b.total ≤ size → length (resize b.buf size) ≡ size
    resized size ge =
        unfold resize in
        omega (
          arith,
          length-append (take size b.buf) (replicate (size - length b.buf) 0),
          length-take size b.buf,
          length-replicate {A = ℕ} (size - length b.buf) 0,
          h.size,
        )

    kept : (size : ℕ) → b.total ≤ size → take b.len (resize b.buf size) ≡ contents b
    kept size ge =
        unfold resize in
        (rw (grown size ge) (
          take-append-le b.len b.buf (replicate (size - length b.buf) 0)
            (omega (arith, h.size, h.len_le))))

-- Memory that holds `ys` and a zero byte at its start is a well-formed buffer with these contents.
pub filled_buffer :
    (b : Autobuf) (mem : List ℕ) (n : ℕ) (ys : List ℕ)
    → length mem ≡ b.total
    → n ≤ b.total
    → length ys ≡ n
    → take (n + 1) mem ≡ ys ++ (0 ∷ [])
    → IsAutobuf (record b { buf = mem; len = n }) × (take n mem ≡ ys) × (get_elem? mem n ≡ some 0)
filled_buffer b mem n ys same le len whole = (
  record { size = same; len_le = le },
  sym (take-take n (n + 1) mem (omega arith))
      ∙ ap (take n) whole
      ∙ take-append ys (0 ∷ []) n (sym len),
  get_elem?-of_take n 0 mem ys len whole,
)
