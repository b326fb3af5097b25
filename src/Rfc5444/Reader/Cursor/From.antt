-- ===== src/Rfc5444/Reader/Cursor/From.antt =====
-- Reading at a place whose next bytes are known (src-api/rfc5444/rfc5444_reader.c).
use mathlib.Core.List.{append_assoc}
use oonf_api.Base.{
  ℕ, ◌+◌, ◌*◌, ◌^◌, ◌<◌, ◌≡◌, refl, sym, ap, ◌∙◌, List, [], ◌∷◌, ◌++◌, length, get_elem?-append,
  length-append, arith,
}
use oonf_api.Base.Exec.{done}
use oonf_api.Base.Word.{u16}
use oonf_api.Rfc5444.Reader.Cursor.Bounds.{get_u8_byte}
use oonf_api.Rfc5444.Reader.Cursor.{Cursor, get_u8, get_u16}
use oonf_api.Rfc5444.Result.{okay}

abbrev pub at : ℕ → Cursor
at p = record { ptr = p; result = okay }

-- The byte behind a prefix is read.
get_u8-append :
    (pre : List ℕ) (x : ℕ) (rest : List ℕ) (eob : ℕ)
    → length pre < eob
    → get_u8 (pre ++ (x ∷ rest)) eob (at (length pre)) ≡ done (x, at (length pre + 1))
get_u8-append pre x rest eob lt =
    get_u8_byte (pre ++ (x ∷ rest)) eob (at (length pre)) refl lt
      (get_elem?-append pre x rest (length pre) refl)

-- A byte at `p`, which is given by the bytes from `p` on.
pub record From (buf : List ℕ) (p : ℕ) (bytes : List ℕ) : Type 0 where
  pub front : List ℕ
  pub place : length front ≡ p
  pub split : buf ≡ front ++ bytes

pub From-next :
    {buf : List ℕ} {p x : ℕ} {rest : List ℕ} → From buf p (x ∷ rest) → From buf (p + 1) rest
From-next {buf} {p} {x} {rest} f = record {
  front = f.front ++ (x ∷ []);
  place = length-append f.front (x ∷ []) ∙ ap (λ n. n + 1) f.place;
  split = f.split ∙ sym (append_assoc f.front (x ∷ []) rest);
}

pub get_u8-From :
    {buf : List ℕ} {p x : ℕ} {rest : List ℕ} (eob : ℕ)
    → From buf p (x ∷ rest)
    → p < eob
    → get_u8 buf eob (at p) ≡ done (x, at (p + 1))
get_u8-From {buf} {p} {x} {rest} eob f lt =
    rw (f.split, sym f.place) (get_u8-append f.front x rest eob (omega (arith, f.place)))

pub get_u16-From :
    {buf : List ℕ} {p x y : ℕ} {rest : List ℕ} (eob : ℕ)
    → From buf p (x ∷ y ∷ rest)
    → p + 1 < eob
    → get_u16 buf eob (at p) ≡ done (u16 (u16 (x * 2 ^ 8) + y), at (p + 1 + 1))
unfolding get_u16
get_u16-From {buf} {p} {x} {y} {rest} eob f lt =
    rw (get_u8-From eob f (omega arith), get_u8-From eob (From-next f) lt) refl
