-- ===== src/Rfc5444/Reader/TlvBlock/Collect.antt =====
-- The tree of a TLV block (src-api/rfc5444/rfc5444_reader.c): what is stored, in which order, and
-- how much memory it takes.
use oonf_api.Base.{
  ℕ, suc, ◌+◌, ◌≤◌, ◌≡◌, ◌≢◌, refl, Bool-cases, inl, inr, ltb, List, [], ◌∷◌, length, if◌then◌else◌,
  some, arith,
}
use oonf_api.Base.Int.{pos, ltb_ℤ}
use oonf_api.Common.SortedTree.{avl_insert, avl_comp_uint16}
use oonf_api.Rfc5444.Reader.Tlv.Bounds.{extent}
use oonf_api.Rfc5444.Reader.Tlv.{TlvEntry}
use oonf_api.Rfc5444.Reader.TlvBlock.{Block, free_tlvblock, store_tlv}

abbrev pub All {ℓ} : {A : Type ℓ} → (A → Type 0) → List A → Type 0
All P [] = Unit
All P (x ∷ xs) = P x × All P xs

-- The value of a stored TLV lies in front of `eob`.
abbrev pub ValueIn : ℕ → TlvEntry → Type 0
ValueIn eob e = (v : ℕ) → e.value ≡ some v → v + extent e ≤ eob

-- The types do not fall from one TLV to the next.
abbrev pub IsSorted : List TlvEntry → Type 0
IsSorted [] = Unit
IsSorted (x ∷ xs) = All (λ y. x.order ≤ y.order) xs × IsSorted xs

abbrev insert : List TlvEntry → TlvEntry → List TlvEntry
insert = avl_insert avl_comp_uint16 (λ t. t.order)

before_iff : (a b : ℕ) → ltb_ℤ (avl_comp_uint16 a b) (pos 0) ≡ ltb a b
unfolding avl_comp_uint16
before_iff a b = ground arith

insert-cons :
    (x e : TlvEntry) (xs : List TlvEntry)
    → insert (x ∷ xs) e ≡ (if ltb e.order x.order then e ∷ x ∷ xs else x ∷ insert xs e)
unfolding avl_insert
insert-cons x e xs = rw before_iff

length-insert : (xs : List TlvEntry) (e : TlvEntry) → length (insert xs e) ≡ suc (length xs)
unfolding avl_insert
length-insert [] e = refl
length-insert (x ∷ xs) e = rw insert-cons (ground (arith, length-insert xs e))

All-insert :
    (P : TlvEntry → Type 0) (xs : List TlvEntry) (e : TlvEntry)
    → P e
    → All P xs
    → All P (insert xs e)
unfolding avl_insert
All-insert P [] e h hs = (h, tt)
All-insert P (x ∷ xs) e h (hx, hs) = elim (Bool-cases (ltb e.order x.order)) [
  | inl lt ↦ rw (insert-cons x e xs) (rw lt (h, (hx, hs)))
  | inr ge ↦ rw (insert-cons x e xs) (rw ge (hx, All-insert P xs e h hs))
]

All-le :
    (a b : ℕ) (xs : List TlvEntry) → a ≤ b → All (λ y. b ≤ y.order) xs → All (λ y. a ≤ y.order) xs
All-le a b [] le h = tt
All-le a b (x ∷ xs) le (h, hs) = (omega arith, All-le a b xs le hs)

IsSorted-insert : (xs : List TlvEntry) (e : TlvEntry) → IsSorted xs → IsSorted (insert xs e)
unfolding avl_insert
IsSorted-insert [] e h = (tt, tt)
IsSorted-insert (x ∷ xs) e (first, rest) = elim (Bool-cases (ltb e.order x.order)) [
  | inl lt ↦
      let le : e.order ≤ x.order = ground arith in
      rw (insert-cons x e xs) (rw lt ((le, All-le e.order x.order xs le first), (first, rest)))
  | inr ge ↦
      let le : x.order ≤ e.order = ground arith in
      rw (insert-cons x e xs)
        (rw ge (All-insert (λ y. x.order ≤ y.order) xs e le first, IsSorted-insert xs e rest))
]

-- The entries in the tree and the memory that is left.
abbrev pub owned : Block → ℕ
owned b = b.memory + length b.tlvs

pub owned-free_tlvblock : (b : Block) → owned (free_tlvblock b) ≡ owned b
unfolding free_tlvblock
owned-free_tlvblock b = omega arith

-- What a block keeps through all steps: sorted TLVs whose values lie inside the stream, in as
-- much memory as before.
pub record IsBlock (eob total : ℕ) (b : Block) : Type 0 where
  pub values : All (ValueIn eob) b.tlvs
  pub sorted : IsSorted b.tlvs
  pub memory_kept : owned b ≡ total

pub store_tlv-IsBlock :
    {eob total : ℕ} (b : Block) (e : TlvEntry)
    → b.memory ≢ 0
    → ValueIn eob e
    → IsBlock eob total b
    → IsBlock eob total (store_tlv b e)
unfolding store_tlv
store_tlv-IsBlock {eob} b e some_left v h = record {
  values = All-insert (ValueIn eob) b.tlvs e v h.values;
  sorted = IsSorted-insert b.tlvs e h.sorted;
  memory_kept = omega (arith, h.memory_kept, length-insert b.tlvs e);
}
