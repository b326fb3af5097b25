-- ===== src/Rfc5444/Reader/Schedule/Linked.antt =====
-- Entries with TLVs linked to them, in `_schedule_tlvblock` (src-api/rfc5444/rfc5444_reader.c).
use oonf_api.Base.Exec.{AnyFault, Exec, done, fault, Ends, ◌>>=◌}
use oonf_api.Base.Int.{ℤ, pos, negsuc, ltb_ℤ}
use oonf_api.Base.{
  ℕ, suc, ◌<◌, ◌≡◌, ◌≢◌, refl, sym, ◌∙◌, Bool, true, false, not, Bool-cases, inl, inr, ◌&&◌, ◌||◌,
  List, [], ◌∷◌, ◌++◌, set, get_elem?, get_elem?-cases, get_elem?-set_ne, Option, none, some, arith,
  ◌==◌,
}
use oonf_api.Common.SortedTree.{is_zero}
use oonf_api.Rfc5444.Reader.Consumer.{ConsumerEntry, compare_tlvtypes}
use oonf_api.Rfc5444.Reader.Linking.{clear_entry, link_tlv, is_null, copy_first}
use oonf_api.Rfc5444.Reader.Schedule.Turns.{optional_fits}
use oonf_api.Rfc5444.Reader.Tlv.{TlvEntry}
use mathlib.Core.Bool.{false≢true, true≢false}

-- The mandatory entries in front of a place have a TLV.
abbrev pub AreLinked : List ConsumerEntry → ℕ → Type 0
AreLinked entries n =
    (i : ℕ) (e : ConsumerEntry)
    → i < n
    → get_elem? entries i ≡ some e
    → e.mandatory ≡ true
    → is_null e.tlv ≡ false

-- The entry at a place has a TLV, if there is one.
abbrev pub IsLinked : List ConsumerEntry → ℕ → Type 0
IsLinked entries at = (e : ConsumerEntry) → get_elem? entries at ≡ some e → is_null e.tlv ≡ false

-- An entry that a TLV is linked to has one, and is mandatory as before.
pub link_tlv-IsLinked :
    (buf : List ℕ) (e : ConsumerEntry) (t : TlvEntry) (at : ℕ)
    → Ends AnyFault (λ e'. is_null e'.tlv ≡ false) (link_tlv buf e t at)
unfolding link_tlv
link_tlv-IsLinked buf e t at = elim (Bool-cases (is_null e.tlv)) [
  | inl q ↦ rw q (copied (copy_first buf e t))
  | inr q ↦ rw q (grown e.tlv)
]
  where
    copied :
        (m : Exec (Option (List ℕ)))
        → Ends AnyFault
            (λ e'. is_null e'.tlv ≡ false)
            (m >>= (λ c. done (record e { tlv = at ∷ []; copy_value = c })))
    copied (done c) = refl
    copied (fault f) = tt

    grown : (l : List ℕ) → is_null (l ++ (at ∷ [])) ≡ false
    grown [] = refl
    grown (x ∷ l) = refl

pub or_false : (a b : Bool) → (a || b) ≡ false → (a ≡ false) × (b ≡ false)
or_false false b h = (refl, h)
or_false true b h = absurd (true≢false h)

-- A write at the present entry leaves those in front of it.
pub AreLinked-set :
    (entries : List ConsumerEntry) (at : ℕ) (e : ConsumerEntry)
    → AreLinked entries at
    → AreLinked (set entries at e) at
AreLinked-set entries at e h i e' lt here must =
    h i e' lt (sym (get_elem?-set_ne entries at i e (omega arith)) ∙ here) must

pub get_elem?-clear_entry :
    (entries : List ConsumerEntry) (at i : ℕ)
    → at ≢ i
    → get_elem? (clear_entry entries at) i ≡ get_elem? entries i
unfolding clear_entry
get_elem?-clear_entry entries at i ne = elim (get_elem?-cases entries at) [
  | inl h ↦ rw (h.0, clear_entry) refl
  | inr h ↦ rw (h.1, clear_entry) (get_elem?-set_ne entries at i _ ne)
]

pub excused : (must matched : Bool) → (must && not matched) ≡ false → must ≡ true → matched ≡ true
excused must true h m = refl
excused false false h m = absurd (false≢true m)
excused true false h m = absurd (true≢false h)

pub is_zero-ltb_ℤ : (z : ℤ) → is_zero z ≡ true → ltb_ℤ z (pos 0) ≡ true → ⊥
is_zero-ltb_ℤ (pos n) h lt = absurd (false≢true (sym (ground arith) ∙ lt))
is_zero-ltb_ℤ (negsuc n) h lt =
    let no : (suc n == 0) ≡ false = ground arith in absurd (false≢true (sym no ∙ h))

abbrev pub has_tlv : Option TlvEntry → Bool
has_tlv none = false
has_tlv (some t) = true

pub has_tlv-fits :
    (t : Option TlvEntry) (e : Option ConsumerEntry) → optional_fits t e ≡ true → has_tlv t ≡ true
has_tlv-fits none e h = absurd (false≢true h)
has_tlv-fits (some t) e h = refl

pub fits-ltb :
    (t : Option TlvEntry) (e : ConsumerEntry)
    → optional_fits t (some e) ≡ true
    → ltb_ℤ (compare_tlvtypes t (some e)) (pos 0) ≡ true
    → ⊥
fits-ltb none e h lt = absurd (false≢true h)
fits-ltb (some t) e h lt = is_zero-ltb_ℤ (compare_tlvtypes (some t) (some e)) h lt
