-- ===== src/Common/NetaddrAcl/Entries.antt =====
-- What a list of strings says about an access control list
-- (`netaddr_acl_from_strarray`, src-api/common/netaddr_acl.c): each string is a setting or an
-- address for one of the two lists.
use oonf_api.Base.Int.{pos, negsuc}
use oonf_api.Base.{
  ℕ, suc, ◌+◌, ◌≡◌, refl, inl, inr, Bool, true, false, ◌==◌, if◌then◌else◌, List, [], ◌∷◌, length,
  Bool-cases, arith,
}
use oonf_api.Common.NetaddrAcl.{
  NetaddrAcl, Text, default_accept, default_reject, first_accept, first_reject, strcasecmp,
  first_char, next_char, netaddr_acl_handle_keywords, count_entries,
}
use oonf_api.Common.SortedTree.{is_zero}

pub data Entry : Type 0 where
  order default : Bool → Entry
  accept_text reject_text : Text → Entry

-- The meaning of a string: the four words in any case; '-' before an address to reject, '+' or
-- nothing before one to accept.
abbrev pub entry_of : Text → Entry
unfolding first_char next_char
entry_of s =
    if is_zero (strcasecmp s default_accept)
    then default true
    else if is_zero (strcasecmp s default_reject)
    then default false
    else if is_zero (strcasecmp s first_accept)
    then order false
    else if is_zero (strcasecmp s first_reject)
    then order true
    else if first_char s == 45
    then reject_text (next_char s)
    else accept_text (if first_char s == 43 then next_char s else s)

abbrev pub add_accept : Entry → List Text → List Text
add_accept (order b) ts = ts
add_accept (default b) ts = ts
add_accept (accept_text t) ts = t ∷ ts
add_accept (reject_text t) ts = ts

abbrev pub add_reject : Entry → List Text → List Text
add_reject (order b) ts = ts
add_reject (default b) ts = ts
add_reject (accept_text t) ts = ts
add_reject (reject_text t) ts = t ∷ ts

-- Whether rejecting comes first, and whether the default is to accept.
abbrev pub Settings : Type 0
Settings = Bool × Bool

abbrev pub apply : Entry → Settings → Settings
apply (order b) (f, d) = (b, d)
apply (default b) (f, d) = (f, b)
apply (accept_text t) s = s
apply (reject_text t) s = s

abbrev pub accepts : List Text → List Text
accepts [] = []
accepts (s ∷ value) = add_accept (entry_of s) (accepts value)

abbrev pub rejects : List Text → List Text
rejects [] = []
rejects (s ∷ value) = add_reject (entry_of s) (rejects value)

abbrev pub settings : List Text → Settings → Settings
settings [] f = f
settings (s ∷ value) f = settings value (apply (entry_of s) f)

-- How the code reads a string, for each meaning.
pub data IsEntry (s : Text) : Entry → Type 0 where
  says_order :
      (b : Bool)
      → ((acl : NetaddrAcl)
          → netaddr_acl_handle_keywords acl s ≡ (record acl { reject_first = b }, pos 0))
      → IsEntry s (order b)
  says_default :
      (b : Bool)
      → ((acl : NetaddrAcl)
          → netaddr_acl_handle_keywords acl s ≡ (record acl { accept_default = b }, pos 0))
      → IsEntry s (default b)
  says_reject :
      (t : Text)
      → ((acl : NetaddrAcl) → netaddr_acl_handle_keywords acl s ≡ (acl, negsuc 0))
      → (first_char s == 45) ≡ true
      → next_char s ≡ t
      → IsEntry s (reject_text t)
  says_accept :
      (t : Text)
      → ((acl : NetaddrAcl) → netaddr_acl_handle_keywords acl s ≡ (acl, negsuc 0))
      → (first_char s == 45) ≡ false
      → (if first_char s == 43 then next_char s else s) ≡ t
      → IsEntry s (accept_text t)

pub entry_of-IsEntry : (s : Text) → IsEntry s (entry_of s)
unfolding netaddr_acl_handle_keywords entry_of
entry_of-IsEntry s = elim (Bool-cases (is_zero (strcasecmp s default_accept))) [
  | inl e ↦ rw e (says_default true (λ acl. rw e refl))
  | inr a ↦ elim (Bool-cases (is_zero (strcasecmp s default_reject))) [
    | inl e ↦ rw (a, e) (says_default false (λ acl. rw (a, e) refl))
    | inr b ↦ elim (Bool-cases (is_zero (strcasecmp s first_accept))) [
      | inl e ↦ rw (a, b, e) (says_order false (λ acl. rw (a, b, e) refl))
      | inr c ↦ elim (Bool-cases (is_zero (strcasecmp s first_reject))) [
        | inl e ↦ rw (a, b, c, e) (says_order true (λ acl. rw (a, b, c, e) refl))
        | inr d ↦ elim (Bool-cases (first_char s == 45)) [
          | inl m ↦ rw (a, b, c, d, m) (says_reject _ (λ acl. rw (a, b, c, d) refl) m refl)
          | inr m ↦ rw (a, b, c, d, m) (says_accept _ (λ acl. rw (a, b, c, d) refl) m refl)
        ]
      ]
    ]
  ]
]

unfoldable pub with_settings : NetaddrAcl → Settings → NetaddrAcl
with_settings acl f = record acl { reject_first = f.0; accept_default = f.1 }

pub count_entries-settings :
    (acl : NetaddrAcl) (f : Settings) (value : List Text) (a r : ℕ)
    → count_entries (with_settings acl f) value a r ≡ (
      with_settings acl (settings value f),
      (a + length (accepts value), r + length (rejects value)),
    )
unfolding count_entries with_settings
count_entries-settings acl f [] a r =
    let x : a + 0 ≡ a = omega arith in let y : r + 0 ≡ r = omega arith in rw (x, y) refl
count_entries-settings acl f (s ∷ value) a r =
    by_entry (λ g a r. count_entries-settings acl g value a r) (entry_of s) (entry_of-IsEntry s)
  where
    by_entry :
        ((g : Settings) (a r : ℕ)
          → count_entries (with_settings acl g) value a r ≡ (
            with_settings acl (settings value g),
            (a + length (accepts value), r + length (rejects value)),
          ))
        → (e : Entry) → IsEntry s e
        → count_entries (with_settings acl f) (s ∷ value) a r ≡ (
          with_settings acl (settings value (apply e f)),
          (a + length (add_accept e (accepts value)), r + length (add_reject e (rejects value))),
        )
    by_entry rest (order _) (says_order b h) = rw (h (with_settings acl f)) (rest (b, f.1) a r)
    by_entry rest (default _) (says_default b h) = rw (h (with_settings acl f)) (rest (f.0, b) a r)
    by_entry rest (reject_text _) (says_reject t h m e) =
        let one : r + 1 + length (rejects value) ≡ r + suc (length (rejects value)) = omega arith in
        rw (h (with_settings acl f), m) (rw one at (rest f a (r + 1)))
    by_entry rest (accept_text _) (says_accept t h m e) =
        let one : a + 1 + length (accepts value) ≡ a + suc (length (accepts value)) = omega arith in
        rw (h (with_settings acl f), m) (rw one at (rest f (a + 1) r))
