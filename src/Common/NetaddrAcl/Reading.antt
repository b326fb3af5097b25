-- ===== src/Common/NetaddrAcl/Reading.antt =====
-- Reading the strings of an access control list (`netaddr_acl_from_strarray`,
-- src-api/common/netaddr_acl.c): the second loop fills what the first one counted.
use mathlib.Core.List.{append_assoc, append-nil}
use oonf_api.Base.Exec.{Exec, done, ◌>>=◌}
use oonf_api.Base.Int.{ℤ, pos, negsuc}
use oonf_api.Base.{
  ℕ, suc, ◌+◌, ◌≡◌, refl, ap, ◌∙◌, inl, inr, true, false, ◌==◌, leb, if◌then◌else◌, List, [], ◌∷◌,
  ◌++◌, length, set, Option, none, some, Option-cases, length-append, arith,
}
use oonf_api.Common.Netaddr.{Netaddr}
use oonf_api.Common.NetaddrAcl.{
  NetaddrAcl, Text, first_char, next_char, netaddr_acl_handle_keywords, calloc_netaddr, read_slot,
  read_entry, read_entries,
}
use oonf_api.Common.SortedTree.{is_zero}
use oonf_api.Common.NetaddrAcl.Entries.{
  Entry, order, default, accept_text, reject_text, entry_of, add_accept, add_reject, Settings,
  apply, accepts, rejects, settings, IsEntry, says_order, says_default, says_reject, says_accept,
  entry_of-IsEntry,
}

-- Arrays filled so far, with room for the rest.
unfoldable pub filled : List Netaddr → ℕ → List Netaddr → ℕ → Settings → NetaddrAcl
filled xs k ys l f = record {
  accept = xs ++ calloc_netaddr k;
  accept_count = length xs;
  reject = ys ++ calloc_netaddr l;
  reject_count = length ys;
  reject_first = f.0;
  accept_default = f.1;
}

set-append :
    (xs ys : List Netaddr) (old a : Netaddr)
    → set (xs ++ (old ∷ ys)) (length xs) a ≡ (xs ++ (a ∷ [])) ++ ys
set-append [] ys old a = refl
set-append (x ∷ xs) ys old a = ap (λ l. x ∷ l) (set-append xs ys old a)

module _ (netaddr_from_string : Text → Option Netaddr) where
  abbrev pub parse_all : List Text → Option (List Netaddr)
  parse_all [] = some []
  parse_all (t ∷ ts) = elim (netaddr_from_string t) [
    | none ↦ none
    | some a ↦ elim (parse_all ts) [ none ↦ none | some rest ↦ some (a ∷ rest) ]
  ]

  -- The list that the strings describe, if all their addresses are addresses.
  abbrev pub described : List Text → Option NetaddrAcl
  described value = elim (parse_all (accepts value)) [
    | none ↦ none
    | some xs ↦ elim (parse_all (rejects value)) [
      | none ↦ none
      | some ys ↦ some (record {
        accept = xs;
        accept_count = length xs;
        reject = ys;
        reject_count = length ys;
        reject_first = (settings value (false, false)).0;
        accept_default = (settings value (false, false)).1;
      })
    ]
  ]

  read_slot-filled :
      (xs : List Netaddr) (k : ℕ) (t : Text)
      → read_slot netaddr_from_string (xs ++ calloc_netaddr (suc k)) (length xs) t
        ≡ done (elim (netaddr_from_string t) [
          | none ↦ none
          | some a ↦ some ((xs ++ (a ∷ [])) ++ calloc_netaddr k)
        ])
  unfolding read_slot calloc_netaddr
  read_slot-filled xs k t =
      let size : length (xs ++ calloc_netaddr (suc k))
          ≡ length xs + suc (length (calloc_netaddr k)) =
        length-append xs (calloc_netaddr (suc k)) in
      let room : leb (length (xs ++ calloc_netaddr (suc k))) (length xs) ≡ false = ground arith in
      rw room (elim (Option-cases (netaddr_from_string t)) [
        | inl e ↦ rw e refl
        | inr (a, e) ↦ rw (e, set-append xs (calloc_netaddr k) _ a) refl
      ])

  read_entry-reject :
      (pre pre' : List Netaddr) (k l : ℕ) (f : Settings) (s t : Text)
      → (first_char s == 45) ≡ true
      → next_char s ≡ t
      → read_entry netaddr_from_string (filled pre k pre' (suc l) f) s
        ≡ done (elim (netaddr_from_string t) [
          | none ↦ none
          | some a ↦ some (filled pre k (pre' ++ (a ∷ [])) l f)
        ])
  unfolding read_entry filled
  read_entry-reject pre pre' k l f s t m e =
      rw (m, e, read_slot-filled pre' l t)
        (elim (Option-cases (netaddr_from_string t)) [
          | inl q ↦ rw q refl
          | inr (a, q) ↦ rw (q, length-append pre' (a ∷ [])) refl
        ])

  read_entry-accept :
      (pre pre' : List Netaddr) (k l : ℕ) (f : Settings) (s t : Text)
      → (first_char s == 45) ≡ false
      → (if first_char s == 43 then next_char s else s) ≡ t
      → read_entry netaddr_from_string (filled pre (suc k) pre' l f) s
        ≡ done (elim (netaddr_from_string t) [
          | none ↦ none
          | some a ↦ some (filled (pre ++ (a ∷ [])) k pre' l f)
        ])
  unfolding read_entry filled
  read_entry-accept pre pre' k l f s t m e =
      rw (m, e, read_slot-filled pre k t)
        (elim (Option-cases (netaddr_from_string t)) [
          | inl q ↦ rw q refl
          | inr (a, q) ↦ rw (q, length-append pre (a ∷ [])) refl
        ])

  module _ (s : Text) (value : List Text) (acl : NetaddrAcl) where
    after_keywords : NetaddrAcl × ℤ → Exec (Option NetaddrAcl)
    after_keywords (acl', r) =
        if is_zero r
        then read_entries netaddr_from_string acl' value
        else read_entry netaddr_from_string acl' s >>= (λ result. elim result [
          | none ↦ done none
          | some acl'' ↦ read_entries netaddr_from_string acl'' value
        ])

    read_entries-word :
        (acl' : NetaddrAcl)
        → netaddr_acl_handle_keywords acl s ≡ (acl', pos 0)
        → read_entries netaddr_from_string acl (s ∷ value)
          ≡ read_entries netaddr_from_string acl' value
    unfolding read_entries after_keywords
    read_entries-word acl' h = ap after_keywords h

    read_entries-address :
        (o : Option NetaddrAcl)
        → netaddr_acl_handle_keywords acl s ≡ (acl, negsuc 0)
        → read_entry netaddr_from_string acl s ≡ done o
        → read_entries netaddr_from_string acl (s ∷ value)
          ≡ elim o [ none ↦ done none | some acl' ↦ read_entries netaddr_from_string acl' value ]
    unfolding read_entries after_keywords
    read_entries-address o h e =
        ap after_keywords h
        ∙ ap
            (λ r. r >>= (λ result. elim result [
              | none ↦ done none
              | some acl'' ↦ read_entries netaddr_from_string acl'' value
            ]))
            e

  unfoldable pub join :
      Option (List Netaddr)
      → Option (List Netaddr)
      → List Netaddr
      → List Netaddr
      → Settings
      → Option NetaddrAcl
  join none ys pre pre' f = none
  join (some xs) none pre pre' f = none
  join (some xs) (some ys) pre pre' f = some (filled (pre ++ xs) 0 (pre' ++ ys) 0 f)

  join-none :
      (x : Option (List Netaddr)) (pre pre' : List Netaddr) (f : Settings)
      → join x none pre pre' f ≡ none
  unfolding join
  join-none none pre pre' f = refl
  join-none (some xs) pre pre' f = refl

  module _ (a : Netaddr) (pre pre' : List Netaddr) (f : Settings) where
    join-reject :
        (x y : Option (List Netaddr))
        → join x y pre (pre' ++ (a ∷ [])) f
          ≡ join x (elim y [ none ↦ none | some ys ↦ some (a ∷ ys) ]) pre pre' f
    unfolding join
    join-reject none y = refl
    join-reject (some xs) none = refl
    join-reject (some xs) (some ys) = rw append_assoc refl

    join-accept :
        (x y : Option (List Netaddr))
        → join x y (pre ++ (a ∷ [])) pre' f
          ≡ join (elim x [ none ↦ none | some xs ↦ some (a ∷ xs) ]) y pre pre' f
    unfolding join
    join-accept none y = refl
    join-accept (some xs) none = refl
    join-accept (some xs) (some ys) = rw append_assoc refl

  pub read_entries-join :
      (pre pre' : List Netaddr) (f : Settings) (value : List Text)
      → read_entries netaddr_from_string
          (filled pre (length (accepts value)) pre' (length (rejects value)) f)
          value
        ≡ done (
            join
              (parse_all (accepts value))
              (parse_all (rejects value))
              pre
              pre'
              (settings value f))
  unfolding read_entries filled join
  read_entries-join pre pre' f [] = rw append-nil (rw append-nil refl)
  read_entries-join pre pre' f (s ∷ value) =
      by_entry (λ pre pre' g. read_entries-join pre pre' g value) (entry_of s) (entry_of-IsEntry s)
    where
      by_entry :
          ((pre pre' : List Netaddr) (g : Settings)
            → read_entries netaddr_from_string
                (filled pre (length (accepts value)) pre' (length (rejects value)) g)
                value
              ≡ done (
                  join
                    (parse_all (accepts value))
                    (parse_all (rejects value))
                    pre
                    pre'
                    (settings value g)))
          → (e : Entry) → IsEntry s e
          → read_entries netaddr_from_string
              (filled pre
                (length (add_accept e (accepts value)))
                pre'
                (length (add_reject e (rejects value)))
                f)
              (s ∷ value)
            ≡ done (
                join
                  (parse_all (add_accept e (accepts value)))
                  (parse_all (add_reject e (rejects value)))
                  pre
                  pre'
                  (settings value (apply e f)))
      by_entry rest (order _) (says_order b h) =
          read_entries-word s value _ _ (h _) ∙ rest pre pre' (b, f.1)
      by_entry rest (default _) (says_default b h) =
          read_entries-word s value _ _ (h _) ∙ rest pre pre' (f.0, b)
      by_entry rest (reject_text _) (says_reject t h m e) =
          read_entries-address s value _ _ (h _)
            (read_entry-reject pre pre' _ (length (rejects value)) f s t m e)
          ∙ elim (Option-cases (netaddr_from_string t)) [
            | inl q ↦ rw (q, join-none) refl
            | inr (a, q) ↦
                rw q (rest pre (pre' ++ (a ∷ [])) f ∙ ap done (join-reject a pre pre' _ _ _))
          ]
      by_entry rest (accept_text _) (says_accept t h m e) =
          read_entries-address s value _ _ (h _)
            (read_entry-accept pre pre' (length (accepts value)) _ f s t m e)
          ∙ elim (Option-cases (netaddr_from_string t)) [
            | inl q ↦ rw q refl
            | inr (a, q) ↦
                rw q (rest (pre ++ (a ∷ [])) pre' f ∙ ap done (join-accept a pre pre' _ _ _))
          ]
