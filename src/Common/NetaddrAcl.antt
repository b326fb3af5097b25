-- ===== src/Common/NetaddrAcl.antt =====
-- Access control lists of addresses (src-api/common/netaddr_acl.c and netaddr_acl.h). A string is
-- the list of its bytes without the terminator; `netaddr_from_string` is a parameter, with no
-- result for a text that is not an address, and so is the success of each allocation.
pub mod Decision
pub mod Entries
pub mod Settings
pub mod Reading
pub mod Outcome
use oonf_api.Base.Exec.{Exec, done, fault, out_of_bounds, ◌>>=◌}
use oonf_api.Base.Int.{ℤ, pos, negsuc, sub_ℕ}
use oonf_api.Base.{
  ℕ, zero, suc, ◌+◌, ◌-◌, Bool, true, false, not, ◌&&◌, ◌||◌, ◌==◌, ltb, leb, if◌then◌else◌, List,
  [], ◌∷◌, length, set, replicate, Option, none, some,
}
use oonf_api.Common.Netaddr.{Netaddr, netaddr_is_in_subnet}
use oonf_api.Common.SortedTree.{is_zero}

pub record NetaddrAcl : Type 0 where
  pub accept : List Netaddr
  pub accept_count : ℕ
  pub reject : List Netaddr
  pub reject_count : ℕ
  pub reject_first : Bool
  pub accept_default : Bool

abbrev pub Text : Type 0
Text = List ℕ

-- "default_accept", "default_reject", "first_accept" and "first_reject".
abbrev pub default_accept : Text
default_accept = 100 ∷ 101 ∷ 102 ∷ 97 ∷ 117 ∷ 108 ∷ 116 ∷ 95 ∷ 97 ∷ 99 ∷ 99 ∷ 101 ∷ 112 ∷ 116 ∷ []

abbrev pub default_reject : Text
default_reject = 100 ∷ 101 ∷ 102 ∷ 97 ∷ 117 ∷ 108 ∷ 116 ∷ 95 ∷ 114 ∷ 101 ∷ 106 ∷ 101 ∷ 99 ∷ 116 ∷ []

abbrev pub first_accept : Text
first_accept = 102 ∷ 105 ∷ 114 ∷ 115 ∷ 116 ∷ 95 ∷ 97 ∷ 99 ∷ 99 ∷ 101 ∷ 112 ∷ 116 ∷ []

abbrev pub first_reject : Text
first_reject = 102 ∷ 105 ∷ 114 ∷ 115 ∷ 116 ∷ 95 ∷ 114 ∷ 101 ∷ 106 ∷ 101 ∷ 99 ∷ 116 ∷ []

unfoldable pub to_lower : ℕ → ℕ
to_lower c = if leb 65 c && leb c 90 then c + 32 else c

-- `strcasecmp`
unfoldable pub strcasecmp : Text → Text → ℤ
unfolding to_lower
strcasecmp [] [] = pos 0
strcasecmp [] (y ∷ ys) = sub_ℕ 0 (to_lower y)
strcasecmp (x ∷ xs) [] = pos (to_lower x)
strcasecmp (x ∷ xs) (y ∷ ys) =
    if to_lower x == to_lower y then strcasecmp xs ys else sub_ℕ (to_lower x) (to_lower y)

-- The character that a pointer to the string shows.
unfoldable pub first_char : Text → ℕ
first_char [] = 0
first_char (c ∷ cs) = c

unfoldable pub next_char : Text → Text
next_char [] = []
next_char (c ∷ cs) = cs

unfoldable pub cleared_acl : NetaddrAcl
cleared_acl = record {
  accept = [];
  accept_count = 0;
  reject = [];
  reject_count = 0;
  reject_first = false;
  accept_default = false;
}

unfoldable pub netaddr_acl_add : NetaddrAcl → NetaddrAcl
unfolding cleared_acl
netaddr_acl_add acl = cleared_acl

-- The arrays are freed with it.
unfoldable pub netaddr_acl_remove : NetaddrAcl → NetaddrAcl
unfolding cleared_acl
netaddr_acl_remove acl = cleared_acl

unfoldable pub netaddr_acl_handle_keywords : NetaddrAcl → Text → NetaddrAcl × ℤ
unfolding strcasecmp
netaddr_acl_handle_keywords acl cmd =
    if is_zero (strcasecmp cmd default_accept)
    then (record acl { accept_default = true }, pos 0)
    else if is_zero (strcasecmp cmd default_reject)
    then (record acl { accept_default = false }, pos 0)
    else if is_zero (strcasecmp cmd first_accept)
    then (record acl { reject_first = false }, pos 0)
    else if is_zero (strcasecmp cmd first_reject)
    then (record acl { reject_first = true }, pos 0)
    else (acl, negsuc 0)

-- `_is_in_array`
unfoldable pub is_in_array : List Netaddr → ℕ → Netaddr → Exec Bool
unfolding netaddr_is_in_subnet
is_in_array array zero a = done false
is_in_array [] (suc n) a = fault out_of_bounds
is_in_array (x ∷ array) (suc n) a =
    let rest = is_in_array array n a in
    netaddr_is_in_subnet x a >>= (λ found. if found then done true else rest)

unfoldable pub netaddr_acl_check_accept : NetaddrAcl → Netaddr → Exec Bool
unfolding is_in_array
netaddr_acl_check_accept acl a = do
  rejected ← if acl.reject_first then is_in_array acl.reject acl.reject_count a else done false
  if rejected then done false else (do
    accepted ← is_in_array acl.accept acl.accept_count a
    if accepted then done true else (do
      late ← if acl.reject_first then done false else is_in_array acl.reject acl.reject_count a
      if late then done false else done acl.accept_default))

-- The first loop of `netaddr_acl_from_strarray`: the list and the numbers of addresses to accept
-- and to reject.
unfoldable pub count_entries : NetaddrAcl → List Text → ℕ → ℕ → NetaddrAcl × (ℕ × ℕ)
unfolding netaddr_acl_handle_keywords first_char
count_entries acl [] accept_count reject_count = (acl, (accept_count, reject_count))
count_entries acl (ptr ∷ value) accept_count reject_count =
    let (acl, r) = netaddr_acl_handle_keywords acl ptr in
    if is_zero r
    then count_entries acl value accept_count reject_count
    else if first_char ptr == 45
    then count_entries acl value accept_count (reject_count + 1)
    else count_entries acl value (accept_count + 1) reject_count

-- What `calloc` returns: cleared addresses.
unfoldable pub calloc_netaddr : ℕ → List Netaddr
calloc_netaddr n = replicate n (record { addr = replicate 16 0; addr_type = 0; prefix_len = 0 })

module _ (netaddr_from_string : Text → Option Netaddr) where
  -- An address read into a slot of an array; no array for a text that is not an address.
  unfoldable pub read_slot : List Netaddr → ℕ → Text → Exec (Option (List Netaddr))
  read_slot array i text =
      if leb (length array) i
      then fault out_of_bounds
      else done (elim (netaddr_from_string text) [ none ↦ none | some a ↦ some (set array i a) ])

  -- A string that is no keyword, in the second loop.
  unfoldable pub read_entry : NetaddrAcl → Text → Exec (Option NetaddrAcl)
  unfolding first_char next_char read_slot
  read_entry acl ptr =
      let text = if first_char ptr == 45 || first_char ptr == 43 then next_char ptr else ptr in
      if first_char ptr == 45
      then (do
        slot ← read_slot acl.reject acl.reject_count text
        done (elim slot [
          | none ↦ none
          | some array ↦ some (record acl { reject = array; reject_count = acl.reject_count + 1 })
        ]))
      else (do
        slot ← read_slot acl.accept acl.accept_count text
        done (elim slot [
          | none ↦ none
          | some array ↦ some (record acl { accept = array; accept_count = acl.accept_count + 1 })
        ]))

  -- The second loop, no list for the jump to `from_entry_error`.
  unfoldable pub read_entries : NetaddrAcl → List Text → Exec (Option NetaddrAcl)
  unfolding netaddr_acl_handle_keywords read_entry
  read_entries acl [] = done (some acl)
  read_entries acl (ptr ∷ value) =
      let (acl, r) = netaddr_acl_handle_keywords acl ptr in
      if is_zero r
      then read_entries acl value
      else read_entry acl ptr
        >>= (λ result. elim result [ none ↦ done none | some acl ↦ read_entries acl value ])

  -- `accept_memory` and `reject_memory` tell whether the two allocations succeed.
  unfoldable pub netaddr_acl_from_strarray :
      Bool → Bool → NetaddrAcl → List Text → Exec (NetaddrAcl × ℤ)
  unfolding cleared_acl netaddr_acl_remove count_entries calloc_netaddr read_entries
  netaddr_acl_from_strarray accept_memory reject_memory acl value =
      let (acl, (accepts, rejects)) = count_entries cleared_acl value 0 0 in
      if ltb 0 accepts && not accept_memory
      then done (netaddr_acl_remove acl, negsuc 0)
      else let acl = record acl { accept = calloc_netaddr accepts } in
        if ltb 0 rejects && not reject_memory
        then done (netaddr_acl_remove acl, negsuc 0)
        else let acl = record acl { reject = calloc_netaddr rejects } in
          read_entries acl value >>= (λ result.
            done
              (elim result [ none ↦ (netaddr_acl_remove acl, negsuc 0) | some acl ↦ (acl, pos 0) ]))
