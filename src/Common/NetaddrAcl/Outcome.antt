-- ===== src/Common/NetaddrAcl/Outcome.antt =====
-- What reading the strings of an access control list returns (`netaddr_acl_from_strarray`,
-- src-api/common/netaddr_acl.c).
use mathlib.Core.List.{append-nil}
use oonf_api.Base.Exec.{Exec, done, ◌>>=◌}
use oonf_api.Base.Int.{ℤ, pos, negsuc}
use oonf_api.Base.{
  ℕ, ◌+◌, ◌≡◌, refl, ap, ◌∙◌, inl, inr, Bool, true, false, ◌||◌, ltb, not, ◌&&◌, if◌then◌else◌,
  List, [], length, Option, none, some, Bool-cases, arith,
}
use oonf_api.Common.Netaddr.{Netaddr}
use oonf_api.Common.NetaddrAcl.{
  NetaddrAcl, Text, cleared_acl, netaddr_acl_remove, count_entries, calloc_netaddr, read_entries,
  netaddr_acl_from_strarray,
}
use oonf_api.Common.NetaddrAcl.Settings.{settings-settings}
use oonf_api.Common.NetaddrAcl.Entries.{
  accepts, rejects, settings, with_settings, count_entries-settings,
}
use oonf_api.Common.NetaddrAcl.Reading.{parse_all, described, filled, join, read_entries-join}

module _ (netaddr_from_string : Text → Option Netaddr) where
  counted :
      (value : List Text)
      → count_entries cleared_acl value 0 0 ≡ (
        with_settings cleared_acl (settings value (false, false)),
        (length (accepts value), length (rejects value)),
      )
  unfolding with_settings cleared_acl
  counted value =
      let zero_add : (n : ℕ) → 0 + n ≡ n = λ n. omega arith in
      rw (zero_add (length (accepts value)), zero_add (length (rejects value))) at
        (count_entries-settings cleared_acl (false, false) value 0 0)

  -- What the function returns.
  abbrev pub outcome : Option NetaddrAcl → NetaddrAcl × ℤ
  outcome none = (cleared_acl, negsuc 0)
  outcome (some acl) = (acl, pos 0)

  join-described :
      (value : List Text) (x y : Option (List Netaddr))
      → parse_all netaddr_from_string (accepts value) ≡ x
      → parse_all netaddr_from_string (rejects value) ≡ y
      → join netaddr_from_string x y [] [] (settings value (false, false))
        ≡ described netaddr_from_string value
  unfolding join filled calloc_netaddr
  join-described value none y p q = rw (p, described) refl
  join-described value (some xs) none p q = rw (p, q, described) refl
  join-described value (some xs) (some ys) p q =
      rw (p, q, described) (rw append-nil (rw append-nil refl))

  reads :
      (value : List Text)
      → (read_entries netaddr_from_string
            (filled []
              (length (accepts value))
              []
              (length (rejects value))
              (settings value (false, false)))
            value
          >>= (λ result. done (outcome result)))
        ≡ done (outcome (described netaddr_from_string value))
  reads value =
      rw
        (
          read_entries-join netaddr_from_string [] [] (settings value (false, false)) value,
          settings-settings,
        )
        (ap (λ o. done (outcome o)) (join-described value _ _ refl refl))

  -- Whether the two allocations that the strings ask for succeed.
  abbrev pub enough : Bool → Bool → List Text → Bool
  enough accept_memory reject_memory value =
      (accept_memory || not (ltb 0 (length (accepts value))))
      && (reject_memory || not (ltb 0 (length (rejects value))))

  allocate :
      (am rm x y : Bool) (err good : Exec (NetaddrAcl × ℤ))
      → (if x && not am then err else if y && not rm then err else good)
        ≡ (if (am || not x) && (rm || not y) then good else err)
  allocate true true true true err good = refl
  allocate true true true false err good = refl
  allocate true true false true err good = refl
  allocate true true false false err good = refl
  allocate true false true true err good = refl
  allocate true false true false err good = refl
  allocate true false false true err good = refl
  allocate true false false false err good = refl
  allocate false rm true y err good = refl
  allocate false true false true err good = refl
  allocate false true false false err good = refl
  allocate false false false true err good = refl
  allocate false false false false err good = refl

  module _ (accept_memory reject_memory : Bool) (acl : NetaddrAcl) (value : List Text) where
    after_counting : NetaddrAcl × (ℕ × ℕ) → Exec (NetaddrAcl × ℤ)
    after_counting (acl, (k, l)) =
        if ltb 0 k && not accept_memory
        then done (cleared_acl, negsuc 0)
        else if ltb 0 l && not reject_memory
        then done (cleared_acl, negsuc 0)
        else read_entries netaddr_from_string
            (record acl { accept = calloc_netaddr k; reject = calloc_netaddr l }) value
          >>= (λ result. done (outcome result))

    -- When both allocations succeed that the strings need, the list read from them is the one they
    -- describe: the addresses to accept and to reject in their order, with their counts, and the
    -- settings that the last words say; a string that is no address, or an allocation that fails,
    -- leaves an empty list and the result -1. No address is written behind an array.
    pub netaddr_acl_from_strarray-described :
        netaddr_acl_from_strarray netaddr_from_string accept_memory reject_memory acl value
        ≡ done (
            outcome (
              if enough accept_memory reject_memory value
              then described netaddr_from_string value
              else none))
    unfolding netaddr_acl_from_strarray after_counting with_settings cleared_acl netaddr_acl_remove
        filled calloc_netaddr
    netaddr_acl_from_strarray-described =
        ap after_counting (counted value)
        ∙ allocate accept_memory reject_memory (ltb 0 (length (accepts value)))
            (ltb 0 (length (rejects value))) (done (cleared_acl, negsuc 0)) _
        ∙ elim (Bool-cases (enough accept_memory reject_memory value)) [
          | inl e ↦ rw e (reads value)
          | inr e ↦ rw e refl
        ]
