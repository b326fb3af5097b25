-- ===== src/Common/NetaddrAcl/Decision.antt =====
-- The verdict of an access control list (src-api/common/netaddr_acl.c).
use oonf_api.Base.{suc, ◌≡◌, ◌↔◌, ◌⊎◌, inl, inr, refl, Bool, true, false, List, [], ◌∷◌, length}
use oonf_api.Base.Exec.{done}
use oonf_api.Common.Netaddr.SameBits.{SameBits, AreBytes}
use oonf_api.Common.Netaddr.{Netaddr, netaddr_is_in_subnet}
use oonf_api.Common.Netaddr.Subnet.{IsNetaddr, netaddr_is_in_subnet-SameBits}
use oonf_api.Common.NetaddrAcl.{NetaddrAcl, is_in_array, netaddr_acl_check_accept}
use mathlib.Core.Bool.{false≢true}

abbrev pub InPrefix : Netaddr → Netaddr → Type 0
InPrefix s a = (s.addr_type ≡ a.addr_type) × SameBits s.prefix_len s.addr a.addr

-- Some prefix of the list has the address.
abbrev pub Covered : List Netaddr → Netaddr → Type 0
Covered [] a = ⊥
Covered (s ∷ array) a = InPrefix s a ⊎ Covered array a

abbrev pub AreNetaddr : List Netaddr → Type 0
AreNetaddr [] = Unit
AreNetaddr (s ∷ array) = IsNetaddr s × AreNetaddr array

-- The verdict, from the order, the two lists and the default.
abbrev pub Allowed : Bool → Type 0 → Type 0 → Type 0 → Type 0
Allowed true Accept Reject Default = ¬ Reject × (Accept ⊎ Default)
Allowed false Accept Reject Default = Accept ⊎ (¬ Reject × Default)

is_in_array-Covered :
    (array : List Netaddr) (a : Netaddr)
    → AreNetaddr array
    → AreBytes a.addr
    → length a.addr ≡ 16
    → (r : Bool) × (is_in_array array (length array) a ≡ done r) × ((r ≡ true) ↔ Covered array a)
unfolding is_in_array
is_in_array-Covered [] a h bytes size = (false, refl, (λ e. absurd (false≢true e), λ c. elim c [ ]))
is_in_array-Covered (s ∷ array) a h bytes size =
    let (r, run, spec) = netaddr_is_in_subnet-SameBits s a h.0 bytes size in
    let (q, run', spec') = is_in_array-Covered array a h.1 bytes size in
    by_head r run spec q run' spec'
  where
    by_head :
        (r : Bool)
        → netaddr_is_in_subnet s a ≡ done r
        → ((r ≡ true) ↔ InPrefix s a)
        → (q : Bool) → is_in_array array (length array) a ≡ done q
        → ((q ≡ true) ↔ Covered array a)
        → (r : Bool) × (is_in_array (s ∷ array) (suc (length array)) a ≡ done r)
          × ((r ≡ true) ↔ (InPrefix s a ⊎ Covered array a))
    by_head true run spec q run' spec' = (true, rw run refl, (λ e. inl (spec.0 e), λ c. refl))
    by_head false run spec q run' spec' = (
      q,
      rw (run, run') refl,
      (
        λ e. inr (spec'.0 e),
        λ c. elim c [ inl here ↦ absurd (false≢true (spec.1 here)) | inr there ↦ spec'.1 there ],
      ),
    )

decision : Bool → Bool → Bool → Bool → Bool
decision true accepted true default = false
decision true true false default = true
decision true false false default = default
decision false true rejected default = true
decision false false true default = false
decision false false false default = default

decision_iff :
    (first accepted rejected default : Bool) {Accept Reject : Type 0}
    → ((accepted ≡ true) ↔ Accept)
    → ((rejected ≡ true) ↔ Reject)
    → (decision first accepted rejected default ≡ true)
      ↔ Allowed first Accept Reject (default ≡ true)
unfolding decision
decision_iff true accepted true d a r = (λ e. absurd (false≢true e), λ h. absurd (h.0 (r.0 refl)))
decision_iff true true false d a r = (λ e. (λ x. false≢true (r.1 x), inl (a.0 refl)), λ h. refl)
decision_iff true false false d a r = (
  λ e. (λ x. false≢true (r.1 x), inr e),
  λ h. elim h.1 [ inl x ↦ absurd (false≢true (a.1 x)) | inr e ↦ e ],
)
decision_iff false true rejected d a r = (λ e. inl (a.0 refl), λ h. refl)
decision_iff false false true d a r = (
  λ e. absurd (false≢true e),
  λ h. elim h [ inl x ↦ absurd (false≢true (a.1 x)) | inr p ↦ absurd (p.0 (r.0 refl)) ],
)
decision_iff false false false d a r = (
  λ e. inr (λ x. false≢true (r.1 x), e),
  λ h. elim h [ inl x ↦ absurd (false≢true (a.1 x)) | inr p ↦ p.1 ],
)

check_accept-decision :
    (acl : NetaddrAcl) (a : Netaddr) (accepted rejected : Bool)
    → is_in_array acl.accept acl.accept_count a ≡ done accepted
    → is_in_array acl.reject acl.reject_count a ≡ done rejected
    → netaddr_acl_check_accept acl a
      ≡ done (decision acl.reject_first accepted rejected acl.accept_default)
unfolding netaddr_acl_check_accept decision
check_accept-decision acl a accepted rejected ha hr =
    by_order acl.reject_first refl accepted ha rejected hr
  where
    by_order :
        (first : Bool)
        → acl.reject_first ≡ first
        → (accepted : Bool) → is_in_array acl.accept acl.accept_count a ≡ done accepted
        → (rejected : Bool) → is_in_array acl.reject acl.reject_count a ≡ done rejected
        → netaddr_acl_check_accept acl a
          ≡ done (decision first accepted rejected acl.accept_default)
    by_order true f accepted ha true hr = rw (f, hr) refl
    by_order true f true ha false hr = rw (f, hr, ha) refl
    by_order true f false ha false hr = rw (f, hr, ha) refl
    by_order false f true ha rejected hr = rw (f, ha) refl
    by_order false f false ha true hr = rw (f, ha, hr) refl
    by_order false f false ha false hr = rw (f, ha, hr) refl

-- On lists whose counts are their lengths, of prefixes of at most 128 bits, the check of an
-- address ends with a verdict. When rejecting comes first, the address is accepted exactly if no
-- prefix to reject has it, and one to accept has it or the default is to accept; otherwise exactly
-- if a prefix to accept has it, or none to reject has it and the default is to accept.
pub netaddr_acl_check_accept-Allowed :
    (acl : NetaddrAcl) (a : Netaddr)
    → acl.accept_count ≡ length acl.accept
    → acl.reject_count ≡ length acl.reject
    → AreNetaddr acl.accept
    → AreNetaddr acl.reject
    → AreBytes a.addr
    → length a.addr ≡ 16
    → (r : Bool) × (netaddr_acl_check_accept acl a ≡ done r)
      × ((r ≡ true)
          ↔ Allowed acl.reject_first
              (Covered acl.accept a)
              (Covered acl.reject a)
              (acl.accept_default ≡ true))
netaddr_acl_check_accept-Allowed acl a la lr ha hr bytes size =
    let (x, run, spec) = is_in_array-Covered acl.accept a ha bytes size in
    let (y, run', spec') = is_in_array-Covered acl.reject a hr bytes size in
    (
      decision acl.reject_first x y acl.accept_default,
      check_accept-decision acl a x y (rw la run) (rw lr run'),
      decision_iff acl.reject_first x y acl.accept_default spec spec',
    )
