-- ===== src/Common/NetaddrAcl/Settings.antt =====
-- The settings among the strings of an access control list (src-api/common/netaddr_acl.c) may be
-- applied twice.
use oonf_api.Base.{◌≡◌, refl, ap₂, ◌⊎◌, inl, inr, List, [], ◌∷◌, sym, ◌∙◌}
use oonf_api.Common.NetaddrAcl.{Text}
use oonf_api.Common.NetaddrAcl.Entries.{
  Entry, order, default, accept_text, reject_text, entry_of, Settings, apply, settings,
}

-- Each part of the settings is fixed by the strings, or left as it was.
first-cases :
    (value : List Text)
    → ((f g : Settings) → (settings value f).0 ≡ (settings value g).0)
      ⊎ ((f : Settings) → (settings value f).0 ≡ f.0)
first-cases [] = inr (λ f. refl)
first-cases (s ∷ value) = by_entry (first-cases value) (entry_of s)
  where
    by_entry :
        ((f g : Settings) → (settings value f).0 ≡ (settings value g).0)
          ⊎ ((f : Settings) → (settings value f).0 ≡ f.0)
        → (e : Entry)
        → ((f g : Settings) → (settings value (apply e f)).0 ≡ (settings value (apply e g)).0)
          ⊎ ((f : Settings) → (settings value (apply e f)).0 ≡ f.0)
    by_entry (inl fixed) e = inl (λ f g. fixed (apply e f) (apply e g))
    by_entry (inr kept) (order b) =
        inl (λ f g. kept (apply (order b) f) ∙ sym (kept (apply (order b) g)))
    by_entry (inr kept) (default b) = inr (λ f. kept (apply (default b) f))
    by_entry (inr kept) (accept_text t) = inr kept
    by_entry (inr kept) (reject_text t) = inr kept

default_part-cases :
    (value : List Text)
    → ((f g : Settings) → (settings value f).1 ≡ (settings value g).1)
      ⊎ ((f : Settings) → (settings value f).1 ≡ f.1)
default_part-cases [] = inr (λ f. refl)
default_part-cases (s ∷ value) = by_entry (default_part-cases value) (entry_of s)
  where
    by_entry :
        ((f g : Settings) → (settings value f).1 ≡ (settings value g).1)
          ⊎ ((f : Settings) → (settings value f).1 ≡ f.1)
        → (e : Entry)
        → ((f g : Settings) → (settings value (apply e f)).1 ≡ (settings value (apply e g)).1)
          ⊎ ((f : Settings) → (settings value (apply e f)).1 ≡ f.1)
    by_entry (inl fixed) e = inl (λ f g. fixed (apply e f) (apply e g))
    by_entry (inr kept) (order b) = inr (λ f. kept (apply (order b) f))
    by_entry (inr kept) (default b) =
        inl (λ f g. kept (apply (default b) f) ∙ sym (kept (apply (default b) g)))
    by_entry (inr kept) (accept_text t) = inr kept
    by_entry (inr kept) (reject_text t) = inr kept

pub settings-settings :
    (value : List Text) (f : Settings) → settings value (settings value f) ≡ settings value f
settings-settings value f =
    ap₂ (λ x y. (x, y))
      (elim (first-cases value) [
        | inl fixed ↦ fixed (settings value f) f
        | inr kept ↦ kept (settings value f)
      ])
      (elim (default_part-cases value) [
        | inl fixed ↦ fixed (settings value f) f
        | inr kept ↦ kept (settings value f)
      ])
