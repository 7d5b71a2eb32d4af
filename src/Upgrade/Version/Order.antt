-- ===== src/Upgrade/Version/Order.antt =====
-- The tests of versions, in terms of the order that the `semver` crate computes.
use Prim.Native.Nat.{Ordering}
use mayastor_extensions.Prelude.{
  true, false, ◌≡◌, ◌≢◌, refl, ◌↔◌, List, [], ◌∷◌, All, arith, Bool-cases, inl, inr,
}
use mayastor_extensions.Upgrade.Version.{Semver, Version, contains_version, eq, ge, le, lt}

module _ (s : Semver) (a b : Version) where
  pub ge_iff : (ge s a b ≡ true) ↔ (s.cmp a b ≢ Ordering.lt)
  ge_iff = go (s.cmp a b)
    where
      go : (o : Ordering) → (elim o [ Ordering.lt ↦ false | _ ↦ true ] ≡ true) ↔ (o ≢ Ordering.lt)
      go Ordering.lt = (λ h. absurd (cc h), λ h. absurd (h refl))
      go Ordering.eq = (λ h e. cc, λ h. refl)
      go Ordering.gt = (λ h e. cc, λ h. refl)

  pub le_iff : (le s a b ≡ true) ↔ (s.cmp a b ≢ Ordering.gt)
  le_iff = go (s.cmp a b)
    where
      go : (o : Ordering) → (elim o [ Ordering.gt ↦ false | _ ↦ true ] ≡ true) ↔ (o ≢ Ordering.gt)
      go Ordering.lt = (λ h e. cc, λ h. refl)
      go Ordering.eq = (λ h e. cc, λ h. refl)
      go Ordering.gt = (λ h. absurd (cc h), λ h. absurd (h refl))

  pub not_lt_iff : (lt s a b ≡ false) ↔ (s.cmp a b ≢ Ordering.lt)
  not_lt_iff = go (s.cmp a b)
    where
      go : (o : Ordering) → (elim o [ Ordering.lt ↦ true | _ ↦ false ] ≡ false) ↔ (o ≢ Ordering.lt)
      go Ordering.lt = (λ h. absurd (cc h), λ h. absurd (h refl))
      go Ordering.eq = (λ h e. cc, λ h. refl)
      go Ordering.gt = (λ h e. cc, λ h. refl)

  pub eq_order_iff : (eq s a b ≡ true) ↔ (s.cmp a b ≡ Ordering.eq)
  eq_order_iff = go (s.cmp a b)
    where
      go : (o : Ordering) → (elim o [ Ordering.eq ↦ true | _ ↦ false ] ≡ true) ↔ (o ≡ Ordering.eq)
      go Ordering.lt = (λ h. absurd (cc h), λ h. absurd (cc h))
      go Ordering.eq = (λ h. refl, λ h. refl)
      go Ordering.gt = (λ h. absurd (cc h), λ h. absurd (cc h))

-- No version of the list equals this one.
abbrev pub Unlisted : Semver → List Version → Version → Type 0
Unlisted s versions v = All (λ x. s.cmp x v ≢ Ordering.eq) versions

module _ (s : Semver) (v : Version) where
  pub contains_version-Unlisted :
      (versions : List Version) → contains_version s versions v ≡ false → Unlisted s versions v
  contains_version-Unlisted [] h = tt
  contains_version-Unlisted (x ∷ xs) h =
      (λ e. cc ((eq_order_iff s x v).1 e, h), contains_version-Unlisted xs (ground (arith, h)))

  pub Unlisted-contains_version :
      (versions : List Version) → Unlisted s versions v → contains_version s versions v ≡ false
  Unlisted-contains_version [] h = refl
  Unlisted-contains_version (x ∷ xs) h = elim (Bool-cases (eq s x v)) [
    | inl e ↦ absurd (h.0 ((eq_order_iff s x v).0 e))
    | inr e ↦ rw e (Unlisted-contains_version xs h.1)
  ]
