-- ===== src/Listings/Approval.antt =====
-- No listing is active while its inspection is pending or cancelled.
use sojourn_backend.Prelude.{
  ℕ, ◌≡◌, ◌≢◌, refl, sym, ◌∙◌, inl, inr, some, List, All, All-map, All-zip, ◌==◌, arith,
}
use sojourn_backend.Entities.{
  Property, PropertyStatus, PropertyInspection, PropertyInspectionStatus,
}
use sojourn_backend.Orm.{Orm, HasKey}
use sojourn_backend.Orm.Saving.{generated-HasKey}
use sojourn_backend.Orm.Pairwise.{Pairwise, save-Pairwise}
use sojourn_backend.Listings.Forms.{PropertyChange, change_property}

-- Two rows with one identifier are the same inspection, and a listing has one inspection.
abbrev pub SameInspection : PropertyInspection → PropertyInspection → Type 0
SameInspection a b =
    (a.id ≡ b.id → (a.property_id ≡ b.property_id) × (a.status ≡ b.status))
    × ((k : ℕ) → a.property_id ≡ some k → b.property_id ≡ some k → a.id ≡ b.id)

pub mirror : (a b : PropertyInspection) → SameInspection a b → SameInspection b a
mirror a b (same, one) =
    (λ e. (sym (same (sym e)).0, sym (same (sym e)).1), λ k ea eb. sym (one k eb ea))

-- Every inspection of a listing is approved, apart from one.
abbrev pub IsListedBut : (PropertyInspection → Type 0) → List PropertyInspection → Property → Type 0
IsListedBut Skipped xs p =
    p.active_status ≡ PropertyStatus.active
    → All
        (λ x.
          x.property_id ≡ some p.id → ¬ Skipped x → x.status ≡ PropertyInspectionStatus.approved)
        xs

-- An active listing has approved inspections only.
abbrev pub IsListed : List PropertyInspection → Property → Type 0
IsListed xs p =
    p.active_status ≡ PropertyStatus.active
    → All (λ x. x.property_id ≡ some p.id → x.status ≡ PropertyInspectionStatus.approved) xs

abbrev pub Refers : List Property → PropertyInspection → Type 0
Refers ps x = (k : ℕ) → x.property_id ≡ some k → HasKey (λ p. p.id) k ps

-- The two tables: inspections are told apart, belong to listings that are there, and are approved
-- where the listing is active.
pub record IsSound (ps : List Property) (xs : List PropertyInspection) : Type 0 where
  pub apart : Pairwise SameInspection xs
  pub refers : All (Refers ps) xs
  pub listed : All (IsListed xs) ps

module _ (orm : Orm) where
  abbrev pub change_listing : ℕ → PropertyChange → List Property → List Property
  change_listing i c = orm.update Property (λ p. p.id == i) (change_property c)

  abbrev pub save_listing : Property → List Property → List Property
  save_listing = orm.save Property (λ p. p.id)

  abbrev pub save_inspection :
      PropertyInspection → List PropertyInspection → List PropertyInspection
  save_inspection = orm.save PropertyInspection (λ x. x.id)

  pub save_listing-Refers :
      (p : Property) (ps : List Property) (xs : List PropertyInspection)
      → All (Refers ps) xs
      → All (Refers (save_listing p ps)) xs
  save_listing-Refers p ps xs h =
      All-map (Refers ps) _ (λ x ref k e. orm.save_has Property (λ q. q.id) p ps k (inr (ref k e)))
        xs h

  pub change_listing-Refers :
      (i : ℕ) (c : PropertyChange) (ps : List Property) (xs : List PropertyInspection)
      → All (Refers ps) xs
      → All (Refers (change_listing i c ps)) xs
  unfolding change_property
  change_listing-Refers i c ps xs h =
      All-map (Refers ps) _
        (λ x ref k e.
          orm.update_has Property (λ q. q.id) _ (change_property c) ps k (λ q. refl) (ref k e))
        xs h

  -- A new listing, which is not active.
  pub save_listing-IsSound :
      (p : Property) (ps : List Property) (xs : List PropertyInspection)
      → p.active_status ≡ PropertyStatus.deactivated
      → IsSound ps xs
      → IsSound (save_listing p ps) xs
  save_listing-IsSound p ps xs off h = record {
    apart = h.apart;
    refers = save_listing-Refers p ps xs h.refers;
    listed =
        orm.save_all Property (IsListed xs) (λ q. q.id) p ps (λ on. absurd (ground arith))
          (All-map (IsListed xs) _ (λ q l _. l) ps h.listed);
  }

  -- And its inspection.
  pub save_inspection-IsSound :
      (p : Property) (x : PropertyInspection) (ps : List Property) (xs : List PropertyInspection)
      → p.active_status ≡ PropertyStatus.deactivated
      → p.id ≡ orm.generate Property (λ q. q.id) ps
      → x.id ≡ orm.generate PropertyInspection (λ y. y.id) xs
      → x.property_id ≡ some p.id
      → IsSound ps xs
      → IsSound (save_listing p ps) (save_inspection x xs)
  save_inspection-IsSound p x ps xs off fresh new of h = record {
    apart =
        save-Pairwise orm (λ y. y.id) SameInspection mirror x xs
          ((λ e. (refl, refl)), (λ k a b. refl))
          (All-zip (Refers ps) (λ y. y.id ≢ orm.generate PropertyInspection (λ y. y.id) xs) _
            (λ y ref ne. (
              (λ e. absurd (ne (sym e ∙ new))),
              λ k a b.
                  let unused = generated-HasKey orm (λ q. q.id) ps in
                  let same : k ≡ orm.generate Property (λ q. q.id) ps = ground arith in
                  absurd (unused (rw (sym same) (ref k b))),
            ))
            xs h.refers (orm.generate_fresh PropertyInspection (λ y. y.id) xs))
          h.apart;
    refers =
        orm.save_all PropertyInspection (Refers (save_listing p ps)) (λ y. y.id) x xs
          (λ k e. orm.save_has Property (λ q. q.id) p ps k (inl (ground arith)))
          (All-map (Refers (save_listing p ps)) _ (λ y ref _. ref) xs
            (save_listing-Refers p ps xs h.refers));
    listed =
        orm.save_all Property (IsListed (save_inspection x xs)) (λ q. q.id) p ps
          (λ on. absurd (ground arith))
          (All-map (IsListed xs) _
            (λ q l ne on.
              orm.save_all PropertyInspection _ (λ y. y.id) x xs (λ e. absurd (ne (ground arith)))
                (All-map _ _ (λ y a _. a) xs (l on)))
            ps h.listed);
  }

  -- A listing is changed only if an inspection of it is approved.
  pub change_listing-IsSound :
      (i : ℕ) (c : PropertyChange) (ps : List Property) (xs : List PropertyInspection)
      (z : PropertyInspection)
      → All (SameInspection z) xs
      → z.property_id ≡ some i
      → z.status ≡ PropertyInspectionStatus.approved
      → IsSound ps xs
      → IsSound (change_listing i c ps) xs
  unfolding change_property
  change_listing-IsSound i c ps xs z alike of approves h = record {
    apart = h.apart;
    refers = change_listing-Refers i c ps xs h.refers;
    listed =
        orm.update_all Property (IsListed xs) (λ p. p.id == i) (change_property c) ps
          (All-map (IsListed xs) _
            (λ p l. (
              λ hit on.
                  All-map (SameInspection z) _
                    (λ x s e. sym (s.0 (s.1 i of (ground arith))).1 ∙ approves) xs alike,
              λ miss. l,
            ))
            ps h.listed);
  }
