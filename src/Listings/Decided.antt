-- ===== src/Listings/Decided.antt =====
-- The tables of listings and inspections once an inspection has been written, and once its listing
-- has followed it.
use sojourn_backend.Prelude.{
  ℕ, ◌≡◌, ◌≢◌, refl, sym, ◌∙◌, some, List, All, All-map, All-zip, ◌==◌, arith,
}
use sojourn_backend.Entities.{
  Property, PropertyStatus, PropertyInspection, PropertyInspectionStatus,
}
use sojourn_backend.Orm.{Orm}
use sojourn_backend.Orm.Pairwise.{Pairwise, replace-Pairwise, change-Pairwise}
use sojourn_backend.Listings.Forms.{
  InspectionChange, change_property, change_inspection, listing_status, status_only,
}
use sojourn_backend.Listings.Approval.{
  SameInspection, mirror, IsListedBut, IsListed, Refers, IsSound, change_listing, save_listing,
  save_inspection, save_listing-Refers, change_listing-Refers,
}

module _ (orm : Orm) where
  -- What is left of soundness once the inspection with an identifier has been written.
  pub record IsSoundBut (i : ℕ) (s : PropertyInspectionStatus) (ps : List Property)
      (xs : List PropertyInspection) : Type 0 where
    pub apart : Pairwise SameInspection xs
    pub refers : All (Refers ps) xs
    pub own : All (λ x. x.id ≡ i → x.status ≡ s) xs
    pub listed : All (IsListedBut (λ x. x.id ≡ i) xs) ps

  skip_none :
      (i : ℕ) (xs : List PropertyInspection) (p : Property)
      → IsListed xs p
      → IsListedBut (λ x. x.id ≡ i) xs p
  skip_none i xs p l on = All-map _ _ (λ x a e _. a e) xs (l on)

  pub change_inspection-IsSoundBut :
      (now i : ℕ) (c : InspectionChange) (s : PropertyInspectionStatus) (ps : List Property)
      (xs : List PropertyInspection)
      → IsSound ps xs
      → IsSoundBut i s ps
          (orm.update PropertyInspection (λ x. x.id == i) (change_inspection now c s) xs)
  unfolding change_inspection
  change_inspection-IsSoundBut now i c s ps xs h = record {
    apart =
        change-Pairwise orm (λ y. y.id) SameInspection mirror (λ x. x.id == i)
          (change_inspection now c s) xs (λ a b r pa pb. ((λ e. ((r.0 e).0, refl)), r.1))
          (λ a b r pa nb. ((λ e. absurd (ground arith)), r.1)) h.apart;
    refers =
        orm.update_all PropertyInspection (Refers ps) _ _ xs
          (All-map (Refers ps) _ (λ x ref. (λ _. ref, λ _. ref)) xs h.refers);
    own = orm.update_all PropertyInspection _ _ _ xs (
        All-map (Refers ps) _ (λ x ref. (λ _ _. refl, λ miss e. absurd (ground arith))) xs
          h.refers);
    listed =
        All-map (IsListed xs) _
          (λ p l on. orm.update_all PropertyInspection _ _ _ xs (
            All-map _ _ (λ x a. (λ hit e skip. absurd (skip (ground arith)), λ miss e skip. a e)) xs
              (l on)))
          ps h.listed;
  }

  pub save_inspection-IsSoundBut :
      (x : PropertyInspection) (y : PropertyInspection) (ps : List Property)
      (xs : List PropertyInspection)
      → All (SameInspection x) xs
      → Refers ps x
      → y.id ≡ x.id
      → y.property_id ≡ x.property_id
      → IsSound ps xs
      → IsSoundBut x.id y.status ps (save_inspection orm y xs)
  save_inspection-IsSoundBut x y ps xs alike ref ei ep h = record {
    apart =
        replace-Pairwise orm (λ y. y.id) SameInspection mirror y xs
          ((λ e. (refl, refl)), (λ k a b. refl))
          (All-map (SameInspection x) _
            (λ z s ne. ((λ e. absurd (ne (sym e))), λ k a b. ei ∙ s.1 k (sym ep ∙ a) b)) xs alike)
          h.apart;
    refers =
        orm.save_all PropertyInspection (Refers ps) (λ z. z.id) y xs (λ k e. ref k (sym ep ∙ e))
          (All-map (Refers ps) _ (λ z r _. r) xs h.refers);
    own =
        orm.save_all PropertyInspection _ (λ z. z.id) y xs (λ _. refl)
          (All-map (Refers ps) _ (λ z r ne e. absurd (ne (e ∙ sym ei))) xs h.refers);
    listed =
        All-map (IsListed xs) _
          (λ p l on.
            orm.save_all PropertyInspection _ (λ z. z.id) y xs (λ e skip. absurd (skip ei))
              (All-map _ _ (λ z a ne e skip. a e) xs (l on)))
          ps h.listed;
  }

  -- An inspection of no listing that is there does not matter.
  pub restored_alone :
      (i : ℕ) (s : PropertyInspectionStatus) (ps : List Property) (xs : List PropertyInspection)
      → IsSoundBut i s ps xs
      → All (λ p. All (λ x. x.id ≡ i → x.property_id ≢ some p.id) xs) ps
      → IsSound ps xs
  restored_alone i s ps xs h alone = record {
    apart = h.apart;
    refers = h.refers;
    listed =
        All-zip (IsListedBut (λ x. x.id ≡ i) xs)
          (λ p. All (λ x. x.id ≡ i → x.property_id ≢ some p.id) xs) _
          (λ p l no on.
            All-zip _ (λ x. x.id ≡ i → x.property_id ≢ some p.id) _
              (λ x a far e. a e (λ same. far same e)) xs (l on) no)
          ps h.listed alone;
  }

  -- The inspection of a listing with another identifier does not matter.
  rows_apart :
      (i k : ℕ) (xs : List PropertyInspection) (q : Property)
      → All (λ x. x.id ≡ i → x.property_id ≡ some k) xs
      → q.id ≢ k
      → IsListedBut (λ x. x.id ≡ i) xs q
      → IsListed xs q
  rows_apart i k xs q of ne l on =
      All-zip _ (λ x. x.id ≡ i → x.property_id ≡ some k) _
        (λ x a own e. a e (λ same. ne (ground (arith, own same)))) xs (l on) of

  approved_if_active :
      (s : PropertyInspectionStatus)
      → listing_status s ≡ PropertyStatus.active
      → s ≡ PropertyInspectionStatus.approved
  unfolding listing_status
  approved_if_active s e = ground arith

  pub restored_changed :
      (i k : ℕ) (s : PropertyInspectionStatus) (ps : List Property) (xs : List PropertyInspection)
      (z : PropertyInspection)
      → All (SameInspection z) xs
      → z.id ≡ i
      → z.property_id ≡ some k
      → IsSoundBut i s ps xs
      → IsSound (change_listing orm k (status_only (listing_status s)) ps) xs
  unfolding change_property listing_status
  restored_changed i k s ps xs z alike ei of h = record {
    apart = h.apart;
    refers = change_listing-Refers orm k (status_only (listing_status s)) ps xs h.refers;
    listed = orm.update_all Property (IsListed xs) _ _ ps (
        All-map (IsListedBut (λ x. x.id ≡ i) xs) _
          (λ q l. (
            λ hit on.
                All-zip (SameInspection z) (λ x. x.id ≡ i → x.status ≡ s) _
                  (λ x r own e.
                    let same = r.1 k of (ground arith) in
                    own (sym same ∙ ei) ∙ approved_if_active s on)
                  xs alike h.own,
            λ miss.
                rows_apart i k xs q
                  (All-map (SameInspection z) _ (λ x r e. sym (r.0 (ei ∙ sym e)).0 ∙ of) xs alike)
                  (ground arith) l,
          ))
          ps h.listed);
  }

  pub restored_saved :
      (i : ℕ) (s : PropertyInspectionStatus) (p : Property) (ps : List Property)
      (xs : List PropertyInspection)
      → p.active_status ≡ PropertyStatus.deactivated
      → All (λ x. x.id ≡ i → x.property_id ≡ some p.id) xs
      → IsSoundBut i s ps xs
      → IsSound (save_listing orm p ps) xs
  restored_saved i s p ps xs off of h = record {
    apart = h.apart;
    refers = save_listing-Refers orm p ps xs h.refers;
    listed =
        orm.save_all Property (IsListed xs) (λ q. q.id) p ps (λ on. absurd (ground arith))
          (All-map (IsListedBut (λ x. x.id ≡ i) xs) _ (λ q l ne. rows_apart i p.id xs q of ne l) ps
            h.listed);
  }
