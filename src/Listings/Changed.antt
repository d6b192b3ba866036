-- ===== src/Listings/Changed.antt =====
-- The creation and the change of a listing keep the tables of listings and inspections sound.
use sojourn_backend.Prelude.{
  ℕ, ◌≡◌, refl, inl, inr, pos, leb_ℤ, true, ◌&&◌, Option, none, some, is_set, holds, List, All,
  Bool-cases, Option-cases, arith,
}
use sojourn_backend.Entities.{Property, PropertyInspection, PropertyInspectionStatus, is_approved}
use sojourn_backend.Orm.{Orm}
use sojourn_backend.App.{World}
use sojourn_backend.Time.{number_of_nights}
use sojourn_backend.Listings.Inspections.{
  property_title_taken, inspection_title_taken, create_property, insert_inspection,
  create_property_inspection, is_property_inspection_approved, update_property,
  update_property_by_id, get_host_by_property_id,
}
use sojourn_backend.Listings.Forms.{
  CreateInspectionForm, PropertyChange, property_row, inspection_row, rest_of, is_host,
}
use sojourn_backend.Listings.Approval.{
  SameInspection, IsSound, change_listing, save_listing-IsSound, save_inspection-IsSound,
  change_listing-IsSound,
}

-- Listings and inspections of the database.
abbrev pub SoundListings : World → Type 0
SoundListings w = IsSound w.properties w.inspections

pub by_tables :
    {ps ps' : List Property} {xs xs' : List PropertyInspection}
    → ps' ≡ ps
    → xs' ≡ xs
    → IsSound ps xs
    → IsSound ps' xs'
by_tables ep ex h = rw (ep, ex) h

module _ (orm : Orm) where
  pub create-SoundListings :
      (now : ℕ) (form : CreateInspectionForm) (w : World)
      → SoundListings w
      → SoundListings (create_property_inspection orm now form w).1
  unfolding create_property_inspection create_property insert_inspection property_row inspection_row
      rest_of
  create-SoundListings now form w h =
      let p = property_row (rest_of form) (orm.generate Property (λ x. x.id) w.properties) in
      let x = inspection_row form p (orm.generate PropertyInspection (λ x. x.id) w.inspections) in
      elim (Bool-cases (leb_ℤ (pos 1) (number_of_nights now form.inspection_date))) [
        | inr early ↦ by_tables (ground arith) (ground arith) h
        | inl later ↦
            elim (Bool-cases (property_title_taken orm none (some form.title) w.properties)) [
              | inl taken ↦ by_tables (ground arith) (ground arith) h
              | inr free ↦
                  elim (Bool-cases
                    (inspection_title_taken orm none (some form.title) w.inspections)) [
                      | inl used ↦
                          by_tables (ground arith) (ground arith)
                            (save_listing-IsSound orm p w.properties w.inspections refl h)
                      | inr new ↦ by_tables (ground arith) (ground arith) (
                          save_inspection-IsSound orm p x w.properties w.inspections refl refl refl
                            refl h)
                    ]
            ]
      ]

  -- An inspection that a query finds has whatever all inspections have.
  abbrev pub IsInspection : World → PropertyInspection → Type 1
  IsInspection w z = (P : PropertyInspection → Type 0) → All P w.inspections → P z

  abbrev joined : ℕ → Property → World → Option PropertyInspection
  joined i p w =
      orm.find_one PropertyInspection
        (λ x. holds x.property_id p.id && (holds x.property_id i && is_approved x.status))
        w.inspections

  approved_row :
      (i : ℕ) (w : World)
      → is_property_inspection_approved orm i w ≡ true
      → (z : PropertyInspection) × IsInspection w z
        × (z.property_id ≡ some i)
        × (z.status ≡ PropertyInspectionStatus.approved)
  unfolding is_property_inspection_approved
  approved_row i w e =
      elim (Option-cases (orm.find_one Property (λ p. is_set (joined i p w)) w.properties)) [
        | inl gone ↦ absurd (ground arith)
        | inr (p, ep) ↦ elim (Option-cases (joined i p w)) [
          | inl alone ↦
              let hit : is_set (joined i p w) ≡ true =
                orm.find_one_sound Property (λ p. is_set (joined i p w)) w.properties p ep in
              absurd (ground arith)
          | inr (z, ez) ↦
              let met : (holds z.property_id p.id
                    && (holds z.property_id i && is_approved z.status))
                  ≡ true =
                orm.find_one_sound PropertyInspection _ w.inspections z ez in
              (
                z,
                λ P all. orm.find_one_keeps PropertyInspection P _ w.inspections z all ez,
                ground arith,
                ground arith,
              )
        ]
      ]

  pub update_property-SoundListings :
      (i : ℕ) (c : PropertyChange) (w : World)
      → SoundListings w
      → SoundListings (update_property_by_id orm i c w).1
  unfolding update_property_by_id update_property
  update_property-SoundListings i c w h =
      elim (Bool-cases (is_property_inspection_approved orm i w)) [
        | inr refused ↦ by_tables (ground arith) (ground arith) h
        | inl allowed ↦
            let found = approved_row i w allowed in
            let changed : IsSound (change_listing orm i c w.properties) w.inspections =
              change_listing-IsSound orm i c w.properties w.inspections found.0
                (found.1 (λ x. All (SameInspection x) w.inspections) h.apart) found.2 found.3 h in
            elim (Bool-cases (is_host (get_host_by_property_id orm i w) c.host_id)) [
              | inr stranger ↦ by_tables (ground arith) (ground arith) h
              | inl owner ↦
                  elim (Bool-cases (property_title_taken orm (some i) c.title w.properties)) [
                    | inl taken ↦ by_tables (ground arith) (ground arith) h
                    | inr free ↦ by_tables (ground arith) (ground arith) changed
                  ]
            ]
      ]
