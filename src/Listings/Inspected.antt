-- ===== src/Listings/Inspected.antt =====
-- The decision on an inspection and its cancelling keep the tables of listings and inspections
-- sound.
use sojourn_backend.Prelude.{
  ℕ, ◌≡◌, ◌≢◌, refl, ◌∙◌, inl, inr, true, false, not, ◌&&◌, Option, none, some, is_set, holds, List,
  All, All-map, Bool-cases, Option-cases, ◌==◌, arith,
}
use sojourn_backend.Entities.{
  Property, PropertyStatus, PropertyInspection, PropertyInspectionStatus, Inspector,
}
use sojourn_backend.Orm.{Orm}
use sojourn_backend.App.{World}
use sojourn_backend.Listings.Inspections.{
  property_title_taken, inspection_title_taken, update_property, update_inspection,
  update_inspection_by_id, get_property_by_inspection_id, cancel_inspection,
  cancel_inspection_by_id,
}
use sojourn_backend.Listings.Forms.{InspectionChange, requested_status, change_inspection}
use sojourn_backend.Listings.Approval.{SameInspection, Refers, save_inspection}
use sojourn_backend.Listings.Decided.{
  IsSoundBut, change_inspection-IsSoundBut, save_inspection-IsSoundBut, restored_alone,
  restored_changed, restored_saved,
}
use sojourn_backend.Listings.Changed.{SoundListings, by_tables, IsInspection}

module _ (orm : Orm) where
  -- No listing has a title that is not given.
  no_title : (self : Option ℕ) (ps : List Property) → property_title_taken orm self none ps ≡ false
  no_title self ps =
      elim (Option-cases
        (orm.find_one Property (λ p. holds none p.title && not (holds self p.id)) ps)) [
          | inl free ↦ ground arith
          | inr (p, e) ↦
              let met : (holds none p.title && not (holds self p.id)) ≡ true =
                orm.find_one_sound Property _ ps p e in
              absurd cc
        ]

  -- The listing of an inspection, and what the lack of one says.
  abbrev of_listing : ℕ → Property → World → Option PropertyInspection
  of_listing i p w =
      orm.find_one PropertyInspection (λ x. holds x.property_id p.id && (x.id == i)) w.inspections

  inspected_listing :
      (i : ℕ) (w : World) (p : Property)
      → get_property_by_inspection_id orm i w ≡ some p
      → (z : PropertyInspection) × IsInspection orm w z × (z.property_id ≡ some p.id) × (z.id ≡ i)
  unfolding get_property_by_inspection_id
  inspected_listing i w p e = elim (Option-cases (of_listing i p w)) [
    | inl alone ↦
        let hit : is_set (of_listing i p w) ≡ true =
          orm.find_one_sound Property (λ p. is_set (of_listing i p w)) w.properties p e in
        absurd (ground arith)
    | inr (z, ez) ↦
        let met : (holds z.property_id p.id && (z.id == i)) ≡ true =
          orm.find_one_sound PropertyInspection _ w.inspections z ez in
        (
          z,
          λ P all. orm.find_one_keeps PropertyInspection P _ w.inspections z all ez,
          ground arith,
          ground arith,
        )
  ]

  no_listing :
      (i : ℕ) (w : World)
      → get_property_by_inspection_id orm i w ≡ none
      → All (λ p. All (λ x. x.id ≡ i → x.property_id ≢ some p.id) w.inspections) w.properties
  unfolding get_property_by_inspection_id
  no_listing i w e =
      All-map (λ p. is_set (of_listing i p w) ≡ false) _
        (λ p missing. elim (Option-cases (of_listing i p w)) [
          | inr (z, ez) ↦ absurd (ground arith)
          | inl gone ↦
              All-map (λ x. (holds x.property_id p.id && (x.id == i)) ≡ false) _
                (λ x miss own of. absurd (ground arith)) w.inspections
                (orm.find_one_none PropertyInspection _ w.inspections gone)
        ])
        w.properties (orm.find_one_none Property _ w.properties e)

  pub update_inspection-SoundListings :
      (now i : ℕ) (c : InspectionChange) (w : World)
      → SoundListings w
      → SoundListings (update_inspection_by_id orm now i c w).1
  unfolding update_inspection_by_id update_inspection update_property
  update_inspection-SoundListings now i c w h =
      let s = requested_status c.inspection_status in
      let xs =
        orm.update PropertyInspection (λ x. x.id == i) (change_inspection now c s) w.inspections in
      let w1 = record w { inspections = xs } in
      let but : IsSoundBut orm i s w.properties xs =
        change_inspection-IsSoundBut orm now i c s w.properties w.inspections h in
      let inspector = orm.find_one Inspector (λ x. holds c.inspector_id x.id) w.inspectors in
      elim (Bool-cases (is_set c.inspector_id && not (is_set inspector))) [
        | inl refused ↦ by_tables (ground arith) (ground arith) h
        | inr fine ↦ elim (Bool-cases (inspection_title_taken orm (some i) c.title w.inspections)) [
          | inl taken ↦ by_tables (ground arith) (ground arith) h
          | inr free ↦ elim (Option-cases (get_property_by_inspection_id orm i w1)) [
            | inl alone ↦
                by_tables (ground arith) (ground arith)
                  (restored_alone orm i s w.properties xs but (no_listing i w1 alone))
            | inr (p, e) ↦
                let found = inspected_listing i w1 p e in
                let untitled = no_title (some p.id) w.properties in
                by_tables (ground arith) (ground arith) (
                  restored_changed orm i p.id s w.properties xs found.0
                    (found.1 (λ x. All (SameInspection x) xs) but.apart) found.3 found.2 but)
          ]
        ]
      ]

  pub cancel-SoundListings :
      (now i : ℕ) (w : World)
      → SoundListings w
      → SoundListings (cancel_inspection_by_id orm now i w).1
  unfolding cancel_inspection_by_id cancel_inspection
  cancel-SoundListings now i w h =
      elim (Option-cases (orm.find_one PropertyInspection (λ x. x.id == i) w.inspections)) [
        | inl missing ↦ by_tables (ground arith) (ground arith) h
        | inr (x, ex) ↦
            let y : PropertyInspection = record x {
              status = PropertyInspectionStatus.cancelled;
              date_cancelled = some now;
            } in
            let xs = save_inspection orm y w.inspections in
            let alike : All (SameInspection x) w.inspections =
              orm.find_one_keeps PropertyInspection (λ z. All (SameInspection z) w.inspections) _
                w.inspections x h.apart ex in
            let but : IsSoundBut orm x.id PropertyInspectionStatus.cancelled w.properties xs =
              save_inspection-IsSoundBut orm x y w.properties w.inspections alike
                (orm.find_one_keeps PropertyInspection (Refers w.properties) _ w.inspections x
                  h.refers ex)
                refl refl h in
            let own : All (λ z. z.id ≡ x.id → z.property_id ≡ x.property_id) xs =
              orm.save_all PropertyInspection _ (λ z. z.id) y w.inspections (λ _. refl)
                (All-map (SameInspection x) _ (λ z r ne e. absurd (ne e)) w.inspections alike) in
            elim (Option-cases
              (orm.find_one Property (λ p. holds x.property_id p.id) w.properties)) [
                | inl alone ↦ by_tables (ground arith) (ground arith) (
                    restored_alone orm x.id PropertyInspectionStatus.cancelled w.properties xs but (
                      All-map (λ p. holds x.property_id p.id ≡ false) _
                        (λ p far.
                          All-map (λ z. z.id ≡ x.id → z.property_id ≡ x.property_id) _
                            (λ z same e of. let link = same e in absurd (ground arith)) xs own)
                        w.properties (orm.find_one_none Property _ w.properties alone)))
                | inr (p, ep) ↦
                    let near : holds x.property_id p.id ≡ true =
                      orm.find_one_sound Property _ w.properties p ep in
                    let of : x.property_id ≡ some p.id = ground arith in
                    by_tables (ground arith) (ground arith) (
                      restored_saved orm x.id PropertyInspectionStatus.cancelled
                        (record p { active_status = PropertyStatus.deactivated }) w.properties xs
                        refl
                        (All-map (λ z. z.id ≡ x.id → z.property_id ≡ x.property_id) _
                          (λ z same e. same e ∙ of) xs own)
                        but)
              ]
      ]
