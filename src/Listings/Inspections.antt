-- ===== src/Listings/Inspections.antt =====
-- The requests that create a listing, change it, and decide on its inspection. The columns that
-- are only displayed are left out.
use sojourn_backend.Prelude.{
  ℕ, pos, leb_ℤ, Bool, not, ◌&&◌, Option, none, some, is_set, holds, List, ◌==◌,
}
use sojourn_backend.Entities.{
  Property, PropertyStatus, PropertyInspection, PropertyInspectionStatus, Inspector, Host,
  is_approved,
}
use sojourn_backend.Orm.{Orm}
use sojourn_backend.App.{
  World, Handler, Exception, ◌>>=◌, ◌>>◌, pure, gets, modify, deref, throw_if, or_else_throw,
}
use sojourn_backend.Time.{number_of_nights}
use sojourn_backend.Listings.Forms.{
  CreateInspectionForm, CreateProperty, InspectionChange, PropertyChange, change_inspection,
  change_property, inspection_row, is_host, listing_status, property_row, requested_status, rest_of,
  status_only,
}

module _ (orm : Orm) where
  -- `title` is a unique column of both tables: whether a row with another identifier has it.
  abbrev pub property_title_taken : Option ℕ → Option ℕ → List Property → Bool
  property_title_taken self title t =
      is_set (orm.find_one Property (λ p. holds title p.title && not (holds self p.id)) t)

  abbrev pub inspection_title_taken : Option ℕ → Option ℕ → List PropertyInspection → Bool
  inspection_title_taken self title t =
      is_set (orm.find_one PropertyInspection (λ x. holds title x.title && not (holds self x.id)) t)

  unfoldable pub create_property : CreateProperty → Handler Property
  unfolding property_row
  create_property payload = do
    taken ← gets λ w. property_title_taken none (some payload.title) w.properties
    throw_if taken Exception.duplicate_title
    p ← gets λ w. property_row payload (orm.generate Property (λ x. x.id) w.properties)
    modify λ w. record w { properties = orm.save Property (λ x. x.id) p w.properties }
    pure p

  -- `PropertyInspectionRepository.createPropertyInspection`
  unfoldable pub insert_inspection : CreateInspectionForm → Property → Handler ℕ
  unfolding inspection_row
  insert_inspection form property = do
    taken ← gets λ w. inspection_title_taken none (some form.title) w.inspections
    throw_if taken Exception.duplicate_title
    x ← gets λ w.
        inspection_row form property (orm.generate PropertyInspection (λ x. x.id) w.inspections)
    modify λ w. record w { inspections = orm.save PropertyInspection (λ y. y.id) x w.inspections }
    pure x.id

  unfoldable pub create_property_inspection : ℕ → CreateInspectionForm → Handler ℕ
  unfolding create_property insert_inspection rest_of
  create_property_inspection now form =
      or_else_throw
        (do
          throw_if (not (leb_ℤ (pos 1) (number_of_nights now form.inspection_date)))
              Exception.listing_not_created
          property ← create_property (rest_of form)
          insert_inspection form property)
        Exception.listing_not_created

  -- The relation `host` of a listing
  unfoldable pub get_host_by_property_id : ℕ → World → Option Host
  get_host_by_property_id i w = elim (orm.find_one Property (λ p. p.id == i) w.properties) [
    | none ↦ none
    | some p ↦ orm.find_one Host (λ h. h.id == p.host_id) w.hosts
  ]

  -- A listing that is joined to an approved inspection of the listing with the identifier.
  unfoldable pub is_property_inspection_approved : ℕ → World → Bool
  is_property_inspection_approved i w = is_set (
      orm.find_one Property
        (λ p. is_set (
          orm.find_one PropertyInspection
            (λ x. holds x.property_id p.id && (holds x.property_id i && is_approved x.status))
            w.inspections))
        w.properties)

  -- `PropertiesRepository.updateProperty`
  unfoldable pub update_property : ℕ → PropertyChange → Handler (Unit {0})
  unfolding change_property
  update_property i c = do
    taken ← gets λ w. property_title_taken (some i) c.title w.properties
    throw_if taken Exception.duplicate_title
    modify λ w. record w {
      properties = orm.update Property (λ p. p.id == i) (change_property c) w.properties;
    }

  unfoldable pub update_property_by_id : ℕ → PropertyChange → Handler (Unit {0})
  unfolding get_host_by_property_id is_property_inspection_approved update_property
  update_property_by_id i c = do
    host ← gets (get_host_by_property_id i)
    throw_if (not (is_host host c.host_id)) Exception.host_mismatch
    allowed ← gets (is_property_inspection_approved i)
    throw_if (not allowed) Exception.inspection_not_approved
    update_property i c

  -- `PropertyInspectionRepository.updateInspection`
  unfoldable pub update_inspection :
      ℕ → ℕ → InspectionChange → PropertyInspectionStatus → Handler (Unit {0})
  unfolding change_inspection
  update_inspection now i c status = do
    taken ← gets λ w. inspection_title_taken (some i) c.title w.inspections
    throw_if taken Exception.duplicate_title
    modify λ w. record w {
      inspections =
          orm.update PropertyInspection (λ x. x.id == i) (change_inspection now c status)
            w.inspections;
    }

  -- The listing that is joined to the inspection
  unfoldable pub get_property_by_inspection_id : ℕ → World → Option Property
  get_property_by_inspection_id i w =
      orm.find_one Property
        (λ p. is_set (
          orm.find_one PropertyInspection (λ x. holds x.property_id p.id && (x.id == i))
            w.inspections))
        w.properties

  unfoldable pub update_inspection_by_id : ℕ → ℕ → InspectionChange → Handler (Unit {0})
  unfolding update_inspection get_property_by_inspection_id update_property requested_status
      listing_status
  update_inspection_by_id now i c = do
    inspector ← gets λ w. orm.find_one Inspector (λ x. holds c.inspector_id x.id) w.inspectors
    throw_if (is_set c.inspector_id && not (is_set inspector)) Exception.inspector_not_found
    update_inspection now i c (requested_status c.inspection_status)
    property ← deref (← gets (get_property_by_inspection_id i))
    update_property property.id
        (status_only (listing_status (requested_status c.inspection_status)))

  -- `PropertyInspectionRepository.cancelInspectionById`
  unfoldable pub cancel_inspection : ℕ → ℕ → Handler Property
  cancel_inspection now i = do
    x ← deref (← gets λ w. orm.find_one PropertyInspection (λ x. x.id == i) w.inspections)
    modify λ w. record w {
      inspections =
          orm.save PropertyInspection (λ y. y.id)
            (record x { status = PropertyInspectionStatus.cancelled; date_cancelled = some now })
            w.inspections;
    }
    p ← deref (← gets λ w. orm.find_one Property (λ p. holds x.property_id p.id) w.properties)
    modify λ w. record w {
      properties =
          orm.save Property (λ y. y.id) (record p { active_status = PropertyStatus.deactivated })
            w.properties;
    }
    pure p

  unfoldable pub cancel_inspection_by_id : ℕ → ℕ → Handler Property
  unfolding cancel_inspection
  cancel_inspection_by_id now i =
      or_else_throw (cancel_inspection now i) Exception.inspection_not_cancelled
