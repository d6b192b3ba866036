-- ===== src/Listings/Requests.antt =====
-- Sequences of the requests on listings, and what they keep of the two tables.
use sojourn_backend.Prelude.{ℕ}
use sojourn_backend.Orm.{Orm}
use sojourn_backend.App.{World}
use sojourn_backend.App.Transaction.{intercept}
use sojourn_backend.Listings.Inspections.{
  create_property_inspection, update_property_by_id, update_inspection_by_id,
  cancel_inspection_by_id,
}
use sojourn_backend.Listings.Forms.{CreateInspectionForm, PropertyChange, InspectionChange}

module _ (orm : Orm) where
  -- A request on a listing, and the world after it. The creation runs in a transaction.
  pub data ListingRequest (w : World) : World → Type 0 where
    create :
        (now : ℕ) (form : CreateInspectionForm)
        → ListingRequest w (intercept (create_property_inspection orm now form) w).1
    change : (i : ℕ) (c : PropertyChange) → ListingRequest w (update_property_by_id orm i c w).1
    decide :
        (now i : ℕ) (c : InspectionChange)
        → ListingRequest w (update_inspection_by_id orm now i c w).1
    cancel : (now i : ℕ) → ListingRequest w (cancel_inspection_by_id orm now i w).1

  pub data ListingRequests (w : World) : World → Type 0 where
    start : ListingRequests w w
    next : {w' w'' : World} → ListingRequests w w' → ListingRequest w' w'' → ListingRequests w w''
