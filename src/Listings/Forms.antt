-- ===== src/Listings/Forms.antt =====
-- The forms of a listing and of its inspection, and the rows that are made or changed by them:
-- src/properties/types.ts and src/properties/properties.service.ts.
use sojourn_backend.Prelude.{ℕ, Bool, false, Option, none, some, is_set, holds, List, if◌then◌else◌}
use sojourn_backend.Entities.{
  Property, PropertyStatus, PropertyInspection, PropertyInspectionStatus, Host, is_approved,
}

-- `CreateProperty`
pub record CreateProperty : Type 0 where
  pub host_id : ℕ
  pub title : ℕ
  pub number_of_rooms : ℕ
  pub max_number_of_people : ℕ
  pub type_of_property : ℕ
  pub city : ℕ
  pub ammenities : List ℕ
  pub price : ℕ
  pub caution_fee : Option ℕ
  pub active_status : Option PropertyStatus

-- `CreateInspectionForm`, of the declared fields. A body may have others, which no pipe takes away:
-- they are not modelled.
pub record CreateInspectionForm : Type 0 where
  pub host_id : ℕ
  pub title : ℕ
  pub number_of_rooms : ℕ
  pub max_number_of_people : ℕ
  pub type_of_property : ℕ
  pub city : ℕ
  pub ammenities : List ℕ
  pub price : ℕ
  pub caution_fee : Option ℕ
  pub inspection_date : ℕ
  pub date_approved : Option ℕ
  pub inspector_id : Option ℕ
  pub status : Option PropertyInspectionStatus

-- `const { inspectionDate, inspectionTime, ...rest }`
unfoldable pub rest_of : CreateInspectionForm → CreateProperty
rest_of form = record {
  host_id = form.host_id;
  title = form.title;
  number_of_rooms = form.number_of_rooms;
  max_number_of_people = form.max_number_of_people;
  type_of_property = form.type_of_property;
  city = form.city;
  ammenities = form.ammenities;
  price = form.price;
  caution_fee = form.caution_fee;
  active_status = none;
}

-- The text `inspectionStatus`
pub data InspectionWord : Type 0 where
  approved cancelled other : InspectionWord

-- `Partial<CreateProperty>`; a column that is not set is not written
pub record PropertyChange : Type 0 where
  pub host_id : Option ℕ
  pub title : Option ℕ
  pub price : Option ℕ
  pub caution_fee : Option ℕ
  pub active_status : Option PropertyStatus

-- `Partial<CreateInspectionForm>`
pub record InspectionChange : Type 0 where
  pub title : Option ℕ
  pub inspection_date : Option ℕ
  pub inspector_id : Option ℕ
  pub inspection_status : Option InspectionWord

abbrev pub given : {A : Type 0} → Option A → A → A
given none a = a
given (some b) a = b

-- The row that `create` makes, the rest being the defaults of the columns.
unfoldable pub property_row : CreateProperty → ℕ → Property
property_row payload i = record {
  id = i;
  title = payload.title;
  host_id = payload.host_id;
  active_status = given payload.active_status PropertyStatus.deactivated;
  views = 0;
  number_of_rooms = payload.number_of_rooms;
  max_number_of_people = payload.max_number_of_people;
  type_of_property = payload.type_of_property;
  city = payload.city;
  ammenities = payload.ammenities;
  price = payload.price;
  caution_fee = given payload.caution_fee 0;
}

unfoldable pub inspection_row : CreateInspectionForm → Property → ℕ → PropertyInspection
inspection_row form property i = record {
  id = i;
  title = form.title;
  status = given form.status PropertyInspectionStatus.pending;
  inspector_id = form.inspector_id;
  property_id = some property.id;
  host_id = form.host_id;
  inspection_date = form.inspection_date;
  date_approved = form.date_approved;
  date_cancelled = none;
}

-- `update(id, …)` of a listing and of an inspection
unfoldable pub change_property : PropertyChange → Property → Property
change_property c p = record p {
  host_id = given c.host_id p.host_id;
  title = given c.title p.title;
  price = given c.price p.price;
  caution_fee = given c.caution_fee p.caution_fee;
  active_status = given c.active_status p.active_status;
}

abbrev pub approval_date : PropertyInspectionStatus → ℕ → Option ℕ → Option ℕ
approval_date status now date = if is_approved status then some now else date

unfoldable pub change_inspection :
    ℕ → InspectionChange → PropertyInspectionStatus → PropertyInspection → PropertyInspection
change_inspection now c status x = record x {
  title = given c.title x.title;
  inspection_date = given c.inspection_date x.inspection_date;
  inspector_id = if is_set c.inspector_id then c.inspector_id else x.inspector_id;
  status = status;
  date_approved = approval_date status now x.date_approved;
}

-- The status that is written: pending, unless a word says otherwise.
unfoldable pub requested_status : Option InspectionWord → PropertyInspectionStatus
requested_status none = PropertyInspectionStatus.pending
requested_status (some InspectionWord.approved) = PropertyInspectionStatus.approved
requested_status (some InspectionWord.cancelled) = PropertyInspectionStatus.cancelled
requested_status (some InspectionWord.other) = PropertyInspectionStatus.pending

-- The switch on the new status
unfoldable pub listing_status : PropertyInspectionStatus → PropertyStatus
listing_status PropertyInspectionStatus.approved = PropertyStatus.active
listing_status PropertyInspectionStatus.pending = PropertyStatus.deactivated
listing_status PropertyInspectionStatus.cancelled = PropertyStatus.deactivated

abbrev pub status_only : PropertyStatus → PropertyChange
status_only status = record {
  host_id = none;
  title = none;
  price = none;
  caution_fee = none;
  active_status = some status;
}

abbrev pub is_host : Option Host → Option ℕ → Bool
is_host none id = false
is_host (some h) id = holds id h.id
