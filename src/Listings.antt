-- ===== src/Listings.antt =====
-- Listings: src/properties/properties.service.ts, src/repositories/properties.repository.ts and
-- src/repositories/property-inpsection.repository.ts, with src/utils/property-utils.ts.
pub mod Forms
pub mod Inspections
pub mod Search
pub mod Found
pub mod Regroup
pub mod Pages
pub mod Approval
pub mod Decided
pub mod Changed
pub mod Inspected
pub mod Requests
