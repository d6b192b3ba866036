-- ===== src/Referals.antt =====
-- Referrals: src/repositories/referals.repository.ts and src/referals/referals.service.ts.
pub mod Requests
pub mod Limit
