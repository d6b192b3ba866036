-- ===== src/Auth.antt =====
-- Authentication: src/auth/auth.service.ts, src/auth/auth.guard.ts and src/repositories/token.repository.ts.
pub mod Interface
pub mod Tokens
pub mod Login
pub mod Password
pub mod Accounts
pub mod Access
pub mod Guard
pub mod Signup
pub mod Sessions
pub mod Endpoints
pub mod SessionCookies
