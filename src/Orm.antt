-- ===== src/Orm.antt =====
-- TypeORM as the repositories use it.
mod Interface
pub mod Saving
pub mod Pairwise
pub use Interface.*
