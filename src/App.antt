-- ===== src/App.antt =====
-- What a request handler runs in: the tables, the events that it has emitted, and exceptions.
-- A handler takes the world and returns a result with the new world, also when it throws: what
-- was written before the throw stays written, unless the transaction interceptor undoes it.
mod Monad
pub mod Transaction
unfoldable pub use Monad.*
