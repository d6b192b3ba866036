-- ===== src/Messages.antt =====
-- The conversations of guests and hosts: src/messages/messages.service.ts and
-- src/repositories/messages.repository.ts, with src/utils/messages-utils.ts.
pub mod Tickets
pub mod Reading
