-- ===== src/Database.antt =====
-- database/: the spool, the buffered writer, the migrations and the value codec.
pub mod Storage
pub mod Buffered
pub mod Spool
pub mod Codec
pub mod Migrate
pub mod Maintenance
pub mod Writer
mod Tests
