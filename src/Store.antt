-- ===== src/Store.antt =====
-- internal/store: the interfaces, and the stores that implement them.
pub mod Types
pub mod Mem
pub mod Principal
pub mod Sqlite
