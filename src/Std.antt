-- ===== src/Std.antt =====
-- What the program uses of Go's standard library.
pub mod Strings
pub mod Hex
pub mod Errors
pub mod Net
pub mod Http
pub mod Base64
pub mod Sha256
pub mod Json
