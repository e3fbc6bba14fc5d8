-- ===== src/Platform.antt =====
-- The packages of internal/platform that every part calls: input guards, exports and error values.
pub mod Sanitize
pub mod Errors
pub mod Csv
pub mod Locales
pub mod Codes
pub mod Settings
mod Examples
