-- ===== src/Tron.antt =====
-- python/clu/legacy/tron.py.
pub mod Buffer
pub mod Lines
pub mod Model
pub mod Values
pub mod Parsing
pub mod Created
pub mod Connection
pub mod Commands
mod Tests
