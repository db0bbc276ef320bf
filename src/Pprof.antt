-- ===== src/Pprof.antt =====
-- src/pprof.rs: the messages of a profile, each with its encoder and its decoder.
pub mod ValueType
pub mod Line
pub mod Mapping
pub mod Function
pub mod Label
pub mod Location
pub mod Sample
pub mod Utf8
pub mod StringTable
pub mod Profile
