-- ===== src/Dml.antt =====
-- The directory dml: typed fields and records of them, in their binary form.
pub mod Bytes
pub mod Field
pub mod Record
pub mod Xml
