-- ===== src/Message.antt =====
-- The directory protocol/dml: DML messages, their templates, the modules that hold these, and the
-- manager of the modules.
-- A pointer to a template or a module is its index in the vector that owns it. A message holds its
-- template by value: a module that is sorted again while messages of it exist is not modelled.
pub mod Header
pub mod Template
pub mod Body
pub mod Module
pub mod Manager
