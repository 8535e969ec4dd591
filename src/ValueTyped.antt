-- ===== src/ValueTyped.antt =====
-- loro-c-api/src/value_typed.rs: typed values as owned handles.
pub mod Items
pub mod Construct
pub mod Access
pub mod Compound
pub mod Visit
