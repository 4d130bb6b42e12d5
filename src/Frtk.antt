-- ===== src/Frtk.antt =====
-- native/host/frtk_*: the tables of the game, their fields and guarded writes to them.
pub mod Field
pub mod Schema
pub mod Catalog
pub mod Access
