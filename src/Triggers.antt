-- ===== src/Triggers.antt =====
-- modules/database/providers/mongo/processor/triggers: the triggers of models.
pub mod Registry
pub mod Conditions
pub mod Dispatch
