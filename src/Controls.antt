-- ===== src/Controls.antt =====
-- lib/ap-controls/schema.ts and evaluate.ts: who may enter, override and approve an invoice.
pub mod Schema
pub mod Override
pub mod AutoSubmit
pub mod Samples
mod Tests
