-- ===== src/Ap.antt =====
-- lib/ap-controls: the accounts-payable product.
pub mod Json
pub mod Store
pub mod Projections
pub mod Bills
pub mod Entering
