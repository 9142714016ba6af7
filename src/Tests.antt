-- ===== src/Tests.antt =====
-- Runs of the model on small inputs, and the theorems at concrete data, over `Rest.Sample`.
pub mod Data
mod Proxy
mod Info
mod Offers
mod Handlers
mod Service
mod Remote
mod Joint
mod Operator
