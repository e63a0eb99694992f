-- ===== src/Common.antt =====
-- src/cpp/include/telepath/common.
pub mod Types
pub mod Chains
pub mod Status
pub mod Results
pub mod Geometry
pub mod Layout
mod Examples
