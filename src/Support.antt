-- ===== src/Support.antt =====
-- src/support.rs: the planner support functions, which rewrite calls while a query is planned.
pub mod Nodes
pub mod Catalog
pub mod Subquery
pub mod TagMap
mod OwnTests
mod Tests
