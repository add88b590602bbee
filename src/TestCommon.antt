-- ===== src/TestCommon.antt =====
-- test-common/src: the harness that the tests and the documentation generator connect through.
pub mod Retry
pub mod Image
pub mod Blueprint
pub mod Local
pub mod Sessions
pub mod Container
mod Tests
