-- ===== src/TestSuite.antt =====
-- shell_tests/helpers/tests_helpers.py: which test cases are run for a resource.
pub mod Table
pub mod Selection
