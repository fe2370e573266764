-- ===== src/TestCases.antt =====
-- The bodies of the test cases of shell_tests/automation_tests. A failed assertion raises.
pub mod Base
pub mod SaveRestore
pub mod Autoload
pub mod Connectivity
pub mod VmConnections
