-- ===== src/DoHandler.antt =====
-- shell_tests/handlers/do_handler.py: CloudShell and networking apps in sandboxes on another
-- CloudShell, Do. The pool's futures run one after another. Calls to the CloudShell that was created
-- are noted in the same history as those to Do.
pub mod Topology
pub mod Creator
pub mod Apps
