-- ===== src/ResourceHandler.antt =====
-- shell_tests/handlers/resource_handler.py. `ResourceHandler` is a record that its methods return
-- anew; the record of the calls to the server goes beside it. One thread is followed: the lock and
-- the two events are flags. Logging and thread names are left out.
pub mod State
pub mod Attributes
pub mod Autoload
pub mod Commands
pub mod Service
pub mod Deployed
pub mod Threads
