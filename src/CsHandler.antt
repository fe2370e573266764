-- ===== src/CsHandler.antt =====
-- shell_tests/handlers/cs_handler.py: `CloudShellHandler`, method by method. Logging is left out. A
-- failure to open one of the cached sessions is one of the replies to the first call.
pub mod Session
pub mod Reservations
pub mod Resources
pub mod Commands
pub mod Topology
pub mod Shells
unfoldable pub use Session.*
unfoldable pub use Reservations.*
unfoldable pub use Resources.*
unfoldable pub use Commands.*
unfoldable pub use Topology.*
unfoldable pub use Shells.*
