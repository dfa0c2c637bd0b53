-- ===== src/Examples.antt =====
-- What the examples of Witnesses run on: packages, an API server and objects.
mod Packages
mod Idle
mod Server
mod Objects
pub use Packages.*
pub use Server.*
pub use Objects.*
pub use Idle.*
