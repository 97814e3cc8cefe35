-- ===== src/Kernel.antt =====
-- The kernel's memory and globals (src/disastrOS_globals.h, disastrOS.c and the struct headers), and
-- the monad in which its functions run.
mod Constants
mod Types
mod State
mod Memory
pub mod Lists
pub mod Pools
pub mod View
pub mod World
pub use Constants.*
pub use Types.*
pub use State.*
unfoldable pub use Memory.*
